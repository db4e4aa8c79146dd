-- ===== src/Util/DefaultClass.antt =====
-- The exposure of a MultiClusterService, and the default ingress class.
use multicluster_cloud_provi.Prelude.{
  ◌≡◌, refl, inl, inr, String, true, false, List, [], ◌∷◌, arith, contains, if◌then◌else◌,
  Bool-cases,
}
use multicluster_cloud_provi.Api.{other, Result, ok, err, MultiClusterService, IngressClass}
use multicluster_cloud_provi.Util.{
  mcs_contain_load_balance_type, contain_load_balance, exposure_type_load_balancer, is_default,
  default_loop, default_of_list,
}

contain_load_balance_lem :
    (ts : List String) → contain_load_balance ts ≡ contains ts exposure_type_load_balancer
unfolding contain_load_balance
contain_load_balance_lem [] = refl
contain_load_balance_lem (t ∷ ts) = ground (arith, contain_load_balance_lem ts)

-- A MultiClusterService counts as a load balancer exactly when its types contain `LoadBalancer`.
pub mcs_contain_lem :
    (mcs : MultiClusterService)
    → mcs_contain_load_balance_type mcs ≡ contains mcs.spec.types exposure_type_load_balancer
unfolding mcs_contain_load_balance_type
mcs_contain_lem mcs = contain_load_balance_lem mcs.spec.types

-- The ingress classes that are marked as the default.
pub defaults : List IngressClass → List IngressClass
defaults [] = []
defaults (c ∷ cs) = let rest = defaults cs in if is_default c then c ∷ rest else rest

-- The name of the only one, "" if there is none, and an error if there are several.
abbrev found_name : String → List IngressClass → Result String
found_name name [] = ok name
found_name name (c ∷ cs) = err (other "multiple default IngressClasses found")

abbrev pub only_name : List IngressClass → Result String
only_name [] = ok ""
only_name (c ∷ cs) = found_name c.name cs

default_loop_found :
    (name : String) (cs : List IngressClass)
    → default_loop name true cs ≡ found_name name (defaults cs)
unfolding default_loop defaults
default_loop_found name [] = refl
default_loop_found name (c ∷ cs) = elim (Bool-cases (is_default c)) [
  | inl e ↦ rw e
  | inr e ↦ rw e (default_loop_found name cs)
]

default_loop_lem : (cs : List IngressClass) → default_loop "" false cs ≡ only_name (defaults cs)
unfolding default_loop defaults
default_loop_lem [] = refl
default_loop_lem (c ∷ cs) = elim (Bool-cases (is_default c)) [
  | inl e ↦ rw e (default_loop_found c.name cs)
  | inr e ↦ rw e (default_loop_lem cs)
]

-- The default ingress class of a list is the name of the only class that is marked as the default;
-- it is "" if no class is marked, and an error if several are.
pub default_of_list_lem :
    (cs : List IngressClass) → default_of_list (ok cs) ≡ only_name (defaults cs)
unfolding default_of_list
default_of_list_lem cs = default_loop_lem cs
