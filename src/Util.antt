-- ===== src/Util.antt =====
-- pkg/util: the load balancer type of a MultiClusterService, and the ingress class of a
-- MultiClusterIngress.
pub mod DefaultClass
pub mod IngressClasses
use multicluster_cloud_provi.Prelude.{
  String, Bool, true, false, not, Option, none, some, List, [], ◌∷◌, if◌then◌else◌, str_eq,
}
use multicluster_cloud_provi.Api.{
  Error, other, Result, ok, err, index, MultiClusterIngress, MultiClusterService, IngressClass,
}
use multicluster_cloud_provi.Platform.{◌>>=◌, pure, M, read, Client}

abbrev pub exposure_type_load_balancer : String
exposure_type_load_balancer = "LoadBalancer"

contain_load_balance : List String → Bool
contain_load_balance [] = false
contain_load_balance (t ∷ ts) =
    let rest = contain_load_balance ts in
    if str_eq t exposure_type_load_balancer then true else rest

-- MCSContainLoadBalanceType
unfoldable pub mcs_contain_load_balance_type : MultiClusterService → Bool
unfolding contain_load_balance
mcs_contain_load_balance_type mcs = contain_load_balance mcs.spec.types

abbrev annotation_is_default_ingress_class : String
annotation_is_default_ingress_class = "ingressclass.kubernetes.io/is-default-class"

abbrev pub is_default : IngressClass → Bool
is_default c = str_eq (index c.annotations annotation_is_default_ingress_class) "true"

-- The loop of GetDefaultIngressClass over the class found so far and whether one was found.
unfoldable pub default_loop : String → Bool → List IngressClass → Result String
default_loop found is_found [] = ok found
default_loop found is_found (c ∷ cs) =
    let skip = default_loop found is_found cs in
    let take = default_loop c.name true cs in
    if not (is_default c)
    then skip
    else if is_found
    then err (other "multiple default IngressClasses found")
    else take

unfoldable pub default_of_list : Result (List IngressClass) → Result String
unfolding default_loop
default_of_list (ok cs) = default_loop "" false cs
default_of_list (err e) = err e

matches : Result IngressClass → String → Bool
matches (ok c) class_name = str_eq c.controller class_name
matches (err e) class_name = false

module _ {C P : Type 0} (client : Client C) where
  unfoldable pub get_default_ingress_class : M C P (Result String)
  unfolding default_of_list
  get_default_ingress_class = do
    listed ← read client.list_ingress_classes
    pure (default_of_list listed)

  class_matched : String → String → M C P Bool
  unfolding matches
  class_matched name class_name = do
    got ← read (client.get_ingress_class (record { namespace = ""; name = name }))
    pure (matches got class_name)

  default_matched : Result String → String → M C P Bool
  unfolding class_matched
  default_matched (err e) class_name = pure false
  default_matched (ok name) class_name =
      if str_eq name "" then pure false else class_matched name class_name

  class_name_matched : Option String → String → M C P Bool
  unfolding get_default_ingress_class default_matched
  class_name_matched (some name) class_name = class_matched name class_name
  class_name_matched none class_name = do
    found ← get_default_ingress_class
    default_matched found class_name

  -- CheckIngressClassMatched
  unfoldable pub check_ingress_class_matched : MultiClusterIngress → String → M C P Bool
  unfolding class_name_matched
  check_ingress_class_matched mci class_name =
      class_name_matched mci.spec.ingress_class_name class_name
