-- ===== src/FakeProvider.antt =====
-- fake/fake.go: the provider in memory. It sleeps and locks around the list of
-- calls, which is left out.
pub mod Contract
pub mod Refinement
pub mod Registration
pub mod Balances
use multicluster_cloud_provi.Prelude.{
  String, Bool, true, false, not, Option, none, some, List, [], ◌∷◌, ◌++◌, if◌then◌else◌, str_eq,
}
use multicluster_cloud_provi.Api.{
  NamespacedName, Error, other, MultiClusterIngress, MultiClusterService, LoadBalancerStatus,
  LoadBalancerIngress,
}
use multicluster_cloud_provi.Platform.{Action, ◌>>=◌, ◌>>◌, pure, throw, deref, done}
use multicluster_cloud_provi.Platform.Helpers.{StringSets}
use multicluster_cloud_provi.Indexes.{build_service_ref_indexes}

pub record Balancer : Type 0 where
  pub name : String
  pub namespace : String
  pub mci : MultiClusterIngress
  pub services : List String

pub record McsBalancer : Type 0 where
  pub name : String
  pub namespace : String
  pub mcs : MultiClusterService

-- A map from strings, as an association list in which the first entry of a key counts.
abbrev pub find {ℓ} : {A : Type ℓ} → String → List (String × A) → Option A
find k [] = none
find k ((j, a) ∷ m) = if str_eq j k then some a else find k m

-- delete(m, k)
abbrev pub delete {ℓ} : {A : Type ℓ} → String → List (String × A) → List (String × A)
delete k [] = []
delete k ((j, a) ∷ m) = let rest = delete k m in if str_eq j k then rest else (j, a) ∷ rest

-- `range` over the keys until one is equal
abbrev pub has_key {ℓ} : {A : Type ℓ} → String → List (String × A) → Bool
has_key k [] = false
has_key k ((j, a) ∷ m) = let rest = has_key k m in if str_eq j k then true else rest

-- Provider. A nil map reads as an empty one, and is made before it is written.
pub record Provider : Type 0 where
  pub name : String
  pub balancers : List (String × Balancer)
  pub mcs_balancers : List (String × McsBalancer)
  pub calls : List String

abbrev pub default_provider_name : String
default_provider_name = "fake"

-- ProviderName
unfoldable pub provider_name : Provider → String
provider_name p = if str_eq p.name "" then default_provider_name else p.name

abbrev add_call : String → Action Provider (Unit {0})
add_call desc p = (done tt, record p { calls = p.calls ++ desc ∷ [] })

abbrev pub state : Action Provider Provider
state p = (done p, p)

abbrev set_balancers : List (String × Balancer) → Action Provider (Unit {0})
set_balancers m p = (done tt, record p { balancers = m })

abbrev set_mcs_balancers : List (String × McsBalancer) → Action Provider (Unit {0})
set_mcs_balancers m p = (done tt, record p { mcs_balancers = m })

abbrev pub status_of : String → Option LoadBalancerStatus
status_of ip = some (record { ingress = some (record { ip = ip; hostname = "" } ∷ []) })

abbrev pub empty_status : LoadBalancerStatus
empty_status = record { ingress = none }

abbrev pub balancer_of : MultiClusterIngress → List String → Balancer
balancer_of mci services = record {
  name = mci.name;
  namespace = mci.namespace;
  mci = mci;
  services = services;
}

abbrev mcs_balancer_of : MultiClusterService → McsBalancer
mcs_balancer_of mcs = record { name = mcs.name; namespace = mcs.namespace; mcs = mcs }

-- `text` is NamespacedName.String.
module _ (text : NamespacedName → String) (sets : StringSets) where
  abbrev pub mci_text : MultiClusterIngress → String
  mci_text mci = text (record { namespace = mci.namespace; name = mci.name })

  abbrev mcs_text : MultiClusterService → String
  mcs_text mcs = text (record { namespace = mcs.namespace; name = mcs.name })

  -- GetLoadBalancer
  unfoldable pub get_load_balancer :
      MultiClusterIngress → Action Provider (Option LoadBalancerStatus × Bool)
  get_load_balancer mci = do
    add_call "get"
    p ← state
    if has_key (mci_text mci) p.balancers
        then pure (some empty_status, true)
        else pure (none, false)

  create_balancer :
      MultiClusterIngress → Option Balancer → Action Provider (Option LoadBalancerStatus)
  create_balancer mci (some b) = throw (other "there already exist a LoadBalancer")
  create_balancer mci none = do
    services ← deref (build_service_ref_indexes sets mci)
    p ← state
    set_balancers ((mci_text mci, balancer_of mci services) ∷ p.balancers)
    pure (status_of "1.2.3.4")

  -- EnsureLoadBalancer. BuildServiceRefIndexes may panic.
  unfoldable pub ensure_load_balancer :
      MultiClusterIngress → Action Provider (Option LoadBalancerStatus)
  unfolding create_balancer
  ensure_load_balancer mci = do
    add_call "create"
    p ← state
    create_balancer mci (find (mci_text mci) p.balancers)

  -- The fields of a copy of the balancer are assigned, and the copy is dropped.
  change_balancer :
      MultiClusterIngress → Option Balancer → Action Provider (Option LoadBalancerStatus)
  change_balancer mci none = throw (other "there not exist a LoadBalancer")
  change_balancer mci (some b) = do
    services ← deref (build_service_ref_indexes sets mci)
    pure (status_of "1.2.3.5")

  -- UpdateLoadBalancer
  unfoldable pub update_load_balancer :
      MultiClusterIngress → Action Provider (Option LoadBalancerStatus)
  unfolding change_balancer
  update_load_balancer mci = do
    add_call "update"
    p ← state
    change_balancer mci (find (mci_text mci) p.balancers)

  -- EnsureLoadBalancerDeleted
  unfoldable pub ensure_load_balancer_deleted : MultiClusterIngress → Action Provider (Unit {0})
  ensure_load_balancer_deleted mci = do
    add_call "delete"
    p ← state
    set_balancers (delete (mci_text mci) p.balancers)

  -- GetMCSLoadBalancer
  unfoldable pub get_mcs_load_balancer :
      MultiClusterService → Action Provider (Option LoadBalancerStatus × Bool)
  get_mcs_load_balancer mcs = do
    add_call "get"
    p ← state
    if has_key (mcs_text mcs) p.mcs_balancers
        then pure (some empty_status, true)
        else pure (none, false)

  create_mcs_balancer :
      MultiClusterService → Option McsBalancer → Action Provider (Option LoadBalancerStatus)
  create_mcs_balancer mcs (some b) = throw (other "there already exist a LoadBalancer")
  create_mcs_balancer mcs none = do
    p ← state
    set_mcs_balancers ((mcs_text mcs, mcs_balancer_of mcs) ∷ p.mcs_balancers)
    pure (status_of "1.2.3.4")

  -- EnsureMCSLoadBalancer
  unfoldable pub ensure_mcs_load_balancer :
      MultiClusterService → Action Provider (Option LoadBalancerStatus)
  unfolding create_mcs_balancer
  ensure_mcs_load_balancer mcs = do
    add_call "create"
    p ← state
    create_mcs_balancer mcs (find (mcs_text mcs) p.mcs_balancers)

  change_mcs_balancer :
      MultiClusterService → Option McsBalancer → Action Provider (Option LoadBalancerStatus)
  change_mcs_balancer mcs none = throw (other "there not exist a LoadBalancer")
  change_mcs_balancer mcs (some b) = pure (status_of "1.2.3.5")

  -- UpdateMCSLoadBalancer
  unfoldable pub update_mcs_load_balancer :
      MultiClusterService → Action Provider (Option LoadBalancerStatus)
  unfolding change_mcs_balancer
  update_mcs_load_balancer mcs = do
    add_call "update"
    p ← state
    change_mcs_balancer mcs (find (mcs_text mcs) p.mcs_balancers)

  -- EnsureMCSLoadBalancerDeleted
  unfoldable pub ensure_mcs_load_balancer_deleted : MultiClusterService → Action Provider (Unit {0})
  ensure_mcs_load_balancer_deleted mcs = do
    add_call "delete"
    p ← state
    set_mcs_balancers (delete (mcs_text mcs) p.mcs_balancers)
