-- ===== src/ServiceLocations/Coverage.antt =====
-- What it means for locations to tell where the services of an ingress are.
use multicluster_cloud_provi.Prelude.{◌≡◌, ◌⊎◌, String, true, some, List, [], ◌∷◌, contains, All}
use multicluster_cloud_provi.Prelude.Texts.{IsSorted}
use multicluster_cloud_provi.Api.{not_found, ok, err, ServiceLocation, ResourceBinding}
use multicluster_cloud_provi.Platform.Runtime.{Runtime}
use multicluster_cloud_provi.Bindings.{is_scheduled}
use multicluster_cloud_provi.ServiceLocations.{binding_key}

abbrev pub located_names : List ServiceLocation → List String
located_names [] = []
located_names (l ∷ ls) = l.name ∷ located_names ls

-- The states of the API server that the loop reaches from `start` by reading bindings.
pub data Reached {C : Type 0} (rt : Runtime C) (generate : String → String → String)
    (namespace : String) (start : C) : C → Type 0 where
  begun : Reached rt generate namespace start start
  after :
      (name : String) {c : C}
      → Reached rt generate namespace start c
      → Reached rt generate namespace start
          (rt.client.get_binding (binding_key generate namespace name) c).1

module _ {C : Type 0} (rt : Runtime C) (generate : String → String → String) (namespace : String)
    (start : C) where
  -- Get has answered with a binding of the service, and the location lists its clusters in order.
  pub record Backed (location : ServiceLocation) : Type 0 where
    pub binding : ResourceBinding
    pub got_at : C
    pub reached : Reached rt generate namespace start got_at
    pub got :
        (rt.client.get_binding (binding_key generate namespace location.name) got_at).0 ≡ ok binding
    pub clusters : List String
    pub is_list : location.clusters ≡ some clusters
    pub names : (a : String) → contains clusters a ≡ is_scheduled binding.spec a
    pub sorted : IsSorted clusters

  -- Get has answered that there is no binding of the service.
  abbrev Unbound : String → Type 0
  Unbound name =
      (c : C) × Reached rt generate namespace start c
      × ((rt.client.get_binding (binding_key generate namespace name) c).0 ≡ err not_found)

  -- The locations are those of the named services, as far as these have a binding.
  pub record Locates (names : List String) (locations : List ServiceLocation) : Type 0 where
    pub backed : All Backed locations
    pub is_named :
        (name : String)
        → contains (located_names locations) name ≡ true
        → contains names name ≡ true
    pub complete :
        (name : String)
        → contains names name ≡ true
        → (contains (located_names locations) name ≡ true) ⊎ Unbound name
    pub sorted : IsSorted names → IsSorted (located_names locations)
