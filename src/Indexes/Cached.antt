-- ===== src/Indexes/Cached.antt =====
-- What the cache of the API client answers by a field index.
use multicluster_cloud_provi.Prelude.{◌≡◌, ◌↔◌, String, true, some, List, In, contains}
use multicluster_cloud_provi.Api.{MultiClusterIngress}
use multicluster_cloud_provi.Platform.Helpers.{StringSets}
use multicluster_cloud_provi.Indexes.{build_service_ref_indexes}
use multicluster_cloud_provi.Indexes.References.{RefersTo, build_service_ref_indexes_lem}

-- The ingresses that the cache of the API client holds in a namespace, by the field index.
pub record Indexed (sets : StringSets) (cache : List MultiClusterIngress) (namespace name : String)
    (ms : List MultiClusterIngress) : Type 0 where
  pub built :
      (m : MultiClusterIngress)
      → In m cache
      → (names : List String) × (build_service_ref_indexes sets m ≡ some names)
  pub selected :
      (m : MultiClusterIngress)
      → In m ms ↔ (
          In m cache
          × (m.namespace ≡ namespace)
          × ((names : List String) × (build_service_ref_indexes sets m ≡ some names)
              × (contains names name ≡ true)))

-- These are the cached ingresses of the namespace that refer to the service.
pub indexed_lem :
    (sets : StringSets) (cache : List MultiClusterIngress) (namespace name : String)
    (ms : List MultiClusterIngress)
    → Indexed sets cache namespace name ms
    → (m : MultiClusterIngress)
    → In m ms ↔ (In m cache × (m.namespace ≡ namespace) × RefersTo m name)
indexed_lem sets cache namespace name ms x m = (
  λ k.
      let (inside, ns, (names, b, has)) = (x.selected m).0 k in
      (inside, ns, ((build_service_ref_indexes_lem sets m names b).0 name).0 has),
  λ (inside, ns, r).
      let (names, b) = x.built m inside in
      let has = ((build_service_ref_indexes_lem sets m names b).0 name).1 r in
      (x.selected m).1 (inside, ns, (names, b, has)),
)
