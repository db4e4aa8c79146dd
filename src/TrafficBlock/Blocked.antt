-- ===== src/TrafficBlock/Blocked.antt =====
-- Which clusters the status names.
use multicluster_cloud_provi.Prelude.{
  ◌≡◌, refl, inl, inr, String, Bool, ◌&&◌, ◌||◌, none, some, List, [], ◌∷◌, arith, str_eq, eq_iff,
  items, push, any, contains, contains-append, Slice, Bool-cases,
}
use multicluster_cloud_provi.Prelude.Texts.{IsSorted, contains-sort_strings, sort_strings-IsSorted}
use multicluster_cloud_provi.Api.{MultiClusterIngress, ServiceLocation, Cluster}
use multicluster_cloud_provi.Platform.Helpers.{StringSets, insert_all, has-insert_all}
use multicluster_cloud_provi.TrafficBlock.{
  has_traffic_control, traffic_control, located_clusters, block_loop, sort_slice,
  traffic_block_clusters,
}

-- A location of the ingress lists the cluster.
abbrev pub is_located : MultiClusterIngress → String → Bool
is_located mci name =
    any (λ l. contains (items l.clusters) name) (items mci.status.service_locations)

-- The cluster of that name is under traffic control.
abbrev pub is_controlled : String → Cluster → Bool
is_controlled name c = str_eq c.name name && contains c.remedy_actions traffic_control

pub has_traffic_control_lem :
    (actions : List String) → has_traffic_control actions ≡ contains actions traffic_control
unfolding has_traffic_control
has_traffic_control_lem [] = refl
has_traffic_control_lem (a ∷ as') = ground (arith, has_traffic_control_lem as')

module _ (sets : StringSets) where
  has-located_clusters :
      (s : sets.StringSet) (ls : List ServiceLocation) (name : String)
      → sets.has (located_clusters sets s ls) name
        ≡ (any (λ l. contains (items l.clusters) name) ls || sets.has s name)
  unfolding located_clusters
  has-located_clusters s [] name = refl
  has-located_clusters s (l ∷ ls) name = ground (
    arith,
    has-located_clusters (insert_all sets s (items l.clusters)) ls name,
    has-insert_all sets s (items l.clusters) name,
  )

  contains-block_loop :
      (located : sets.StringSet) (acc : Slice String) (cs : List Cluster) (name : String)
      → contains (items (block_loop sets located acc cs)) name
        ≡ (contains (items acc) name || (sets.has located name && any (is_controlled name) cs))
  unfolding block_loop
  contains-block_loop located acc [] name = ground arith
  contains-block_loop located acc (c ∷ cs) name =
      elim (Bool-cases (sets.has located c.name && has_traffic_control c.remedy_actions)) [
        | inl e ↦ rw e (
            ground (
              arith,
              contains-block_loop located (push acc c.name) cs name,
              contains-append (items acc) (c.name ∷ []) name,
              has_traffic_control_lem c.remedy_actions,
              eq_iff c.name name,
            ))
        | inr e ↦ rw e (
            ground (
              arith,
              contains-block_loop located acc cs name,
              has_traffic_control_lem c.remedy_actions,
              eq_iff c.name name,
            ))
      ]

  contains-sort_slice :
      (s : Slice String) (name : String)
      → contains (items (sort_slice s)) name ≡ contains (items s) name
  contains-sort_slice none name = refl
  contains-sort_slice (some xs) name = contains-sort_strings xs name

  sort_slice-IsSorted : (s : Slice String) → IsSorted (items (sort_slice s))
  sort_slice-IsSorted none = tt
  sort_slice-IsSorted (some xs) = sort_strings-IsSorted xs

  -- The traffic block list of an ingress names exactly the listed clusters that are under traffic
  -- control and that a service location of the ingress lists, in ascending order.
  pub traffic_block_clusters_lem :
      (mci : MultiClusterIngress) (clusters : List Cluster)
      → ((name : String)
          → contains (items (traffic_block_clusters sets mci clusters)) name
            ≡ (is_located mci name && any (is_controlled name) clusters))
        × IsSorted (items (traffic_block_clusters sets mci clusters))
  unfolding traffic_block_clusters
  traffic_block_clusters_lem mci clusters =
      let located = located_clusters sets sets.new (items mci.status.service_locations) in
      let loop : Slice String = block_loop sets located none clusters in
      (
        λ name. ground (
          arith,
          contains-sort_slice loop name,
          contains-block_loop located none clusters name,
          has-located_clusters sets.new (items mci.status.service_locations) name,
          sets.has-new name,
        ),
        sort_slice-IsSorted loop,
      )
