-- ===== src/Bindings.antt =====
-- The clusters that a ResourceBindingSpec schedules to, as a sorted list without duplicates. The
-- same two loops stand in getClusterResults
-- (pkg/controllers/serviceexportpropagation/serviceexport_propagation_controller.go) and in
-- obtainBindingClusters (pkg/controllers/mciservicelocations/mci_service_locations.go).
use multicluster_cloud_provi.Prelude.{
  ◌≡◌, ap, ◌∙◌, refl, String, Bool, ◌||◌, List, [], ◌∷◌, arith, str_eq, any, contains, items,
}
use multicluster_cloud_provi.Prelude.Texts.{IsSorted}
use multicluster_cloud_provi.Api.{
  TargetCluster, BindingSnapshot, ResourceBindingSpec, ResourceBinding,
}
use multicluster_cloud_provi.Platform.Helpers.{StringSets}

module _ (sets : StringSets) where
  insert_clusters : sets.StringSet → List TargetCluster → sets.StringSet
  insert_clusters s [] = s
  insert_clusters s (c ∷ cs) = insert_clusters (sets.insert s c.name) cs

  insert_required : sets.StringSet → List BindingSnapshot → sets.StringSet
  unfolding insert_clusters
  insert_required s [] = s
  insert_required s (r ∷ rs) = insert_required (insert_clusters s (items r.clusters)) rs

  -- getClusterResults
  unfoldable pub get_cluster_results : ResourceBindingSpec → List String
  unfolding insert_required
  get_cluster_results spec =
      sets.list
        (insert_required (insert_clusters sets.new (items spec.clusters)) (items spec.required_by))

  -- obtainBindingClusters
  unfoldable pub obtain_binding_clusters : ResourceBinding → List String
  unfolding insert_required
  obtain_binding_clusters binding = sets.list (
      insert_required (insert_clusters sets.new (items binding.spec.clusters))
        (items binding.spec.required_by))

abbrev names_cluster : String → List TargetCluster → Bool
names_cluster name cs = any (λ c. str_eq c.name name) cs

-- The spec schedules to the cluster itself, or a spec that requires it does.
abbrev pub is_scheduled : ResourceBindingSpec → String → Bool
is_scheduled spec name =
    names_cluster name (items spec.clusters)
    || any (λ r. names_cluster name (items r.clusters)) (items spec.required_by)

module _ (sets : StringSets) where
  has-insert_clusters :
      (s : sets.StringSet) (cs : List TargetCluster) (name : String)
      → sets.has (insert_clusters sets s cs) name ≡ (names_cluster name cs || sets.has s name)
  unfolding insert_clusters
  has-insert_clusters s [] name = refl
  has-insert_clusters s (c ∷ cs) name =
      ground
        (arith, has-insert_clusters (sets.insert s c.name) cs name, sets.has-insert s c.name name)

  has-insert_required :
      (s : sets.StringSet) (rs : List BindingSnapshot) (name : String)
      → sets.has (insert_required sets s rs) name
        ≡ (any (λ r. names_cluster name (items r.clusters)) rs || sets.has s name)
  unfolding insert_required
  has-insert_required s [] name = refl
  has-insert_required s (r ∷ rs) name = ground (
    arith,
    has-insert_required (insert_clusters sets s (items r.clusters)) rs name,
    has-insert_clusters s (items r.clusters) name,
  )

  -- The result of a binding names exactly the clusters that it, or a binding that requires it, is
  -- scheduled to, in ascending order.
  pub get_cluster_results_lem :
      (spec : ResourceBindingSpec)
      → ((name : String) → contains (get_cluster_results sets spec) name ≡ is_scheduled spec name)
        × IsSorted (get_cluster_results sets spec)
  unfolding get_cluster_results
  get_cluster_results_lem spec =
      let direct = insert_clusters sets sets.new (items spec.clusters) in
      let whole = insert_required sets direct (items spec.required_by) in
      (
        λ name. ground (
          arith,
          sets.contains-list whole name,
          has-insert_required direct (items spec.required_by) name,
          has-insert_clusters sets.new (items spec.clusters) name,
          sets.has-new name,
        ),
        sets.list-IsSorted whole,
      )

  -- Both controllers compute the same list from a binding.
  pub obtain_binding_clusters_lem :
      (binding : ResourceBinding)
      → obtain_binding_clusters sets binding ≡ get_cluster_results sets binding.spec
  unfolding obtain_binding_clusters get_cluster_results
  obtain_binding_clusters_lem binding = refl

  -- The list depends only on the two lists of clusters.
  pub same_results_lem :
      (a b : ResourceBinding)
      → a.spec.clusters ≡ b.spec.clusters
      → a.spec.required_by ≡ b.spec.required_by
      → obtain_binding_clusters sets a ≡ obtain_binding_clusters sets b
  unfolding obtain_binding_clusters
  same_results_lem a b p q =
      ap
        (λ cs. sets.list (
          insert_required sets (insert_clusters sets sets.new (items cs))
            (items a.spec.required_by)))
        p
      ∙ ap
          (λ rs. sets.list (
            insert_required sets (insert_clusters sets sets.new (items b.spec.clusters))
              (items rs)))
          q
