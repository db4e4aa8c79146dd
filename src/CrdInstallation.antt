-- ===== src/CrdInstallation.antt =====
-- pkg/controllers/crdinstallation/crd_installation_controller.go: the ClusterPropagationPolicy that
-- installs the ServiceExport CRD names the member clusters.
pub mod Names
pub mod Policy
pub mod Watches
use multicluster_cloud_provi.Prelude.{
  ℕ, zero, suc, String, Bool, true, false, Option, none, some, List, [], ◌∷◌, ◌++◌, map,
  if◌then◌else◌, str_eq, length, ltb, take, drop,
}
use multicluster_cloud_provi.Api.{
  NamespacedName, ObjectMeta, named, Error, is_not_found, Result, ok, err, is_zero, Cluster,
  ClusterPropagationPolicy, PropagationSpec, ResourceSelector, Toleration,
}
use multicluster_cloud_provi.Platform.{
  ◌>>=◌, ◌>>◌, pure, throw, check, deref, M, read, logged, cluster_policy_created,
  cluster_policy_updated, Client,
}

abbrev pub cluster_propagation_policy_name : String
cluster_propagation_policy_name = "serviceexportpropagation-policy"

pub data EventType : Type 0 where
  ensure remove : EventType

-- The loop that leaves `index` at the first equal name, or at the length.
unfoldable pub index_of : List String → String → ℕ
index_of [] name = 0
index_of (c ∷ cs) name = let rest = suc (index_of cs name) in if str_eq c name then 0 else rest

-- The switch: `none` means that there is nothing to update.
unfoldable pub next_clusters : EventType → List String → String → Option (List String)
unfolding index_of
next_clusters ensure clusters name =
    if ltb (index_of clusters name) (length clusters) then none else some (clusters ++ name ∷ [])
next_clusters remove clusters name =
    if ltb (index_of clusters name) (length clusters)
    then some
        (take (index_of clusters name) clusters ++ drop (suc (index_of clusters name)) clusters)
    else none

abbrev toleration : String → Toleration
toleration key = record { key = key; operator = "Exists"; effect = "NoExecute" }

unfoldable pub cluster_propagation_policy : List String → ClusterPropagationPolicy
cluster_propagation_policy clusters = record {
  meta = named "" cluster_propagation_policy_name;
  spec = record {
    resource_selectors =
        record {
          api_version = "apiextensions.k8s.io/v1";
          kind = "CustomResourceDefinition";
          name = "serviceexports.multicluster.x-k8s.io";
        }
        ∷ [];
    cluster_affinity = some clusters;
    cluster_tolerations =
        toleration "cluster.karmada.io/not-ready"
        ∷ toleration "cluster.karmada.io/unreachable"
        ∷ [];
  };
}

abbrev pub with_clusters : List String → ClusterPropagationPolicy → ClusterPropagationPolicy
with_clusters clusters policy =
    let spec = policy.spec in
    record policy { spec = record spec { cluster_affinity = some clusters } }

unfoldable pub cluster_names : List Cluster → List String
cluster_names [] = []
cluster_names (c ∷ cs) = c.name ∷ cluster_names cs

module _ {C P : Type 0} (client : Client C) where
  unfoldable pub create_cluster_propagation_policy : M C P (Unit {0})
  unfolding cluster_names
  create_cluster_propagation_policy = do
    listed ← read client.list_clusters
    clusters ← check listed
    let policy = cluster_propagation_policy (cluster_names clusters)
    answer ← logged (cluster_policy_created policy) (client.create_cluster_policy policy)
    check answer
    pure tt

  update_clusters : ClusterPropagationPolicy → Option (List String) → M C P (Unit {0})
  update_clusters policy none = pure tt
  update_clusters policy (some clusters) = do
    let modified = with_clusters clusters policy
    answer ← logged (cluster_policy_updated modified) (client.update_cluster_policy modified)
    check answer
    pure tt

  -- ClusterAffinity is a pointer that is dereferenced.
  sync_policy : Result ClusterPropagationPolicy → String → EventType → M C P (Unit {0})
  unfolding next_clusters create_cluster_propagation_policy update_clusters
  sync_policy (err e) name t = if is_not_found e then create_cluster_propagation_policy else throw e
  sync_policy (ok policy) name t = do
    clusters ← deref policy.spec.cluster_affinity
    update_clusters policy (next_clusters t clusters name)

  unfoldable pub sync_cluster_propagation_policy : String → EventType → M C P (Unit {0})
  unfolding sync_policy
  sync_cluster_propagation_policy name t = do
    got ← read (
        client.get_cluster_policy
          (record { namespace = ""; name = cluster_propagation_policy_name }))
    sync_policy got name t

  -- After an error the object that Get was to fill is still empty, so its name is "".
  reconcile_got : Result Cluster → M C P (Unit {0})
  unfolding sync_cluster_propagation_policy
  reconcile_got (err e) =
      if is_not_found e then sync_cluster_propagation_policy "" remove else throw e
  reconcile_got (ok cluster) =
      if is_zero cluster.deletion_timestamp
      then sync_cluster_propagation_policy cluster.name ensure
      else sync_cluster_propagation_policy cluster.name remove

  -- Reconcile
  unfoldable pub reconcile : NamespacedName → M C P (Unit {0})
  unfolding reconcile_got
  reconcile req = do got ← read (client.get_cluster req); reconcile_got got
