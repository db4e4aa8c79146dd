-- ===== src/ServiceExportPropagation.antt =====
-- pkg/controllers/serviceexportpropagation/serviceexport_propagation_controller.go: a service that
-- an ingress or a MultiClusterService uses gets a ServiceExport and a PropagationPolicy for it.
pub mod Needed
pub mod Propagated
pub mod Targets
pub mod Ensured
pub mod Removed
pub mod Nonempty
use Prim.Native.String.{◌++◌ as str_append}
use multicluster_cloud_provi.Prelude.{
  String, Bool, true, false, not, ◌&&◌, Option, none, some, List, [], ◌∷◌, if◌then◌else◌, str_eq,
  is_empty,
}
use multicluster_cloud_provi.Prelude.Equality.{◌==◌, list_eq, string_eq}
use multicluster_cloud_provi.Api.{
  NamespacedName, ObjectMeta, OwnerReference, named, is_not_found, Result, ok, err, is_zero,
  Service, MultiClusterIngress, MultiClusterService, ServiceExport, PropagationPolicy,
  PropagationSpec, ResourceSelector, ResourceBinding, ResourceBindingSpec,
}
use multicluster_cloud_provi.Platform.{
  ◌>>=◌, ◌>>◌, pure, throw, check, deref, M, read, logged, export_created, export_deleted,
  policy_created, policy_updated, policy_deleted, Client,
}
use multicluster_cloud_provi.Platform.Helpers.{StringSets}
use multicluster_cloud_provi.Indexes.{index_key_service_ref_name}
use multicluster_cloud_provi.Util.{mcs_contain_load_balance_type}
use multicluster_cloud_provi.Bindings.{get_cluster_results}

abbrev propagation_policy_prefix : String
propagation_policy_prefix = "propagate-service-"

abbrev pub policy_name : Service → String
policy_name svc = str_append propagation_policy_prefix svc.name

abbrev pub service_key : Service → NamespacedName
service_key svc = record { namespace = svc.namespace; name = svc.name }

abbrev pub policy_key : Service → NamespacedName
policy_key svc = record { namespace = svc.namespace; name = policy_name svc }

-- metav1.NewControllerRef(svc, ...)
abbrev controller_ref : Service → OwnerReference
controller_ref svc = record { kind = "Service"; owner = svc.name; controller = true }

abbrev owned : Service → String → ObjectMeta
owned svc name =
    let m = named svc.namespace name in record m { owner_references = controller_ref svc ∷ [] }

unfoldable pub create_service_export_template : Service → ServiceExport
create_service_export_template svc = record { meta = owned svc svc.name }

unfoldable pub create_propagation_policy_template :
    String → Service → List String → PropagationPolicy
create_propagation_policy_template name svc clusters = record {
  meta = owned svc name;
  spec = record {
    resource_selectors =
        record {
          api_version = "multicluster.x-k8s.io/v1alpha1";
          kind = "ServiceExport";
          name = svc.name;
        }
        ∷ [];
    cluster_affinity = some clusters;
    cluster_tolerations = [];
  };
}

-- The variable before the loop of getBindingClusterResults.
abbrev pub zero_spec : ResourceBindingSpec
zero_spec = record {
  resource = record { api_version = ""; kind = ""; namespace = ""; name = "" };
  clusters = none;
  required_by = none;
}

abbrev pub binds : String → ResourceBinding → Bool
binds name b = str_eq b.spec.resource.kind "Service" && str_eq b.spec.resource.name name

unfoldable pub target_binding_spec : String → List ResourceBinding → ResourceBindingSpec
target_binding_spec name [] = zero_spec
target_binding_spec name (b ∷ bs) =
    let rest = target_binding_spec name bs in if binds name b then b.spec else rest

abbrev pub with_affinity : List String → PropagationPolicy → PropagationPolicy
with_affinity clusters policy =
    let spec = policy.spec in
    record policy { spec = record spec { cluster_affinity = some clusters } }

module _ {C P : Type 0} (client : Client C) (sets : StringSets) where
  needed_by_mcs : Result MultiClusterService → M C P Bool
  needed_by_mcs (ok mcs) = pure (mcs_contain_load_balance_type mcs)
  needed_by_mcs (err e) = if is_not_found e then pure false else throw e

  -- needEnsureServiceExport
  unfoldable pub need_ensure_service_export : Service → M C P Bool
  unfolding needed_by_mcs
  need_ensure_service_export svc = do
    listed ← read (client.list_mcis_by_index svc.namespace index_key_service_ref_name svc.name)
    mcis ← check listed
    if not (is_empty mcis)
        then pure true
        else do got ← read (client.get_mcs (service_key svc)); needed_by_mcs got

  -- getBindingClusterResults
  unfoldable pub get_binding_cluster_results : Service → M C P (List String)
  unfolding target_binding_spec
  get_binding_cluster_results svc = do
    listed ← read (client.list_bindings svc.namespace)
    bindings ← check listed
    pure (get_cluster_results sets (target_binding_spec svc.name bindings))

  -- Steps 1 and 2
  ensure_exported : Service → Result ServiceExport → M C P (Unit {0})
  ensure_exported svc (ok export) = pure tt
  ensure_exported svc (err e) = if not (is_not_found e) then throw e else do
    let export = create_service_export_template svc
    answer ← logged (export_created export) (client.create_service_export export)
    check answer
    pure tt

  -- Step 6
  update_names : List String → PropagationPolicy → List String → M C P (Unit {0})
  update_names clusters policy names = if names == clusters then pure tt else do
    let changed = with_affinity clusters policy
    answer ← logged (policy_updated changed) (client.update_policy changed)
    check answer
    pure tt

  -- Steps 5 and 6. ClusterAffinity is a pointer that is dereferenced.
  ensure_policy : Service → List String → Result PropagationPolicy → M C P (Unit {0})
  unfolding update_names
  ensure_policy svc clusters (err e) = if not (is_not_found e) then throw e else do
    let policy = create_propagation_policy_template (policy_name svc) svc clusters
    answer ← logged (policy_created policy) (client.create_policy policy)
    check answer
    pure tt
  ensure_policy svc clusters (ok policy) = do
    names ← deref policy.spec.cluster_affinity
    update_names clusters policy names

  -- The rest of step 3, and step 4
  schedule : Service → List String → M C P (Unit {0})
  unfolding ensure_policy
  schedule svc clusters =
      if is_empty clusters
      then pure tt
      else do got ← read (client.get_policy (policy_key svc)); ensure_policy svc clusters got

  -- Step 3 and what follows
  ensure_propagated : Service → M C P (Unit {0})
  unfolding get_binding_cluster_results schedule
  ensure_propagated svc = do clusters ← get_binding_cluster_results svc; schedule svc clusters

  -- ensureServiceExport
  unfoldable pub ensure_service_export : Service → M C P (Unit {0})
  unfolding ensure_exported ensure_propagated
  ensure_service_export svc = do
    got ← read (client.get_service_export (service_key svc))
    ensure_exported svc got
    ensure_propagated svc

  -- An error that says that the object is gone is no error.
  ignore_not_found : Result (Unit {0}) → M C P (Unit {0})
  ignore_not_found (ok u) = pure tt
  ignore_not_found (err e) = if not (is_not_found e) then throw e else pure tt

  delete_got_export : Result ServiceExport → M C P (Unit {0})
  unfolding ignore_not_found
  delete_got_export (ok export) = do
    answer ← logged (export_deleted export) (client.delete_service_export export)
    ignore_not_found answer
  delete_got_export (err e) = if is_not_found e then pure tt else throw e

  -- deleteServiceExport
  unfoldable pub delete_service_export : Service → M C P (Unit {0})
  unfolding delete_got_export
  delete_service_export svc = do
    got ← read (client.get_service_export (service_key svc))
    delete_got_export got

  delete_got_policy : Result PropagationPolicy → M C P (Unit {0})
  unfolding ignore_not_found
  delete_got_policy (ok policy) = do
    answer ← logged (policy_deleted policy) (client.delete_policy policy)
    ignore_not_found answer
  delete_got_policy (err e) = if is_not_found e then pure tt else throw e

  -- deletePropagationPolicy
  unfoldable pub delete_propagation_policy : Service → M C P (Unit {0})
  unfolding delete_got_policy
  delete_propagation_policy svc = do
    got ← read (client.get_policy (policy_key svc))
    delete_got_policy got

  -- removeServiceExport
  unfoldable pub remove_service_export : Service → M C P (Unit {0})
  unfolding delete_service_export delete_propagation_policy
  remove_service_export svc = do delete_service_export svc; delete_propagation_policy svc

  reconcile_live : Service → M C P (Unit {0})
  unfolding need_ensure_service_export ensure_service_export remove_service_export
  reconcile_live svc = do
    needed ← need_ensure_service_export svc
    if needed then ensure_service_export svc else remove_service_export svc

  reconcile_got : Result Service → M C P (Unit {0})
  unfolding reconcile_live
  reconcile_got (err e) = if is_not_found e then pure tt else throw e
  reconcile_got (ok svc) =
      if not (is_zero svc.deletion_timestamp) then pure tt else reconcile_live svc

  -- Reconcile
  unfoldable pub reconcile : NamespacedName → M C P (Unit {0})
  unfolding reconcile_got
  reconcile req = do got ← read (client.get_service req); reconcile_got got
