-- ===== src/ExportWatch.antt =====
-- pkg/controllers/serviceexportpropagation/eventhandlers.go: which events lead to the
-- reconciliation of a service's export.
pub mod Refs
pub mod Setup
pub mod Routes
use multicluster_cloud_provi.Prelude.{
  String, Bool, true, false, not, ◌&&◌, Option, none, some, List, [], ◌∷◌, ◌++◌, if◌then◌else◌,
  str_eq, is_empty, contains,
}
use multicluster_cloud_provi.Prelude.Equality.{◌==◌, list_eq, string_eq}
use multicluster_cloud_provi.Api.{
  Result, ok, err, named, same_map, port_eq, MultiClusterIngress, MultiClusterService, Service,
  ResourceBinding,
}
use multicluster_cloud_provi.Platform.{
  ◌>>=◌, ◌>>◌, pure, deref, M, read, emit, Client, queued, service_signalled,
}
use multicluster_cloud_provi.Platform.Helpers.{StringSets}
use multicluster_cloud_provi.Indexes.{index_key_service_ref_name, build_service_ref_indexes}
use multicluster_cloud_provi.Util.{check_ingress_class_matched}
use multicluster_cloud_provi.Bindings.{get_cluster_results}
use multicluster_cloud_provi.IngressWatch.{service_named}
use multicluster_cloud_provi.ServiceExportPropagation.{service_key}

-- A loop of the Update handler: the names of `xs` that `ys` has not, added to `acc`.
unfoldable pub missing_loop : List String → List String → List String → List String
missing_loop acc [] ys = acc
missing_loop acc (x ∷ xs) ys =
    missing_loop (if not (contains ys x) then acc ++ x ∷ [] else acc) xs ys

-- targetRefs
unfoldable pub target_refs : List String → List String → List String
unfolding missing_loop
target_refs old new = missing_loop (missing_loop [] old new) new old

module _ {C P : Type 0} where
  unfoldable pub signal_services : String → List String → M C P (Unit {0})
  signal_services namespace [] = pure tt
  signal_services namespace (name ∷ names) = do
    emit (service_signalled (service_named namespace name))
    signal_services namespace names

  -- serviceEventHandler.Generic
  unfoldable pub service_generic : Service → M C P (Unit {0})
  service_generic svc = emit (queued (service_key svc))

  -- multiClusterServiceEventHandler.enqueueImpactedService
  mcs_impacts : String → String → M C P (Unit {0})
  mcs_impacts namespace name = emit (service_signalled (service_named namespace name))

  -- multiClusterServiceEventHandler.Create and .Delete
  unfoldable pub mcs_changed : MultiClusterService → M C P (Unit {0})
  unfolding mcs_impacts
  mcs_changed mcs = mcs_impacts mcs.namespace mcs.name

  -- multiClusterServiceEventHandler.Update
  unfoldable pub mcs_updated : MultiClusterService → MultiClusterService → M C P (Unit {0})
  unfolding mcs_impacts
  mcs_updated old new =
      if same_map old.annotations new.annotations
        && old.spec.types == new.spec.types
        && old.spec.ports == new.spec.ports
      then pure tt
      else mcs_impacts new.namespace new.name

  -- resourceBindingEventHandler.Create
  unfoldable pub binding_created : ResourceBinding → M C P (Unit {0})
  binding_created rb =
      if not (str_eq rb.spec.resource.kind "Service")
      then pure tt
      else emit (service_signalled (service_named rb.spec.resource.namespace rb.spec.resource.name))

  -- resourceBindingEventHandler.Update
  unfoldable pub binding_updated : StringSets → ResourceBinding → ResourceBinding → M C P (Unit {0})
  binding_updated sets old new =
      if not (str_eq new.spec.resource.kind "Service")
      then pure tt
      else (if get_cluster_results sets old.spec == get_cluster_results sets new.spec
          then pure tt
          else emit (
              service_signalled (service_named new.spec.resource.namespace new.spec.resource.name)))

module _ {C P : Type 0} (client : Client C) (sets : StringSets) where
  got_mcs : Service → Result MultiClusterService → M C P (Unit {0})
  got_mcs svc (err e) = pure tt
  got_mcs svc (ok mcs) = emit (queued (service_key svc))

  listed_mcis : Service → Result (List MultiClusterIngress) → M C P (Unit {0})
  unfolding got_mcs
  listed_mcis svc (err e) = pure tt
  listed_mcis svc (ok mcis) =
      if not (is_empty mcis)
      then emit (queued (service_key svc))
      else do got ← read (client.get_mcs (service_key svc)); got_mcs svc got

  -- serviceEventHandler.Create
  unfoldable pub service_created : Service → M C P (Unit {0})
  unfolding listed_mcis
  service_created svc = do
    listed ← read (client.list_mcis_by_index svc.namespace index_key_service_ref_name svc.name)
    listed_mcis svc listed

  -- enqueueImpactedService. BuildServiceRefIndexes may panic.
  mci_impacts : MultiClusterIngress → M C P (Unit {0})
  unfolding signal_services
  mci_impacts mci = do
    refs ← deref (build_service_ref_indexes sets mci)
    signal_services mci.namespace refs

  -- multiClusterIngressEventHandler.Create and .Delete
  unfoldable pub mci_changed : String → MultiClusterIngress → M C P (Unit {0})
  unfolding mci_impacts
  mci_changed ing_class_name mci = do
    matched ← check_ingress_class_matched client mci ing_class_name
    if not matched then pure tt else mci_impacts mci

  refs_changed : MultiClusterIngress → List String → List String → M C P (Unit {0})
  unfolding target_refs signal_services
  refs_changed new old_refs new_refs =
      if old_refs == new_refs
      then pure tt
      else signal_services new.namespace (target_refs old_refs new_refs)

  refs_updated : MultiClusterIngress → MultiClusterIngress → M C P (Unit {0})
  unfolding refs_changed
  refs_updated old new = do
    old_refs ← deref (build_service_ref_indexes sets old)
    new_refs ← deref (build_service_ref_indexes sets new)
    refs_changed new old_refs new_refs

  -- multiClusterIngressEventHandler.Update
  unfoldable pub mci_updated : String → MultiClusterIngress → MultiClusterIngress → M C P (Unit {0})
  unfolding refs_updated
  mci_updated ing_class_name old new = do
    matched ← check_ingress_class_matched client new ing_class_name
    if not matched then pure tt else refs_updated old new
