-- ===== src/ExportWatch/Routes.antt =====
-- How the new schedule of a binding travels to the service, and up to the queue.
use multicluster_cloud_provi.Prelude.{
  ◌≡◌, ◌≢◌, refl, sym, ap, ◌∙◌, inl, inr, String, true, false, [], ◌∷◌, contains, str_eq,
  Bool-cases,
}
use multicluster_cloud_provi.Prelude.Equality.{◌==◌, eq_of_equal, list_eq, string_eq}
use multicluster_cloud_provi.Api.{NamespacedName, Service, ResourceBinding, ResourceBindingSpec}
use multicluster_cloud_provi.Platform.{done, World, queued, service_signalled, Client}
use multicluster_cloud_provi.Platform.Helpers.{StringSets}
use multicluster_cloud_provi.Platform.Watching.{
  sent, updated, kind, channel, deliver, service_handlers, binding_handlers, Manager, Managed,
  set_up_lem,
}
use multicluster_cloud_provi.Bindings.{is_scheduled, get_cluster_results, get_cluster_results_lem}
use multicluster_cloud_provi.IngressWatch.{service_named}
use multicluster_cloud_provi.ExportWatch.{binding_updated, service_generic}
use multicluster_cloud_provi.ExportWatch.Setup.{export_watches, setup_with_manager, controller_name}

abbrev pub target : ResourceBinding → Service
target rb = service_named rb.spec.resource.namespace rb.spec.resource.name

abbrev target_key : ResourceBinding → NamespacedName
target_key rb = record { namespace = rb.spec.resource.namespace; name = rb.spec.resource.name }

results_differ :
    (sets : StringSets) (old new : ResourceBindingSpec) (cluster : String)
    → is_scheduled old cluster ≢ is_scheduled new cluster
    → (get_cluster_results sets old == get_cluster_results sets new) ≡ false
results_differ sets old new cluster d =
    let before = get_cluster_results sets old in
    let after = get_cluster_results sets new in
    elim (Bool-cases (before == after)) [
      | inl e ↦ absurd (
          d (
            sym ((get_cluster_results_lem sets old).0 cluster)
            ∙ ap (λ cs. contains cs cluster) (eq_of_equal before after e)
            ∙ (get_cluster_results_lem sets new).0 cluster))
      | inr n ↦ n
    ]

module _ {C P : Type 0} (client : Client C) (sets : StringSets) (class_name : String)
    (w : World C P) where
  binding_route :
      (old new : ResourceBinding) (cluster : String)
      → new.spec.resource.kind ≡ "Service"
      → is_scheduled old.spec cluster ≢ is_scheduled new.spec cluster
      → deliver (binding_handlers kind (export_watches client sets class_name)) (updated old new) w
        ≡ (done tt, record w { log = service_signalled (target new) ∷ w.log })
  unfolding export_watches binding_updated
  binding_route old new cluster k d =
      let is_service : str_eq new.spec.resource.kind "Service" ≡ true =
        ap (λ t. str_eq t "Service") k in
      rw (is_service, results_differ sets old.spec new.spec cluster d) refl

  service_route :
      (namespace name : String)
      → deliver
          (service_handlers channel (export_watches client sets class_name))
          (sent (service_named namespace name))
          w
        ≡ (
          done tt,
          record w { log = queued (record { namespace = namespace; name = name }) ∷ w.log },
        )
  unfolding export_watches service_generic
  service_route namespace name = refl

module _ {S C P : Type 0} (client : Client C) (sets : StringSets) (class_name : String)
    (mgr : Manager S C P) (managed : Managed S C P) where
  -- After setup, the update of a binding of a service that schedules to a cluster to which the old
  -- one did not, or no longer to one to which it did, signals this service and does nothing else;
  -- and the signal puts the name of the service in the queue.
  pub binding_reaches_service :
      (old new : ResourceBinding) (cluster : String) (v w : World C P)
      → managed.watches ≡ []
      → (setup_with_manager client sets class_name mgr managed).0 ≡ done tt
      → new.spec.resource.kind ≡ "Service"
      → is_scheduled old.spec cluster ≢ is_scheduled new.spec cluster
      → let watches = (setup_with_manager client sets class_name mgr managed).1.watches in
        (deliver (binding_handlers kind watches) (updated old new) v
          ≡ (done tt, record v { log = service_signalled (target new) ∷ v.log }))
        × (deliver (service_handlers channel watches) (sent (target new)) w
            ≡ (done tt, record w { log = queued (target_key new) ∷ w.log }))
  unfolding setup_with_manager
  binding_reaches_service old new cluster v w e h k d =
      rw (set_up_lem mgr controller_name (export_watches client sets class_name) managed e h) (
        binding_route client sets class_name v old new cluster k d,
        service_route client sets class_name w new.spec.resource.namespace new.spec.resource.name,
      )
