-- ===== src/McsWatch.antt =====
-- pkg/controllers/multiclusterservice/eventhandlers.go: which events lead to the reconciliation of
-- a MultiClusterService; and setupWatches of mcs_controller.go, which says what the handlers hear.
pub mod Relevant
pub mod Routes
use multicluster_cloud_provi.Prelude.{
  String, Bool, true, false, not, ◌&&◌, none, some, List, [], ◌∷◌, if◌then◌else◌, str_eq,
}
use multicluster_cloud_provi.Prelude.Equality.{◌==◌, list_eq, string_eq}
use multicluster_cloud_provi.Api.{
  is_zero, lookup, named, same_map, port_eq, MultiClusterService, McsSpec, Service, EndpointSlice,
}
use multicluster_cloud_provi.Platform.{
  Action, ◌>>=◌, ◌>>◌, pure, M, emit, queued, mcs_signalled, service_signalled,
}
use multicluster_cloud_provi.Platform.Watching.{
  EventHandler, kind, channel, Watch, mcss, services, slices, Manager, Managed, set_up,
}
use multicluster_cloud_provi.Util.{mcs_contain_load_balance_type}
use multicluster_cloud_provi.IngressWatch.{
  same_flag, label_service_name, trim_prefix, service_named,
}
use multicluster_cloud_provi.McsController.{key_of}

abbrev pub same_mcs_spec : McsSpec → McsSpec → Bool
same_mcs_spec a b = a.types == b.types && a.ports == b.ports && str_eq a.rest b.rest

-- The update of a MultiClusterService changes nothing that the handler cares about.
abbrev pub same_mcs : MultiClusterService → MultiClusterService → Bool
same_mcs old new =
    same_map old.annotations new.annotations
    && same_mcs_spec old.spec new.spec
    && same_flag (is_zero old.deletion_timestamp) (is_zero new.deletion_timestamp)

abbrev pub same_service : Service → Service → Bool
same_service old new = same_map old.annotations new.annotations && str_eq old.spec new.spec

abbrev pub derived_service_prefix : String
derived_service_prefix = "derived-"

-- The event's MultiClusterService{ObjectMeta{Namespace, Name}}
abbrev pub mcs_named : String → String → MultiClusterService
mcs_named namespace name = record {
  meta = named namespace name;
  spec = record { types = []; ports = []; rest = "" };
  load_balancer = record { ingress = none };
}

module _ {C P : Type 0} where
  -- multiClusterServiceEventHandler.Create
  mcs_created : MultiClusterService → M C P (Unit {0})
  mcs_created mcs =
      if not (mcs_contain_load_balance_type mcs) then pure tt else emit (queued (key_of mcs))

  -- multiClusterServiceEventHandler.Update
  unfoldable pub mcs_updated : MultiClusterService → MultiClusterService → M C P (Unit {0})
  mcs_updated old new =
      if not (mcs_contain_load_balance_type old) && not (mcs_contain_load_balance_type new)
      then pure tt
      else if same_mcs old new
      then pure tt
      else emit (queued (key_of new))

  -- multiClusterServiceEventHandler.Generic
  unfoldable pub mcs_generic : MultiClusterService → M C P (Unit {0})
  mcs_generic mcs = emit (queued (key_of mcs))

  unfoldable pub mcs_event_handler : EventHandler C P MultiClusterService
  unfolding mcs_created mcs_updated mcs_generic
  mcs_event_handler = record {
    create = mcs_created;
    update = mcs_updated;
    delete = λ _. pure tt;
    generic = mcs_generic;
  }

  -- enqueueImpactedMCS
  enqueue_impacted_mcs : String → String → M C P (Unit {0})
  enqueue_impacted_mcs namespace name = emit (mcs_signalled (mcs_named namespace name))

  -- serviceEventHandler.Create, .Delete and .Generic
  unfoldable pub service_changed : Service → M C P (Unit {0})
  unfolding enqueue_impacted_mcs
  service_changed svc = enqueue_impacted_mcs svc.namespace svc.name

  -- serviceEventHandler.Update
  unfoldable pub service_updated : Service → Service → M C P (Unit {0})
  unfolding enqueue_impacted_mcs
  service_updated old new =
      if same_service old new then pure tt else enqueue_impacted_mcs new.namespace new.name

  unfoldable pub service_event_handler : EventHandler C P Service
  unfolding service_changed service_updated
  service_event_handler = record {
    create = service_changed;
    update = service_updated;
    delete = service_changed;
    generic = service_changed;
  }

  -- enqueueImpactedSvc
  unfoldable pub enqueue_impacted_svc : EndpointSlice → M C P (Unit {0})
  enqueue_impacted_svc eps = elim (lookup label_service_name eps.labels) [
    | none ↦ pure tt
    | some svc ↦
        emit
          (service_signalled (service_named eps.namespace (trim_prefix svc derived_service_prefix)))
  ]

  unfoldable pub endpoint_slices_event_handler : EventHandler C P EndpointSlice
  unfolding enqueue_impacted_svc
  endpoint_slices_event_handler = record {
    create = enqueue_impacted_svc;
    update = λ old new. enqueue_impacted_svc new;
    delete = enqueue_impacted_svc;
    generic = λ _. pure tt;
  }

abbrev pub controller_name : String
controller_name = "multiclusterservice-controller"

-- The calls of Watch in setupWatches, in order.
unfoldable pub mcs_watches : {C P : Type 0} → List (Watch C P)
unfolding mcs_event_handler service_event_handler endpoint_slices_event_handler
mcs_watches =
    mcss kind mcs_event_handler
    ∷ mcss channel mcs_event_handler
    ∷ services kind service_event_handler
    ∷ services channel service_event_handler
    ∷ slices kind endpoint_slices_event_handler
    ∷ []

-- SetupWithManager
unfoldable pub setup_with_manager :
    {S C P : Type 0} → Manager S C P → Action (Managed S C P) (Unit {0})
setup_with_manager mgr = set_up mgr controller_name mcs_watches
