-- ===== src/Platform/Components.antt =====
-- The API client, the cloud provider's interfaces (cloud.go), and the log of what was done to them.
use multicluster_cloud_provi.Prelude.{String, Bool, Option, List, ◌∷◌}
use multicluster_cloud_provi.Api.{
  NamespacedName, Result, MultiClusterIngress, MultiClusterService, LoadBalancerStatus,
  IngressClass, Service, Cluster, ResourceBinding, PropagationPolicy, ClusterPropagationPolicy,
  ServiceExport,
}
use multicluster_cloud_provi.Platform.Effects.{done, Action}

-- A call of a component with a state of its own: the API server with its cache and the other
-- clients that write to it, or the cloud.
abbrev pub Call : Type 0 → Type 0 → Type 0
Call S A = S → Result A × S

-- client.Client. A call that writes answers with the object that it stores into its argument.
pub record Client (C : Type 0) : Type 0 where
  pub get_mci : NamespacedName → Call C MultiClusterIngress
  -- List with InNamespace and MatchingFields {index: value}
  pub list_mcis_by_index : String → String → String → Call C (List MultiClusterIngress)
  pub list_mcis : Call C (List MultiClusterIngress)
  pub update_mci : MultiClusterIngress → Call C MultiClusterIngress
  -- Patch with the modified object and the one that MergeFrom holds
  pub patch_mci : MultiClusterIngress → MultiClusterIngress → Call C MultiClusterIngress
  pub update_mci_status : MultiClusterIngress → Call C MultiClusterIngress
  pub get_mcs : NamespacedName → Call C MultiClusterService
  pub update_mcs : MultiClusterService → Call C MultiClusterService
  pub update_mcs_status : MultiClusterService → Call C MultiClusterService
  pub get_ingress_class : NamespacedName → Call C IngressClass
  pub list_ingress_classes : Call C (List IngressClass)
  pub get_service : NamespacedName → Call C Service
  pub get_cluster : NamespacedName → Call C Cluster
  pub list_clusters : Call C (List Cluster)
  pub get_binding : NamespacedName → Call C ResourceBinding
  pub list_bindings : String → Call C (List ResourceBinding)
  pub get_service_export : NamespacedName → Call C ServiceExport
  pub create_service_export : ServiceExport → Call C ServiceExport
  pub delete_service_export : ServiceExport → Call C (Unit {0})
  pub get_policy : NamespacedName → Call C PropagationPolicy
  pub create_policy : PropagationPolicy → Call C PropagationPolicy
  pub update_policy : PropagationPolicy → Call C PropagationPolicy
  pub delete_policy : PropagationPolicy → Call C (Unit {0})
  pub get_cluster_policy : NamespacedName → Call C ClusterPropagationPolicy
  pub create_cluster_policy : ClusterPropagationPolicy → Call C ClusterPropagationPolicy
  pub update_cluster_policy : ClusterPropagationPolicy → Call C ClusterPropagationPolicy

-- LoadBalancer of cloud.go. A returned status is a pointer.
pub record LoadBalancer (P : Type 0) : Type 0 where
  pub get_load_balancer : MultiClusterIngress → Call P (Option LoadBalancerStatus × Bool)
  pub ensure_load_balancer : MultiClusterIngress → Call P (Option LoadBalancerStatus)
  pub update_load_balancer : MultiClusterIngress → Call P (Option LoadBalancerStatus)
  pub ensure_load_balancer_deleted : MultiClusterIngress → Call P (Unit {0})

-- MCSLoadBalancer of cloud.go
pub record McsLoadBalancer (P : Type 0) : Type 0 where
  pub get_mcs_load_balancer : MultiClusterService → Call P (Option LoadBalancerStatus × Bool)
  pub ensure_mcs_load_balancer : MultiClusterService → Call P (Option LoadBalancerStatus)
  pub update_mcs_load_balancer : MultiClusterService → Call P (Option LoadBalancerStatus)
  pub ensure_mcs_load_balancer_deleted : MultiClusterService → Call P (Unit {0})

-- What is logged: each call that writes to the API server, each that gets a MultiClusterIngress or
-- a MultiClusterService, and each call of the provider, with its argument and its answer; the events
-- that the recorder emits; and what the event handlers add to the queue and send to the channels.
pub data Event : Type 0 where
  mci_got : NamespacedName → Result MultiClusterIngress → Event
  mcs_got : NamespacedName → Result MultiClusterService → Event
  mci_updated : MultiClusterIngress → Result MultiClusterIngress → Event
  mci_patched : MultiClusterIngress → Result MultiClusterIngress → Event
  mci_status_updated : MultiClusterIngress → Result MultiClusterIngress → Event
  mcs_updated : MultiClusterService → Result MultiClusterService → Event
  mcs_status_updated : MultiClusterService → Result MultiClusterService → Event
  export_created : ServiceExport → Result ServiceExport → Event
  export_deleted : ServiceExport → Result (Unit {0}) → Event
  policy_created policy_updated : PropagationPolicy → Result PropagationPolicy → Event
  policy_deleted : PropagationPolicy → Result (Unit {0}) → Event
  cluster_policy_created : ClusterPropagationPolicy → Result ClusterPropagationPolicy → Event
  cluster_policy_updated : ClusterPropagationPolicy → Result ClusterPropagationPolicy → Event
  lb_got : MultiClusterIngress → Result (Option LoadBalancerStatus × Bool) → Event
  lb_ensured lb_updated : MultiClusterIngress → Result (Option LoadBalancerStatus) → Event
  lb_deleted : MultiClusterIngress → Result (Unit {0}) → Event
  mcs_lb_got : MultiClusterService → Result (Option LoadBalancerStatus × Bool) → Event
  mcs_lb_ensured mcs_lb_updated : MultiClusterService → Result (Option LoadBalancerStatus) → Event
  mcs_lb_deleted : MultiClusterService → Result (Unit {0}) → Event
  warned : String → Event
  queued : NamespacedName → Event
  mci_signalled : MultiClusterIngress → Event
  mcs_signalled : MultiClusterService → Event
  service_signalled : Service → Event

-- The newest entry of the log comes first.
pub record World (C P : Type 0) : Type 0 where
  pub log : List Event
  pub api : C
  pub provider : P

abbrev pub M : Type 0 → Type 0 → Type 0 → Type 0
M C P A = Action (World C P) A

module _ {C P A : Type 0} where
  -- A call that is not logged. The code looks at the error itself, so the answer is a value.
  abbrev pub read : Call C A → M C P (Result A)
  read call w = let (r, c) = call w.api in (done r, record w { api = c })

  -- A call that is logged.
  abbrev pub logged : (Result A → Event) → Call C A → M C P (Result A)
  logged entry call w =
      let (r, c) = call w.api in (done r, record w { log = entry r ∷ w.log; api = c })

  -- A call of the provider.
  abbrev pub ask : (Result A → Event) → Call P A → M C P (Result A)
  ask entry call w =
      let (r, p) = call w.provider in (done r, record w { log = entry r ∷ w.log; provider = p })

-- EventRecorder.Eventf with a warning
abbrev pub warn : {C P : Type 0} → String → M C P (Unit {0})
warn text w = (done tt, record w { log = warned text ∷ w.log })

-- One entry, with no call.
abbrev pub emit : {C P : Type 0} → Event → M C P (Unit {0})
emit e w = (done tt, record w { log = e ∷ w.log })
