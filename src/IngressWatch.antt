-- ===== src/IngressWatch.antt =====
-- pkg/controllers/multiclusteringress/eventhandlers.go: which events lead to the reconciliation of
-- an ingress. A handler adds to the queue, or sends to a channel that another handler reads as a
-- Generic event.
pub mod Clusters
pub mod Relevant
pub mod Setup
pub mod Routes
use Prim.Native.String.{len, slice}
use text.Mathlib.Text.{starts_with}
use multicluster_cloud_provi.Prelude.{
  String, Bool, true, false, not, ◌&&◌, Option, none, some, List, [], ◌∷◌, if◌then◌else◌, str_eq,
  items,
}
use multicluster_cloud_provi.Prelude.Equality.{◌==◌, string_eq}
use multicluster_cloud_provi.Api.{
  Result, ok, err, is_zero, lookup, named, same_map, same_mci_spec, MultiClusterIngress,
  ServiceLocation, Service, Secret, EndpointSlice, Cluster,
}
use multicluster_cloud_provi.Platform.{
  ◌>>=◌, ◌>>◌, pure, M, read, emit, Client, queued, mci_signalled, service_signalled,
}
use multicluster_cloud_provi.Indexes.{index_key_service_ref_name, index_key_secret_ref_name}
use multicluster_cloud_provi.Util.{check_ingress_class_matched}
use multicluster_cloud_provi.TrafficBlock.{key_of, has_traffic_control}

-- Semantic.DeepEqual(a.IsZero(), b.IsZero())
abbrev pub same_flag : Bool → Bool → Bool
same_flag true b = b
same_flag false b = not b

-- The update of an ingress changes nothing that the handler cares about.
abbrev pub same_mci : MultiClusterIngress → MultiClusterIngress → Bool
same_mci old new =
    same_map old.annotations new.annotations
    && same_mci_spec old.spec new.spec
    && same_flag (is_zero old.deletion_timestamp) (is_zero new.deletion_timestamp)

abbrev pub same_service : Service → Service → Bool
same_service old new =
    same_map old.annotations new.annotations
    && str_eq old.spec new.spec
    && same_flag (is_zero old.deletion_timestamp) (is_zero new.deletion_timestamp)

abbrev same_secret : Secret → Secret → Bool
same_secret old new =
    same_map old.annotations new.annotations
    && same_map old.contents new.contents
    && same_map old.string_data new.string_data

abbrev pub derived_service_prefix : String
derived_service_prefix = "derived-"

abbrev pub label_service_name : String
label_service_name = "kubernetes.io/service-name"

-- strings.TrimPrefix
abbrev pub trim_prefix : String → String → String
trim_prefix s p = if starts_with s p then slice s (len p) (len s) else s

-- The event's Service{ObjectMeta{Namespace, Name}}
abbrev pub service_named : String → String → Service
service_named namespace name = record { meta = named namespace name; spec = "" }

location_contains : List String → String → Bool
location_contains [] name = false
location_contains (c ∷ cs) name =
    let rest = location_contains cs name in if str_eq c name then true else rest

locations_contain : List ServiceLocation → String → Bool
unfolding location_contains
locations_contain [] name = false
locations_contain (l ∷ ls) name =
    let rest = locations_contain ls name in
    if location_contains (items l.clusters) name then true else rest

-- mciSvcLocationsContainsCluster
unfoldable pub mci_svc_locations_contains_cluster : MultiClusterIngress → Cluster → Bool
unfolding locations_contain
mci_svc_locations_contains_cluster mci cluster =
    locations_contain (items mci.status.service_locations) cluster.name

module _ {C P : Type 0} where
  unfoldable pub signal_all : List MultiClusterIngress → M C P (Unit {0})
  signal_all [] = pure tt
  signal_all (m ∷ ms) = do emit (mci_signalled m); signal_all ms

  signal_listed : Result (List MultiClusterIngress) → M C P (Unit {0})
  unfolding signal_all
  signal_listed (err e) = pure tt
  signal_listed (ok ms) = signal_all ms

  -- enqueueImpactedSvc
  unfoldable pub enqueue_impacted_svc : EndpointSlice → M C P (Unit {0})
  enqueue_impacted_svc eps = elim (lookup label_service_name eps.labels) [
    | none ↦ pure tt
    | some svc ↦
        emit
          (service_signalled (service_named eps.namespace (trim_prefix svc derived_service_prefix)))
  ]

  unfoldable pub signal_located : List MultiClusterIngress → Cluster → M C P (Unit {0})
  unfolding mci_svc_locations_contains_cluster
  signal_located [] cluster = pure tt
  signal_located (m ∷ ms) cluster =
      if not (mci_svc_locations_contains_cluster m cluster)
      then signal_located ms cluster
      else emit (mci_signalled m) >> signal_located ms cluster

  cluster_listed : Result (List MultiClusterIngress) → Cluster → M C P (Unit {0})
  unfolding signal_located
  cluster_listed (err e) cluster = pure tt
  cluster_listed (ok ms) cluster = signal_located ms cluster

module _ {C P : Type 0} (client : Client C) where
  -- multiClusterIngressEventHandler.Create and .Generic
  unfoldable pub mci_created : String → MultiClusterIngress → M C P (Unit {0})
  mci_created ing_class_name mci = do
    matched ← check_ingress_class_matched client mci ing_class_name
    if not matched then pure tt else emit (queued (key_of mci))

  unfoldable pub mci_updated : String → MultiClusterIngress → MultiClusterIngress → M C P (Unit {0})
  mci_updated ing_class_name old new = do
    matched ← check_ingress_class_matched client new ing_class_name
    if not matched
        then pure tt
        else (if same_mci old new then pure tt else emit (queued (key_of new)))

  -- serviceEventHandler.enqueueImpactedMCI
  unfoldable pub service_impacts : String → String → M C P (Unit {0})
  unfolding signal_listed
  service_impacts namespace name = do
    listed ← read (client.list_mcis_by_index namespace index_key_service_ref_name name)
    signal_listed listed

  -- serviceEventHandler.Create, .Delete and .Generic
  unfoldable pub service_changed : Service → M C P (Unit {0})
  unfolding service_impacts
  service_changed svc = service_impacts svc.namespace svc.name

  unfoldable pub service_updated : Service → Service → M C P (Unit {0})
  unfolding service_impacts
  service_updated old new =
      if same_service old new then pure tt else service_impacts new.namespace new.name

  -- secretEventHandler.enqueueImpactedMCI
  secret_impacts : String → String → M C P (Unit {0})
  unfolding signal_listed
  secret_impacts namespace name = do
    listed ← read (client.list_mcis_by_index namespace index_key_secret_ref_name name)
    signal_listed listed

  -- secretEventHandler.Create and .Delete
  unfoldable pub secret_changed : Secret → M C P (Unit {0})
  unfolding secret_impacts
  secret_changed secret = secret_impacts secret.namespace secret.name

  unfoldable pub secret_updated : Secret → Secret → M C P (Unit {0})
  unfolding secret_impacts
  secret_updated old new =
      if same_secret old new then pure tt else secret_impacts new.namespace new.name

  -- clusterEventHandler.Update
  unfoldable pub cluster_updated : Cluster → Cluster → M C P (Unit {0})
  unfolding cluster_listed
  cluster_updated old new =
      if same_flag (has_traffic_control old.remedy_actions) (has_traffic_control new.remedy_actions)
      then pure tt
      else do listed ← read client.list_mcis; cluster_listed listed new
