-- ===== src/ServiceExportPropagation/Propagated.antt =====
-- What it means that a service has been ensured.
use multicluster_cloud_provi.Prelude.{◌≡◌, ◌≢◌, String, some, List, [], ◌∷◌}
use multicluster_cloud_provi.Prelude.Equality.{list_eq, string_eq}
use multicluster_cloud_provi.Api.{
  not_found, ok, err, Service, ServiceExport, PropagationPolicy, ResourceBinding,
}
use multicluster_cloud_provi.Platform.{
  Event, Client, export_created, policy_created, policy_updated,
}
use multicluster_cloud_provi.ServiceExportPropagation.{
  service_key, policy_key, policy_name, create_service_export_template,
  create_propagation_policy_template, with_affinity,
}
use multicluster_cloud_provi.ServiceExportPropagation.Targets.{Schedules}

module _ {C : Type 0} (client : Client C) (svc : Service) where
  -- How the export came to be, from the server's state `c` to `d`: Get has answered with one, or that
  -- there is none, and one has been created.
  pub data Exported (c d : C) (before after : List Event) : Type 0 where
    present :
        (e : ServiceExport)
        → (client.get_service_export (service_key svc) c).0 ≡ ok e
        → d ≡ (client.get_service_export (service_key svc) c).1
        → after ≡ before
        → Exported c d before after
    created :
        (e : ServiceExport)
        → (client.get_service_export (service_key svc) c).0 ≡ err not_found
        → client.create_service_export
            (create_service_export_template svc)
            (client.get_service_export (service_key svc) c).1
          ≡ (ok e, d)
        → after ≡ export_created (create_service_export_template svc) (ok e) ∷ before
        → Exported c d before after

  -- How the policy came to name these clusters, or why it does not, by what Get answers in state `c`.
  pub data Propagated (clusters : List String) (c : C) (before after : List Event) : Type 0 where
    unscheduled : clusters ≡ [] → after ≡ before → Propagated clusters c before after
    settled :
        (p : PropagationPolicy)
        → (client.get_policy (policy_key svc) c).0 ≡ ok p
        → p.spec.cluster_affinity ≡ some clusters
        → after ≡ before
        → Propagated clusters c before after
    introduced :
        (p : PropagationPolicy)
        → clusters ≢ []
        → (client.get_policy (policy_key svc) c).0 ≡ err not_found
        → (create_propagation_policy_template (policy_name svc) svc clusters).spec.cluster_affinity
          ≡ some clusters
        → after
          ≡ policy_created
              (create_propagation_policy_template (policy_name svc) svc clusters)
              (ok p)
            ∷ before
        → Propagated clusters c before after
    updated :
        (p q : PropagationPolicy) (names : List String)
        → clusters ≢ []
        → (client.get_policy (policy_key svc) c).0 ≡ ok p
        → p.spec.cluster_affinity ≡ some names
        → names ≢ clusters
        → (with_affinity clusters p).spec.cluster_affinity ≡ some clusters
        → after ≡ policy_updated (with_affinity clusters p) (ok q) ∷ before
        → Propagated clusters c before after

module _ {C : Type 0} (client : Client C) (svc : Service) where
  -- What has been done, from the server's state `c` on, when a service has been ensured: the export
  -- is there or is created, and after that the policy names the clusters that the first binding of
  -- the service in a listing of its namespace is scheduled to.
  pub record Ensured (c : C) (before after : List Event) : Type 0 where
    pub between : List Event
    pub listed_at : C
    pub exported : Exported client svc c listed_at before between
    pub bindings : List ResourceBinding
    pub listing : (client.list_bindings svc.namespace listed_at).0 ≡ ok bindings
    pub clusters : List String
    pub scheduled : Schedules svc.name bindings clusters
    pub propagated :
        Propagated client svc clusters
          (client.list_bindings svc.namespace listed_at).1
          between
          after
