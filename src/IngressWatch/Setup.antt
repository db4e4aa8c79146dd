-- ===== src/IngressWatch/Setup.antt =====
-- setupWatches of pkg/controllers/multiclusteringress/mci_controller.go: which handler hears what.
use multicluster_cloud_provi.Prelude.{String, List, [], ◌∷◌}
use multicluster_cloud_provi.Api.{MultiClusterIngress, Service, EndpointSlice, Secret, Cluster}
use multicluster_cloud_provi.Platform.{Action, Client, pure}
use multicluster_cloud_provi.Platform.Watching.{
  EventHandler, kind, channel, Watch, mcis, services, slices, secrets, clusters, Manager, Managed,
  set_up,
}
use multicluster_cloud_provi.IngressWatch.{
  mci_created, mci_updated, service_changed, service_updated, enqueue_impacted_svc, secret_changed,
  secret_updated, cluster_updated,
}

module _ {C P : Type 0} (client : Client C) where
  -- Its Delete does nothing.
  unfoldable pub mci_event_handler : String → EventHandler C P MultiClusterIngress
  unfolding mci_created mci_updated
  mci_event_handler ing_class_name = record {
    create = mci_created client ing_class_name;
    update = mci_updated client ing_class_name;
    delete = λ _. pure tt;
    generic = mci_created client ing_class_name;
  }

  unfoldable pub service_event_handler : EventHandler C P Service
  unfolding service_changed service_updated
  service_event_handler = record {
    create = service_changed client;
    update = service_updated client;
    delete = service_changed client;
    generic = service_changed client;
  }

  unfoldable pub endpoint_slices_event_handler : EventHandler C P EndpointSlice
  unfolding enqueue_impacted_svc
  endpoint_slices_event_handler = record {
    create = enqueue_impacted_svc;
    update = λ old new. enqueue_impacted_svc new;
    delete = enqueue_impacted_svc;
    generic = λ _. pure tt;
  }

  secret_event_handler : EventHandler C P Secret
  unfolding secret_changed secret_updated
  secret_event_handler = record {
    create = secret_changed client;
    update = secret_updated client;
    delete = secret_changed client;
    generic = λ _. pure tt;
  }

  cluster_event_handler : EventHandler C P Cluster
  unfolding cluster_updated
  cluster_event_handler = record {
    create = λ _. pure tt;
    update = cluster_updated client;
    delete = λ _. pure tt;
    generic = λ _. pure tt;
  }

  -- The calls of Watch in setupWatches, in order.
  unfoldable pub mci_watches : String → List (Watch C P)
  unfolding mci_event_handler service_event_handler endpoint_slices_event_handler
      secret_event_handler cluster_event_handler
  mci_watches ing_class_name =
      mcis kind (mci_event_handler ing_class_name)
      ∷ mcis channel (mci_event_handler ing_class_name)
      ∷ services kind service_event_handler
      ∷ services channel service_event_handler
      ∷ slices kind endpoint_slices_event_handler
      ∷ secrets kind secret_event_handler
      ∷ clusters kind cluster_event_handler
      ∷ []

abbrev pub controller_name : String
controller_name = "multiclusteringress-controller"

-- SetupWithManager
unfoldable pub setup_with_manager :
    {S C P : Type 0} → Client C → String → Manager S C P → Action (Managed S C P) (Unit {0})
unfolding mci_watches
setup_with_manager client ing_class_name mgr =
    set_up mgr controller_name (mci_watches client ing_class_name)
