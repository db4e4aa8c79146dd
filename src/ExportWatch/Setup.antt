-- ===== src/ExportWatch/Setup.antt =====
-- setupWatches of pkg/controllers/serviceexportpropagation/serviceexport_propagation_controller.go:
-- which handler hears what.
use multicluster_cloud_provi.Prelude.{String, List, [], ◌∷◌}
use multicluster_cloud_provi.Api.{
  MultiClusterIngress, MultiClusterService, Service, ResourceBinding,
}
use multicluster_cloud_provi.Platform.{Action, Client, pure}
use multicluster_cloud_provi.Platform.Helpers.{StringSets}
use multicluster_cloud_provi.Platform.Watching.{
  EventHandler, kind, channel, Watch, mcis, mcss, services, bindings, Manager, Managed, set_up,
}
use multicluster_cloud_provi.ExportWatch.{
  service_created, service_generic, mci_changed, mci_updated, mcs_changed, mcs_updated,
  binding_created, binding_updated,
}

module _ {C P : Type 0} (client : Client C) (sets : StringSets) where
  unfoldable pub service_event_handler : EventHandler C P Service
  unfolding service_created service_generic
  service_event_handler = record {
    create = service_created client sets;
    update = λ _ _. pure tt;
    delete = λ _. pure tt;
    generic = service_generic;
  }

  unfoldable pub mci_event_handler : String → EventHandler C P MultiClusterIngress
  unfolding mci_changed mci_updated
  mci_event_handler ing_class_name = record {
    create = mci_changed client sets ing_class_name;
    update = mci_updated client sets ing_class_name;
    delete = mci_changed client sets ing_class_name;
    generic = λ _. pure tt;
  }

  unfoldable pub mcs_event_handler : EventHandler C P MultiClusterService
  unfolding mcs_changed mcs_updated
  mcs_event_handler = record {
    create = mcs_changed;
    update = mcs_updated;
    delete = mcs_changed;
    generic = λ _. pure tt;
  }

  binding_event_handler : EventHandler C P ResourceBinding
  unfolding binding_created binding_updated
  binding_event_handler = record {
    create = binding_created;
    update = binding_updated sets;
    delete = λ _. pure tt;
    generic = λ _. pure tt;
  }

  -- The calls of Watch in setupWatches, in order.
  unfoldable pub export_watches : String → List (Watch C P)
  unfolding service_event_handler mci_event_handler mcs_event_handler binding_event_handler
  export_watches ing_class_name =
      services kind service_event_handler
      ∷ services channel service_event_handler
      ∷ mcis kind (mci_event_handler ing_class_name)
      ∷ mcss kind mcs_event_handler
      ∷ bindings kind binding_event_handler
      ∷ []

abbrev pub controller_name : String
controller_name = "serviceexport-propagation-controller"

-- SetupWithManager
unfoldable pub setup_with_manager :
    {S C P : Type 0}
    → Client C
    → StringSets
    → String
    → Manager S C P
    → Action (Managed S C P) (Unit {0})
unfolding export_watches
setup_with_manager client sets ing_class_name mgr =
    set_up mgr controller_name (export_watches client sets ing_class_name)
