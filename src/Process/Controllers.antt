-- ===== src/Process/Controllers.antt =====
-- app/controllers.go: how each controller is started with the provider.
pub mod Supported
pub mod Turns
use multicluster_cloud_provi.Prelude.{
  String, Bool, true, false, not, Option, none, some, List, [], ◌∷◌, if◌then◌else◌,
}
use multicluster_cloud_provi.Api.{Error, other, Result}
use multicluster_cloud_provi.Platform.{
  Action, ◌>>=◌, ◌>>◌, pure, throw, check, Call, Client, LoadBalancer, McsLoadBalancer,
}
use multicluster_cloud_provi.Platform.Helpers.{StringSets}
use multicluster_cloud_provi.Platform.Watching.{Manager, Managed}
use multicluster_cloud_provi.Startup.{InitFunc, Initializers}
use multicluster_cloud_provi.IngressWatch.Setup as IngressSetup
use multicluster_cloud_provi.McsWatch
use multicluster_cloud_provi.ExportWatch.Setup as ExportSetup

-- Interface of cloud.go. A balancer may be nil; the truth value says whether it is supported.
pub record Interface (P : Type 0) : Type 0 where
  pub load_balancer : Option (LoadBalancer P) × Bool
  pub mcs_load_balancer : Option (McsLoadBalancer P) × Bool
  pub provider_name : String

-- A builder of controller-runtime, by the controller that it is completed with.
pub data Builder : Type 0 where
  crd_installation mci_service_locations : Builder

-- Context: the manager, the client that it gives, and the class name of the provider; and the two
-- controllers that are built by a builder.
pub record Context (S C P : Type 0) : Type 1 where
  pub mgr : Manager S C P
  pub complete : Builder → Call S (Unit {0})
  pub client : Client C
  pub sets : StringSets
  pub cloud_provider : Interface P
  pub provider_class_name : String

-- A balancer that is supported and there.
unfoldable pub obtain : {S A : Type 0} → Option A × Bool → Action S A
obtain (balancer, false) =
    throw (other "the multicluster controller manager does not support external loadBalancer")
obtain (none, true) = throw (other "clouldn't get the target external loadBalancer provider")
obtain (some balancer, true) = pure balancer

module _ {S C P : Type 0} where
  -- A controller is set up at the manager; its watches are its own.
  on_manager : Action (Managed S C P) (Unit {0}) → Action S (Unit {0})
  on_manager setup s = let (exit, m) = setup (record { state = s; watches = [] }) in (exit, m.state)

  module _ (ctx : Context S C P) where
    unfoldable pub start_mci_controller : InitFunc S
    unfolding obtain on_manager
    start_mci_controller = do
      balancer ← obtain ctx.cloud_provider.load_balancer
      on_manager (IngressSetup.setup_with_manager ctx.client ctx.provider_class_name ctx.mgr)
      pure true

    unfoldable pub start_mcs_controller : InitFunc S
    unfolding obtain on_manager
    start_mcs_controller = do
      balancer ← obtain ctx.cloud_provider.mcs_load_balancer
      on_manager (McsWatch.setup_with_manager ctx.mgr)
      pure true

    unfoldable pub start_crd_installation_controller : InitFunc S
    start_crd_installation_controller s =
        let (r, s') = ctx.complete crd_installation s in (check r >>= λ _. pure true) s'

    unfoldable pub start_service_export_propagation_controller : InitFunc S
    unfolding on_manager
    start_service_export_propagation_controller = do
      on_manager
          (ExportSetup.setup_with_manager ctx.client ctx.sets ctx.provider_class_name ctx.mgr)
      pure true

    unfoldable pub start_mci_service_locations_controller : InitFunc S
    start_mci_service_locations_controller s =
        let (r, s') = ctx.complete mci_service_locations s in (check r >>= λ _. pure true) s'

    -- The entries that init makes in the map `controllers`, of app/manager.go.
    unfoldable pub controllers : Initializers S
    unfolding start_mci_controller start_mcs_controller start_crd_installation_controller
        start_service_export_propagation_controller start_mci_service_locations_controller
    controllers =
        ("multiclusteringress", start_mci_controller)
        ∷ ("multiclusterservice", start_mcs_controller)
        ∷ ("crd-installation", start_crd_installation_controller)
        ∷ ("serviceexport-propagation", start_service_export_propagation_controller)
        ∷ ("mci-service-locations", start_mci_service_locations_controller)
        ∷ []
