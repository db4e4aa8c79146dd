-- ===== src/Process/Controllers/Turns.antt =====
-- What the start of each of the five controllers of app/controllers.go does, in its turn.
use multicluster_cloud_provi.Prelude.{◌≡◌, String, In}
use multicluster_cloud_provi.Api.{ok}
use multicluster_cloud_provi.Platform.Watching.{Accepts}
use multicluster_cloud_provi.ExportWatch.Setup.{export_watches}
use multicluster_cloud_provi.Startup.{InitFunc, Initializers}
use multicluster_cloud_provi.Startup.Started.{HasTurn, Completes}
use multicluster_cloud_provi.Process.Controllers.{
  Context, controllers, crd_installation, mci_service_locations, start_mci_controller,
  start_mcs_controller, start_crd_installation_controller,
  start_service_export_propagation_controller, start_mci_service_locations_controller,
}
use multicluster_cloud_provi.Process.Controllers.Supported.{
  entries, IngressStart, McsStart, mci_returns, mcs_returns, export_returns, crd_returns,
  locations_returns,
}

module _ {S C P : Type 0} (ctx : Context S C P) (is : Initializers S) (s : S) where
  -- Each controller has its turn, after the ones before it in the order of the range; in its turn
  -- the manager accepts it with all its watches, or its builder completes it.
  pub record AllStarted : Type 0 where
    mci : HasTurn is s "multiclusteringress" (start_mci_controller ctx) (IngressStart ctx)
    mcs : HasTurn is s "multiclusterservice" (start_mcs_controller ctx) (McsStart ctx)
    crd :
        HasTurn is s "crd-installation"
          (start_crd_installation_controller ctx)
          (λ t. (ctx.complete crd_installation t).0 ≡ ok tt)
    export :
        HasTurn is s "serviceexport-propagation" (start_service_export_propagation_controller ctx) (
          Accepts ctx.mgr "serviceexport-propagation-controller"
            (export_watches ctx.client ctx.sets ctx.provider_class_name))
    locations :
        HasTurn is s "mci-service-locations"
          (start_mci_service_locations_controller ctx)
          (λ t. (ctx.complete mci_service_locations t).0 ≡ ok tt)

  turn :
      {name : String} {init : InitFunc S} {Q : S → Type 0}
      → ((t : S) → Completes init t → Q t)
      → HasTurn is s name init (Completes init)
      → HasTurn is s name init Q
  turn f (before, after, split, d, r) = (before, after, split, d, f _ r)

  pub AllStarted-Completes :
      ((name : String) (init : InitFunc S)
        → In (name, init) (controllers ctx)
        → HasTurn is s name init (Completes init))
      → AllStarted
  AllStarted-Completes h =
      let (a, b, c, d, e) = entries ctx in
      record {
        mci = turn (mci_returns ctx) (h _ _ a);
        mcs = turn (mcs_returns ctx) (h _ _ b);
        crd = turn (crd_returns ctx) (h _ _ c);
        export = turn (export_returns ctx) (h _ _ d);
        locations = turn (locations_returns ctx) (h _ _ e);
      }
