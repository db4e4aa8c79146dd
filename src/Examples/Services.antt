-- ===== src/Examples/Services.antt =====
-- The controller of the MultiClusterServices at concrete inputs.
use multicluster_cloud_provi.Prelude.{ℕ, ◌≡◌, refl, true, some, [], ◌∷◌}
use multicluster_cloud_provi.Api.{ok, MultiClusterService}
use multicluster_cloud_provi.Platform.{done, mcs_got}
use multicluster_cloud_provi.Platform.StatusSync.{sync}
use multicluster_cloud_provi.Platform.Runtime.{Runtime}
use multicluster_cloud_provi.Util.{mcs_contain_load_balance_type}
use multicluster_cloud_provi.McsController.{reconcile, ensure_finalizer, mcs_controller_finalizer}
use multicluster_cloud_provi.McsController.Order.{AsksFirst, reconcile_mcs-AsksFirst}
use multicluster_cloud_provi.McsController.Deletion.{DeletesFirst, reconcile_mcs-DeletesFirst}
use multicluster_cloud_provi.McsController.Provisioning.{Provisioned, reconcile_mcs-Provisioned}
use multicluster_cloud_provi.Examples.Fixtures.{
  key, runtime, start, mcs_balancer, shop_meta, shop_mcs, usual,
}

abbrev rt : Runtime ℕ
rt = runtime usual

-- No load balancer any more, with a finalizer that was not removed.
abbrev pub forgotten : MultiClusterService
forgotten =
    let m = shop_meta in
    let s = shop_mcs.spec in
    record shop_mcs {
      meta = record m { finalizers = mcs_controller_finalizer ∷ []; deletion_timestamp = some 7 };
      spec = record s { types = "CrossCluster" ∷ [] };
    }

abbrev forgetting : Runtime ℕ
forgetting = runtime (record usual { service_mcs = ok forgotten })

reconcile_mcs-AsksFirst_example : AsksFirst (reconcile rt mcs_balancer key start).1.log
reconcile_mcs-AsksFirst_example = reconcile_mcs-AsksFirst rt mcs_balancer key start tt

reconcile_mcs-DeletesFirst_example :
    DeletesFirst (reconcile forgetting mcs_balancer key start).1.log
reconcile_mcs-DeletesFirst_example = reconcile_mcs-DeletesFirst forgetting mcs_balancer key start tt

typed : mcs_contain_load_balance_type shop_mcs ≡ true
unfolding mcs_contain_load_balance_type
typed = refl

runs : (reconcile rt mcs_balancer key start).0 ≡ done tt
unfolding reconcile sync mcs_contain_load_balance_type
runs = refl

reconcile_mcs-Provisioned_example :
    (m : MultiClusterService) × ((ensure_finalizer rt mcs_balancer shop_mcs
        (record start { log = mcs_got key (ok shop_mcs) ∷ [] })).0
      ≡ done m)
    × Provisioned rt.client m (reconcile rt mcs_balancer key start).1.log
reconcile_mcs-Provisioned_example =
    reconcile_mcs-Provisioned rt mcs_balancer key shop_mcs start refl refl typed runs
