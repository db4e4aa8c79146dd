-- ===== src/Examples/Ingresses.antt =====
-- The controller of the ingresses at concrete inputs.
use multicluster_cloud_provi.Prelude.{
  ℕ, ◌≡◌, refl, ◌⊎◌, String, true, false, ◌&&◌, [], ◌∷◌, In, contains, items, any, Slice,
}
use multicluster_cloud_provi.Prelude.Texts.{IsSorted}
use multicluster_cloud_provi.Prelude.Equality.{◌==◌, option_eq, list_eq, string_eq}
use multicluster_cloud_provi.Api.{ok, err, conflict, other, MultiClusterIngress}
use multicluster_cloud_provi.Platform.{done, mci_got, mci_status_updated, mci_patched}
use multicluster_cloud_provi.Platform.Runtime.{Runtime}
use multicluster_cloud_provi.Platform.StatusSync.{sync}
use multicluster_cloud_provi.Platform.StatusSync.Saved.{Saved}
use multicluster_cloud_provi.MciController.{reconcile, ensure_finalizer, mci_controller_finalizer}
use multicluster_cloud_provi.MciController.Order.{AsksFirst, reconcile-AsksFirst}
use multicluster_cloud_provi.MciController.Deletion.{
  DeletesFirst, reconcile-DeletesFirst, Deleted, reconcile-Deleted,
}
use multicluster_cloud_provi.MciController.Provisioning.{Provisioned, reconcile-Provisioned}
use multicluster_cloud_provi.MciController.Finalizing.{patched, reconcile_patches}
use multicluster_cloud_provi.TrafficBlock.{
  traffic_block_clusters, with_blocked, update_mci_traffic_block_clusters,
}
use multicluster_cloud_provi.TrafficBlock.Blocked.{
  is_located, is_controlled, traffic_block_clusters_lem,
}
use multicluster_cloud_provi.TrafficBlock.Sync.{traffic-Synced, traffic_lost}
use multicluster_cloud_provi.Examples.Fixtures.{
  key, runtime, start, balancer, shop, leaving, east, usual, unlucky, string_sets,
}

abbrev rt : Runtime ℕ
rt = runtime usual

abbrev deleting : Runtime ℕ
deleting = runtime (record usual { ingress = λ n. ok leaving })

reconcile-AsksFirst_example : AsksFirst (reconcile rt balancer key start).1.log
reconcile-AsksFirst_example = reconcile-AsksFirst rt balancer key start tt

reconcile-DeletesFirst_example : DeletesFirst (reconcile deleting balancer key start).1.log
reconcile-DeletesFirst_example = reconcile-DeletesFirst deleting balancer key start tt

deletes : (reconcile deleting balancer key start).0 ≡ done tt
unfolding reconcile
deletes = refl

reconcile-Deleted_example :
    Deleted leaving (mci_got key (ok leaving) ∷ []) (reconcile deleting balancer key start).1.log
reconcile-Deleted_example = reconcile-Deleted deleting balancer key leaving start refl refl deletes

runs : (reconcile rt balancer key start).0 ≡ done tt
unfolding reconcile update_mci_traffic_block_clusters sync traffic_block_clusters
runs = refl

reconcile-Provisioned_example :
    (m : MultiClusterIngress) × ((update_mci_traffic_block_clusters rt shop
        (ensure_finalizer rt balancer shop (record start { log = mci_got key (ok shop) ∷ [] })).1).0
      ≡ done m)
    × Provisioned rt.client m (reconcile rt balancer key start).1.log
reconcile-Provisioned_example = reconcile-Provisioned rt balancer key shop start refl refl runs

reconcile_patches_example :
    (contains (patched rt balancer shop).finalizers mci_controller_finalizer ≡ true)
    × (((reconcile rt balancer key start).1.provider ≡ false)
        ⊎ ((stored : MultiClusterIngress) × In
              (mci_patched (patched rt balancer shop) (ok stored))
              (reconcile rt balancer key start).1.log))
reconcile_patches_example = reconcile_patches rt balancer key shop start refl refl refl

traffic_block_clusters_lem_example :
    ((name : String)
      → contains (items (traffic_block_clusters string_sets shop (east ∷ []))) name
        ≡ (is_located shop name && any (is_controlled name) (east ∷ [])))
    × IsSorted (items (traffic_block_clusters string_sets shop (east ∷ [])))
traffic_block_clusters_lem_example = traffic_block_clusters_lem string_sets shop (east ∷ [])

abbrev blocking : Slice String
blocking = traffic_block_clusters string_sets shop (east ∷ [])

updates : (m : MultiClusterIngress) × ((update_mci_traffic_block_clusters rt shop start).0 ≡ done m)
unfolding update_mci_traffic_block_clusters sync traffic_block_clusters
updates = (with_blocked blocking shop, refl)

traffic-Synced_example :
    Saved rt.client key
      (λ x. x.status.traffic_block_clusters ≡ blocking)
      (with_blocked blocking)
      shop
      []
      (update_mci_traffic_block_clusters rt shop start).1.log
traffic-Synced_example = traffic-Synced rt shop (east ∷ []) start refl (updates.0) (updates.1)

abbrev losing : Runtime ℕ
losing = runtime unlucky

differs : (blocking == shop.status.traffic_block_clusters) ≡ false
unfolding traffic_block_clusters
differs = refl

traffic_lost_example :
    ((update_mci_traffic_block_clusters losing shop start).0 ≡ done (with_blocked blocking shop))
    × ((update_mci_traffic_block_clusters losing shop start).1.log
        ≡ mci_got key (err (other "timeout"))
          ∷ mci_status_updated (with_blocked blocking shop) (err conflict)
          ∷ [])
traffic_lost_example =
    traffic_lost losing shop (east ∷ []) start refl (other "timeout") differs refl refl
