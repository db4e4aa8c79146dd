-- ===== src/MciController/Keeps.antt =====
-- What the entries of the reconciler's parts keep, the reconciler keeps.
use multicluster_cloud_provi.Prelude.{Option, List, ◌∷◌}
use multicluster_cloud_provi.Api.{
  NamespacedName, Result, ok, err, is_zero, is_not_found, MultiClusterIngress, LoadBalancerStatus,
}
use multicluster_cloud_provi.Platform.{
  World, Event, mci_got, mci_patched, mci_status_updated, LoadBalancer, logged, pure, throw,
}
use multicluster_cloud_provi.Platform.Runtime.{Runtime}
use multicluster_cloud_provi.Platform.Keeps.{
  Keeps, Keeps-bind, Keeps-if, keeps_rules, Keeps-logged, Keeps-pure, Keeps-throw,
}
use multicluster_cloud_provi.TrafficBlock.{key_of, update_mci_traffic_block_clusters}
use multicluster_cloud_provi.MciController.{
  update_mci_status, ensure_finalizer, create_or_update_load_balancer, handle_mci_create_or_update,
  handle_mci_delete, reconcile_got, reconcile,
}

module _ {C P : Type 0} (rt : Runtime C) (lb : LoadBalancer P) where
  module _ (I : List Event → Type 0)
      (k : (x : MultiClusterIngress) (r : Result MultiClusterIngress) (l : List Event)
        → I l
        → I (mci_status_updated x r ∷ l))
      (g : (q : NamespacedName) (r : Result MultiClusterIngress) (l : List Event)
        → I l
        → I (mci_got q r ∷ l)) where
    pub update_mci_status-Keeps :
        (m : MultiClusterIngress) (st : Option LoadBalancerStatus)
        → Keeps I (update_mci_status rt lb m st)
    unfolding update_mci_status
    update_mci_status-Keeps m st = search (keeps_rules, k, g (key_of m))

    pub traffic-Keeps :
        (m : MultiClusterIngress) → Keeps {C = C} {P = P} I (update_mci_traffic_block_clusters rt m)
    unfolding update_mci_traffic_block_clusters
    traffic-Keeps m = search (keeps_rules, k, g (key_of m))

    pub live-Keeps :
        ((x : MultiClusterIngress) (r : Result MultiClusterIngress) (l : List Event)
          → I l
          → I (mci_patched x r ∷ l))
        → ((m : MultiClusterIngress) → Keeps I (create_or_update_load_balancer rt lb m))
        → (m : MultiClusterIngress) → Keeps I (handle_mci_create_or_update rt lb m)
    unfolding handle_mci_create_or_update ensure_finalizer
    live-Keeps p call m = search (keeps_rules, p, call, traffic-Keeps) depth 9

    pub reconcile-keeps :
        ((m : MultiClusterIngress) → Keeps I (handle_mci_create_or_update rt lb m))
        → ((m : MultiClusterIngress) → Keeps I (handle_mci_delete rt lb m))
        → (req : NamespacedName) (w : World C P) → I w.log
        → I (reconcile rt lb req w).1.log
    unfolding reconcile
    reconcile-keeps live gone req w h =
        (Keeps-bind (logged (mci_got req) (rt.client.get_mci req)) (reconcile_got rt lb)
            (Keeps-logged (mci_got req) (rt.client.get_mci req) (g req)) got).at
          w h
      where
        got : (r : Result MultiClusterIngress) → Keeps I (reconcile_got rt lb r)
        got (ok m) =
            Keeps-if (is_zero m.deletion_timestamp) (handle_mci_create_or_update rt lb m)
              (handle_mci_delete rt lb m) (live m) (gone m)
        got (err e) = Keeps-if (is_not_found e) (pure tt) (throw e) (Keeps-pure tt) (Keeps-throw e)
