-- ===== src/McsController/Keeps.antt =====
-- What the entries of the reconciler's parts keep, the reconciler keeps.
use multicluster_cloud_provi.Prelude.{Bool, Option, none, some, List, ◌∷◌, String, not, ◌||◌}
use multicluster_cloud_provi.Api.{
  NamespacedName, Result, ok, err, is_zero, is_not_found, MultiClusterService, LoadBalancerStatus,
}
use multicluster_cloud_provi.Platform.{
  World, Event, mcs_got, mcs_updated, mcs_status_updated, mcs_lb_got, mcs_lb_deleted,
  McsLoadBalancer, logged, warned, pure, throw,
}
use multicluster_cloud_provi.Util.{mcs_contain_load_balance_type}
use multicluster_cloud_provi.Platform.Runtime.{Runtime}
use multicluster_cloud_provi.Platform.Keeps.{
  Keeps, Keeps-bind, Keeps-if, keeps_rules, Keeps-logged, Keeps-pure, Keeps-throw, Keeps-warn,
}
use multicluster_cloud_provi.McsController.{
  key_of, update_mcs_status, ensure_finalizer, create_or_update_load_balancer,
  handle_mcs_create_or_update, handle_mcs_delete, delete_load_balancer, ensure_deleted,
  remove_finalizer, report, reconcile_got, reconcile,
}

module _ {C P : Type 0} (rt : Runtime C) (lb : McsLoadBalancer P) where
  module _ (I : List Event → Type 0)
      (k : (x : MultiClusterService) (r : Result MultiClusterService) (l : List Event)
        → I l
        → I (mcs_status_updated x r ∷ l))
      (g : (q : NamespacedName) (r : Result MultiClusterService) (l : List Event)
        → I l
        → I (mcs_got q r ∷ l)) where
    pub update_mcs_status-Keeps :
        (m : MultiClusterService) (st : Option LoadBalancerStatus)
        → Keeps I (update_mcs_status rt lb m st)
    unfolding update_mcs_status
    update_mcs_status-Keeps m none = Keeps-pure tt
    update_mcs_status-Keeps m (some st) = search (keeps_rules, k, g (key_of m))

    pub ensure_finalizer-Keeps :
        ((x : MultiClusterService) (r : Result MultiClusterService) (l : List Event)
          → I l
          → I (mcs_updated x r ∷ l))
        → (m : MultiClusterService) → Keeps I (ensure_finalizer rt lb m)
    unfolding ensure_finalizer
    ensure_finalizer-Keeps p m = search (keeps_rules, p)

    pub live-Keeps :
        ((m : MultiClusterService) → Keeps I (ensure_finalizer rt lb m))
        → ((m : MultiClusterService) → Keeps I (create_or_update_load_balancer rt lb m))
        → (m : MultiClusterService) → Keeps I (handle_mcs_create_or_update rt lb m)
    unfolding handle_mcs_create_or_update
    live-Keeps p call m = search (keeps_rules, p, call)

    pub reconcile-keeps :
        ((m : MultiClusterService) → Keeps I (handle_mcs_create_or_update rt lb m))
        → ((m : MultiClusterService) → Keeps I (handle_mcs_delete rt lb m))
        → (req : NamespacedName) (w : World C P) → I w.log
        → I (reconcile rt lb req w).1.log
    unfolding reconcile reconcile_got
    reconcile-keeps live gone req w h =
        (Keeps-bind (logged (mcs_got req) (rt.client.get_mcs req)) (reconcile_got rt lb)
            (Keeps-logged (mcs_got req) (rt.client.get_mcs req) (g req)) got).at
          w h
      where
        got : (r : Result MultiClusterService) → Keeps I (reconcile_got rt lb r)
        got (ok m) =
            Keeps-if (not (is_zero m.deletion_timestamp) || not (mcs_contain_load_balance_type m))
              (handle_mcs_delete rt lb m) (handle_mcs_create_or_update rt lb m) (gone m) (live m)
        got (err e) = Keeps-if (is_not_found e) (pure tt) (throw e) (Keeps-pure tt) (Keeps-throw e)

    module _ (t : (text : String) (l : List Event) → I l → I (warned text ∷ l)) where
      report-Keeps :
          {A : Type 0} (text : String) (r : Result A)
          → Keeps {C = C} {P = P} I (report rt lb text r)
      unfolding report
      report-Keeps text (ok a) = Keeps-pure a
      report-Keeps text (err e) = search (keeps_rules, Keeps-warn, t)

      pub delete-Keeps :
          ((m : MultiClusterService) (r : Result (Option LoadBalancerStatus × Bool))
              (l : List Event)
            → I l
            → I (mcs_lb_got m r ∷ l))
          → ((m : MultiClusterService) → Keeps I (delete_load_balancer rt lb m))
          → (m : MultiClusterService) → Keeps I (handle_mcs_delete rt lb m)
      unfolding handle_mcs_delete
      delete-Keeps got gone m = search (keeps_rules, report-Keeps, got m, gone) depth 9

      pub delete_load_balancer-Keeps :
          ((m : MultiClusterService) (r : Result (Unit {0})) (l : List Event)
            → I l
            → I (mcs_lb_deleted m r ∷ l))
          → ((x : MultiClusterService) (r : Result MultiClusterService) (l : List Event)
              → I l
              → I (mcs_updated x r ∷ l))
          → (m : MultiClusterService) → Keeps I (delete_load_balancer rt lb m)
      unfolding delete_load_balancer ensure_deleted remove_finalizer
      delete_load_balancer-Keeps d u m = search (keeps_rules, report-Keeps, d m, u) depth 9
