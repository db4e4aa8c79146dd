-- ===== src/McsController/Order.antt =====
-- The order in which the reconciler calls the provider.
use multicluster_cloud_provi.Prelude.{
  ◌≡◌, refl, Bool, true, false, Option, List, [], ◌∷◌, if◌then◌else◌,
}
use multicluster_cloud_provi.Api.{
  NamespacedName, Result, ok, err, MultiClusterService, LoadBalancerStatus,
}
use multicluster_cloud_provi.Platform.{
  ◌>>=◌, check, World, Event, mcs_lb_got, mcs_lb_ensured, mcs_lb_updated, McsLoadBalancer,
}
use multicluster_cloud_provi.Platform.Runtime.{Runtime}
use multicluster_cloud_provi.Platform.Keeps.{Keeps, Keeps-bind, Keeps-check}
use multicluster_cloud_provi.McsController.{
  update_mcs_status, handle_mcs_create, handle_mcs_update, create_or_update_load_balancer,
  handle_mcs_delete, reconcile,
}
use multicluster_cloud_provi.McsController.Keeps.{
  update_mcs_status-Keeps, ensure_finalizer-Keeps, live-Keeps, reconcile-keeps, delete-Keeps,
  delete_load_balancer-Keeps,
}

-- The newest entry says whether the load balancer of the service exists.
abbrev pub Answered : Bool → MultiClusterService → List Event → Type 0
Answered b m (mcs_lb_got m' (ok (st, b')) ∷ l) = (m' ≡ m) × (b' ≡ b)
Answered b m _ = ⊥

-- Each creation of a load balancer comes directly after the answer that there is none, and each
-- update directly after the answer that there is one.
abbrev pub AsksFirst : List Event → Type 0
AsksFirst [] = Unit
AsksFirst (mcs_lb_ensured m r ∷ l) = Answered false m l × AsksFirst l
AsksFirst (mcs_lb_updated m r ∷ l) = Answered true m l × AsksFirst l
AsksFirst (e ∷ l) = AsksFirst l

module _ {C P : Type 0} (rt : Runtime C) (lb : McsLoadBalancer P) where
  create-AsksFirst :
      (m : MultiClusterService) (w : World C P)
      → Answered false m w.log
      → AsksFirst w.log
      → AsksFirst (handle_mcs_create rt lb m w).1.log
  unfolding handle_mcs_create
  create-AsksFirst m w a h =
      let rest = update_mcs_status-Keeps rt lb AsksFirst (λ x r l i. i) (λ q r l i. i) m in
      (Keeps-bind (check (lb.ensure_mcs_load_balancer m w.provider).0) (update_mcs_status rt lb m)
          (Keeps-check (lb.ensure_mcs_load_balancer m w.provider).0) rest).at
        _ (a, h)

  update-AsksFirst :
      (m : MultiClusterService) (w : World C P)
      → Answered true m w.log
      → AsksFirst w.log
      → AsksFirst (handle_mcs_update rt lb m w).1.log
  unfolding handle_mcs_update
  update-AsksFirst m w a h =
      let rest = update_mcs_status-Keeps rt lb AsksFirst (λ x r l i. i) (λ q r l i. i) m in
      (Keeps-bind (check (lb.update_mcs_load_balancer m w.provider).0) (update_mcs_status rt lb m)
          (Keeps-check (lb.update_mcs_load_balancer m w.provider).0) rest).at
        _ (a, h)

  answered-AsksFirst :
      (m : MultiClusterService) (r : Result (Option LoadBalancerStatus × Bool)) (w : World C P)
      → AsksFirst w.log
      → let w' = record w { log = mcs_lb_got m r ∷ w.log } in
        AsksFirst
          ((check r >>= λ got.
              if got.1 then handle_mcs_update rt lb m else handle_mcs_create rt lb m)
            w').1.log
  answered-AsksFirst m (ok (st, true)) w h =
      update-AsksFirst m (record w { log = mcs_lb_got m (ok (st, true)) ∷ w.log }) (refl, refl) h
  answered-AsksFirst m (ok (st, false)) w h =
      create-AsksFirst m (record w { log = mcs_lb_got m (ok (st, false)) ∷ w.log }) (refl, refl) h
  answered-AsksFirst m (err e) w h = h

  call-AsksFirst :
      (m : MultiClusterService) → Keeps AsksFirst (create_or_update_load_balancer rt lb m)
  unfolding create_or_update_load_balancer
  call-AsksFirst m = record {
    at = λ w h.
        answered-AsksFirst m (lb.get_mcs_load_balancer m w.provider).0
          (record w { provider = (lb.get_mcs_load_balancer m w.provider).1 }) h;
  }

  delete-AsksFirst : (m : MultiClusterService) → Keeps AsksFirst (handle_mcs_delete rt lb m)
  delete-AsksFirst =
      delete-Keeps rt lb AsksFirst (λ x r l i. i) (λ q r l i. i) (λ t l i. i) (λ x r l i. i)
        (delete_load_balancer-Keeps rt lb AsksFirst (λ x r l i. i) (λ q r l i. i) (λ t l i. i)
          (λ x r l i. i) (λ x r l i. i))

  -- In every run of the reconciler, whatever the API server and the provider answer, a load balancer
  -- is created only directly after the provider has said that there is none for this service, and
  -- updated only directly after it has said that there is one.
  pub reconcile_mcs-AsksFirst :
      (req : NamespacedName) (w : World C P)
      → AsksFirst w.log
      → AsksFirst (reconcile rt lb req w).1.log
  unfolding reconcile
  reconcile_mcs-AsksFirst req w h =
      reconcile-keeps rt lb AsksFirst (λ x r l i. i) (λ q r l i. i)
        (live-Keeps rt lb AsksFirst (λ x r l i. i) (λ q r l i. i)
          (ensure_finalizer-Keeps rt lb AsksFirst (λ x r l i. i) (λ q r l i. i) (λ x r l i. i))
          call-AsksFirst)
        delete-AsksFirst req w h
