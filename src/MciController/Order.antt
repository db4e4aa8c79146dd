-- ===== src/MciController/Order.antt =====
-- The order in which the reconciler calls the provider.
use multicluster_cloud_provi.Prelude.{
  ◌≡◌, refl, Bool, true, false, Option, List, [], ◌∷◌, if◌then◌else◌,
}
use multicluster_cloud_provi.Api.{
  NamespacedName, Result, ok, err, MultiClusterIngress, LoadBalancerStatus,
}
use multicluster_cloud_provi.Platform.{
  ◌>>=◌, check, World, Event, mci_updated, lb_got, lb_ensured, lb_updated, lb_deleted, LoadBalancer,
}
use multicluster_cloud_provi.Platform.Runtime.{Runtime}
use multicluster_cloud_provi.Platform.Keeps.{Keeps, Keeps-bind, Keeps-check, keeps_rules}
use multicluster_cloud_provi.MciController.{
  update_mci_status, handle_mci_create, handle_mci_update, create_or_update_load_balancer,
  handle_mci_delete, reconcile,
}
use multicluster_cloud_provi.MciController.Keeps.{
  update_mci_status-Keeps, live-Keeps, reconcile-keeps,
}

-- The newest entry says whether the load balancer of the ingress exists.
abbrev pub Answered : Bool → MultiClusterIngress → List Event → Type 0
Answered b m (lb_got m' (ok (st, b')) ∷ l) = (m' ≡ m) × (b' ≡ b)
Answered b m _ = ⊥

-- Each creation of a load balancer comes directly after the answer that there is none, and each
-- update directly after the answer that there is one.
abbrev pub AsksFirst : List Event → Type 0
AsksFirst [] = Unit
AsksFirst (lb_ensured m r ∷ l) = Answered false m l × AsksFirst l
AsksFirst (lb_updated m r ∷ l) = Answered true m l × AsksFirst l
AsksFirst (e ∷ l) = AsksFirst l

module _ {C P : Type 0} (rt : Runtime C) (lb : LoadBalancer P) where
  create-AsksFirst :
      (m : MultiClusterIngress) (w : World C P)
      → Answered false m w.log
      → AsksFirst w.log
      → AsksFirst (handle_mci_create rt lb m w).1.log
  unfolding handle_mci_create
  create-AsksFirst m w a h =
      let rest = update_mci_status-Keeps rt lb AsksFirst (λ x r l i. i) (λ q r l i. i) m in
      (Keeps-bind (check (lb.ensure_load_balancer m w.provider).0) (update_mci_status rt lb m)
          (Keeps-check (lb.ensure_load_balancer m w.provider).0) rest).at
        _ (a, h)

  update-AsksFirst :
      (m : MultiClusterIngress) (w : World C P)
      → Answered true m w.log
      → AsksFirst w.log
      → AsksFirst (handle_mci_update rt lb m w).1.log
  unfolding handle_mci_update
  update-AsksFirst m w a h =
      let rest = update_mci_status-Keeps rt lb AsksFirst (λ x r l i. i) (λ q r l i. i) m in
      (Keeps-bind (check (lb.update_load_balancer m w.provider).0) (update_mci_status rt lb m)
          (Keeps-check (lb.update_load_balancer m w.provider).0) rest).at
        _ (a, h)

  answered-AsksFirst :
      (m : MultiClusterIngress) (r : Result (Option LoadBalancerStatus × Bool)) (w : World C P)
      → AsksFirst w.log
      → let w' = record w { log = lb_got m r ∷ w.log } in
        AsksFirst
          ((check r >>= λ got.
              if got.1 then handle_mci_update rt lb m else handle_mci_create rt lb m)
            w').1.log
  answered-AsksFirst m (ok (st, true)) w h =
      update-AsksFirst m (record w { log = lb_got m (ok (st, true)) ∷ w.log }) (refl, refl) h
  answered-AsksFirst m (ok (st, false)) w h =
      create-AsksFirst m (record w { log = lb_got m (ok (st, false)) ∷ w.log }) (refl, refl) h
  answered-AsksFirst m (err e) w h = h

  call-AsksFirst :
      (m : MultiClusterIngress) → Keeps AsksFirst (create_or_update_load_balancer rt lb m)
  unfolding create_or_update_load_balancer
  call-AsksFirst m = record {
    at = λ w h.
        answered-AsksFirst m (lb.get_load_balancer m w.provider).0
          (record w { provider = (lb.get_load_balancer m w.provider).1 }) h;
  }

  delete-AsksFirst : (m : MultiClusterIngress) → Keeps AsksFirst (handle_mci_delete rt lb m)
  unfolding handle_mci_delete
  delete-AsksFirst m =
      let keep_deleted : (r : Result (Unit {0})) (l : List Event)
          → AsksFirst l
          → AsksFirst (lb_deleted m r ∷ l) =
        λ r l i. i in
      let keep_updated : (x : MultiClusterIngress) (r : Result MultiClusterIngress) (l : List Event)
          → AsksFirst l
          → AsksFirst (mci_updated x r ∷ l) =
        λ x r l i. i in
      search (keeps_rules, keep_deleted, keep_updated) depth 9

  -- In every run of the reconciler, whatever the API server and the provider answer, a load balancer
  -- is created only directly after the provider has said that there is none for this ingress, and
  -- updated only directly after it has said that there is one.
  pub reconcile-AsksFirst :
      (req : NamespacedName) (w : World C P)
      → AsksFirst w.log
      → AsksFirst (reconcile rt lb req w).1.log
  unfolding reconcile
  reconcile-AsksFirst req w h =
      reconcile-keeps rt lb AsksFirst (λ x r l i. i) (λ q r l i. i)
        (live-Keeps rt lb AsksFirst (λ x r l i. i) (λ q r l i. i) (λ x r l i. i) call-AsksFirst)
        delete-AsksFirst req w h
