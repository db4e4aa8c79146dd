-- ===== src/McsController/Deletion.antt =====
-- The finalizer of a service goes only after its load balancer.
use multicluster_cloud_provi.Prelude.{
  ◌≡◌, refl, eq_refl, Bool, true, false, Option, List, [], ◌∷◌, inl, inr, ◌⊎◌, arith, In,
  Bool-cases, String, contains,
}
use multicluster_cloud_provi.Api.{
  NamespacedName, Error, Result, ok, err, MultiClusterService, LoadBalancerStatus, Result-cases,
}
use multicluster_cloud_provi.Platform.{
  done, fail, exit_of, World, Event, mcs_updated, mcs_lb_got, mcs_lb_ensured, mcs_lb_updated,
  mcs_lb_deleted, McsLoadBalancer, warned,
}
use multicluster_cloud_provi.Platform.Runtime.{Runtime}
use multicluster_cloud_provi.Platform.Keeps.{Keeps, keeps_rules}
use multicluster_cloud_provi.McsController.{
  handle_mcs_create, handle_mcs_update, ensure_finalizer, create_or_update_load_balancer,
  delete_load_balancer, key_of, reconcile, with_finalizers, mcs_controller_finalizer,
}
use multicluster_cloud_provi.McsController.Keeps.{
  update_mcs_status-Keeps, live-Keeps, reconcile-keeps, delete-Keeps,
}

-- Each full update of a service sends the finalizer, or comes after the provider has confirmed that
-- the load balancer of that service is deleted.
abbrev pub DeletesFirst : List Event → Type 0
DeletesFirst [] = Unit
DeletesFirst (mcs_updated m r ∷ l) =
    ((contains m.finalizers mcs_controller_finalizer ≡ true)
      ⊎ ((m' : MultiClusterService) × In (mcs_lb_deleted m' (ok tt)) l × (key_of m' ≡ key_of m)))
    × DeletesFirst l
DeletesFirst (e ∷ l) = DeletesFirst l

module _ {C P : Type 0} (rt : Runtime C) (lb : McsLoadBalancer P) where
  call-DeletesFirst :
      (m : MultiClusterService) → Keeps DeletesFirst (create_or_update_load_balancer rt lb m)
  unfolding create_or_update_load_balancer handle_mcs_create handle_mcs_update
  call-DeletesFirst m =
      let status = update_mcs_status-Keeps rt lb DeletesFirst (λ x r l i. i) (λ q r l i. i) in
      let got : (r : Result (Option LoadBalancerStatus × Bool)) (l : List Event)
          → DeletesFirst l
          → DeletesFirst (mcs_lb_got m r ∷ l) =
        λ r l i. i in
      let ensured : (r : Result (Option LoadBalancerStatus)) (l : List Event)
          → DeletesFirst l
          → DeletesFirst (mcs_lb_ensured m r ∷ l) =
        λ r l i. i in
      let updated : (r : Result (Option LoadBalancerStatus)) (l : List Event)
          → DeletesFirst l
          → DeletesFirst (mcs_lb_updated m r ∷ l) =
        λ r l i. i in
      search (keeps_rules, status, got, ensured, updated) depth 9

  abbrev finalizing : MultiClusterService → MultiClusterService
  finalizing m = with_finalizers (rt.finalizers.add m.finalizers mcs_controller_finalizer).0 m

  contains-finalizing :
      (m : MultiClusterService) → contains (finalizing m).finalizers mcs_controller_finalizer ≡ true
  contains-finalizing m = ground (
    arith,
    rt.finalizers.contains-add m.finalizers mcs_controller_finalizer mcs_controller_finalizer,
    eq_refl mcs_controller_finalizer,
  )

  ensure-DeletesFirst : (m : MultiClusterService) → Keeps DeletesFirst (ensure_finalizer rt lb m)
  unfolding ensure_finalizer
  ensure-DeletesFirst m =
      let updated : (r : Result MultiClusterService) (l : List Event)
          → DeletesFirst l
          → DeletesFirst (mcs_updated (finalizing m) r ∷ l) =
        λ r l i. (inl (contains-finalizing m), i) in
      search (keeps_rules, updated)

  module _ (m : MultiClusterService) (w : World C P) where
    abbrev without_finalizer : List String × Bool
    without_finalizer = rt.finalizers.remove m.finalizers mcs_controller_finalizer

    abbrev finalized : MultiClusterService
    finalized = with_finalizers without_finalizer.0 m

    delete_err :
        (e : Error)
        → (lb.ensure_mcs_load_balancer_deleted m w.provider).0 ≡ err e
        → ((delete_load_balancer rt lb m w).0 ≡ fail e)
          × ((delete_load_balancer rt lb m w).1.log
              ≡ warned "Failed to delete MultiClusterService" ∷ mcs_lb_deleted m (err e) ∷ w.log)
    unfolding delete_load_balancer
    delete_err e h = ground arith

    module _ (u : Unit {0}) (h : (lb.ensure_mcs_load_balancer_deleted m w.provider).0 ≡ ok u) where
      delete_unchanged :
          without_finalizer.1 ≡ false
          → ((delete_load_balancer rt lb m w).0 ≡ done tt)
            × ((delete_load_balancer rt lb m w).1.log ≡ mcs_lb_deleted m (ok tt) ∷ w.log)
      unfolding delete_load_balancer
      delete_unchanged n = ground arith

      delete_updated :
          (r : Result MultiClusterService)
          → without_finalizer.1 ≡ true
          → (rt.client.update_mcs finalized w.api).0 ≡ r
          → ((delete_load_balancer rt lb m w).0 ≡ exit_of r)
            × ((delete_load_balancer rt lb m w).1.log
                ≡ mcs_updated finalized r ∷ mcs_lb_deleted m (ok tt) ∷ w.log)
      unfolding delete_load_balancer
      delete_updated (ok x) n e = ground arith
      delete_updated (err x) n e = ground arith

  delete-DeletesFirst :
      (m : MultiClusterService) → Keeps DeletesFirst (delete_load_balancer rt lb m)
  delete-DeletesFirst m = record {
    at = λ w h. elim (Result-cases (lb.ensure_mcs_load_balancer_deleted m w.provider).0) [
      | inl (u, d) ↦ elim (Bool-cases (without_finalizer m w).1) [
        | inl n ↦
            rw ((delete_updated m w u d (rt.client.update_mcs (finalized m w) w.api).0 n refl).1)
              (inr (m, inl refl, refl), h)
        | inr n ↦ rw ((delete_unchanged m w u d n).1) h
      ]
      | inr (e, d) ↦ rw ((delete_err m w e d).1) h
    ];
  }

  -- In every run of the reconciler, whatever the API server and the provider answer, a service is
  -- updated without this controller's finalizer only after the provider has confirmed that the load
  -- balancer of that service is deleted.
  pub reconcile_mcs-DeletesFirst :
      (req : NamespacedName) (w : World C P)
      → DeletesFirst w.log
      → DeletesFirst (reconcile rt lb req w).1.log
  reconcile_mcs-DeletesFirst req w h =
      reconcile-keeps rt lb DeletesFirst (λ x r l i. i) (λ q r l i. i)
        (live-Keeps rt lb DeletesFirst (λ x r l i. i) (λ q r l i. i) ensure-DeletesFirst
          call-DeletesFirst)
        (delete-Keeps rt lb DeletesFirst (λ x r l i. i) (λ q r l i. i) (λ t l i. i) (λ x r l i. i)
          delete-DeletesFirst)
        req w h
