-- ===== src/MciController/Deletion.antt =====
-- The finalizer of an ingress goes only after its load balancer.
use multicluster_cloud_provi.Prelude.{
  ◌≡◌, refl, sym, ap, eq_refl, ◌∙◌, Bool, true, false, Option, List, [], ◌∷◌, inl, inr, arith, In,
  Bool-cases, String, contains,
}
use multicluster_cloud_provi.Api.{
  NamespacedName, Error, Result, ok, err, is_zero, MultiClusterIngress, LoadBalancerStatus,
  Result-cases,
}
use multicluster_cloud_provi.Platform.{
  done, fail, exit_of, World, Event, mci_got, mci_updated, lb_got, lb_ensured, lb_updated,
  lb_deleted, LoadBalancer,
}
use multicluster_cloud_provi.Platform.Runtime.{Runtime}
use multicluster_cloud_provi.Platform.Keeps.{Keeps, keeps_rules}
use multicluster_cloud_provi.TrafficBlock.{key_of}
use multicluster_cloud_provi.MciController.{
  handle_mci_create, handle_mci_update, create_or_update_load_balancer, handle_mci_delete,
  reconcile_got, reconcile, with_finalizers, mci_controller_finalizer,
}
use multicluster_cloud_provi.MciController.Keeps.{
  update_mci_status-Keeps, live-Keeps, reconcile-keeps,
}

-- Each full update of an ingress, which the reconciler makes to drop its finalizer, comes after the
-- provider has confirmed that the load balancer of that ingress is deleted.
abbrev pub DeletesFirst : List Event → Type 0
DeletesFirst [] = Unit
DeletesFirst (mci_updated m r ∷ l) =
    ((m' : MultiClusterIngress) × In (lb_deleted m' (ok tt)) l × (key_of m' ≡ key_of m))
    × DeletesFirst l
DeletesFirst (e ∷ l) = DeletesFirst l

-- What the reconciler of a deleted ingress has done, from the log before and after the deletion.
pub data Deleted (m : MultiClusterIngress) (before after : List Event) : Type 0 where
  had_none :
      contains m.finalizers mci_controller_finalizer ≡ false
      → after ≡ lb_deleted m (ok tt) ∷ before
      → Deleted m before after
  dropped :
      (x stored : MultiClusterIngress)
      → contains x.finalizers mci_controller_finalizer ≡ false
      → key_of x ≡ key_of m
      → after ≡ mci_updated x (ok stored) ∷ lb_deleted m (ok tt) ∷ before
      → Deleted m before after

module _ {C P : Type 0} (rt : Runtime C) (lb : LoadBalancer P) where
  call-DeletesFirst :
      (m : MultiClusterIngress) → Keeps DeletesFirst (create_or_update_load_balancer rt lb m)
  unfolding create_or_update_load_balancer handle_mci_create handle_mci_update
  call-DeletesFirst m =
      let status = update_mci_status-Keeps rt lb DeletesFirst (λ x r l i. i) (λ q r l i. i) in
      let got : (r : Result (Option LoadBalancerStatus × Bool)) (l : List Event)
          → DeletesFirst l
          → DeletesFirst (lb_got m r ∷ l) =
        λ r l i. i in
      let ensured : (r : Result (Option LoadBalancerStatus)) (l : List Event)
          → DeletesFirst l
          → DeletesFirst (lb_ensured m r ∷ l) =
        λ r l i. i in
      let updated : (r : Result (Option LoadBalancerStatus)) (l : List Event)
          → DeletesFirst l
          → DeletesFirst (lb_updated m r ∷ l) =
        λ r l i. i in
      search (keeps_rules, status, got, ensured, updated) depth 9

  module _ (m : MultiClusterIngress) (w : World C P) where
    abbrev without_finalizer : List String × Bool
    without_finalizer = rt.finalizers.remove m.finalizers mci_controller_finalizer

    abbrev finalized : MultiClusterIngress
    finalized = with_finalizers without_finalizer.0 m

    delete_err :
        (e : Error)
        → (lb.ensure_load_balancer_deleted m w.provider).0 ≡ err e
        → ((handle_mci_delete rt lb m w).0 ≡ fail e)
          × ((handle_mci_delete rt lb m w).1.log ≡ lb_deleted m (err e) ∷ w.log)
    unfolding handle_mci_delete
    delete_err e h = ground arith

    module _ (u : Unit {0}) (h : (lb.ensure_load_balancer_deleted m w.provider).0 ≡ ok u) where
      delete_unchanged :
          without_finalizer.1 ≡ false
          → ((handle_mci_delete rt lb m w).0 ≡ done tt)
            × ((handle_mci_delete rt lb m w).1.log ≡ lb_deleted m (ok tt) ∷ w.log)
      unfolding handle_mci_delete
      delete_unchanged n = ground arith

      delete_updated :
          (r : Result MultiClusterIngress)
          → without_finalizer.1 ≡ true
          → (rt.client.update_mci finalized w.api).0 ≡ r
          → ((handle_mci_delete rt lb m w).0 ≡ exit_of r)
            × ((handle_mci_delete rt lb m w).1.log
                ≡ mci_updated finalized r ∷ lb_deleted m (ok tt) ∷ w.log)
      unfolding handle_mci_delete
      delete_updated (ok x) n e = ground arith
      delete_updated (err x) n e = ground arith

  delete-DeletesFirst : (m : MultiClusterIngress) → Keeps DeletesFirst (handle_mci_delete rt lb m)
  delete-DeletesFirst m = record {
    at = λ w h. elim (Result-cases (lb.ensure_load_balancer_deleted m w.provider).0) [
      | inl (u, d) ↦ elim (Bool-cases (without_finalizer m w).1) [
        | inl n ↦
            rw ((delete_updated m w u d (rt.client.update_mci (finalized m w) w.api).0 n refl).1)
              ((m, inl refl, refl), h)
        | inr n ↦ rw ((delete_unchanged m w u d n).1) h
      ]
      | inr (e, d) ↦ rw ((delete_err m w e d).1) h
    ];
  }

  -- In every run of the reconciler, whatever the API server and the provider answer, an ingress is
  -- updated to drop its finalizer only after the provider has confirmed that the load balancer of
  -- that ingress is deleted.
  pub reconcile-DeletesFirst :
      (req : NamespacedName) (w : World C P)
      → DeletesFirst w.log
      → DeletesFirst (reconcile rt lb req w).1.log
  reconcile-DeletesFirst req w h =
      reconcile-keeps rt lb DeletesFirst (λ x r l i. i) (λ q r l i. i)
        (live-Keeps rt lb DeletesFirst (λ x r l i. i) (λ q r l i. i) (λ x r l i. i)
          call-DeletesFirst)
        delete-DeletesFirst req w h

  deleted_lem :
      (m : MultiClusterIngress) (w : World C P)
      → (handle_mci_delete rt lb m w).0 ≡ done tt
      → Deleted m w.log (handle_mci_delete rt lb m w).1.log
  deleted_lem m w h = elim (Result-cases (lb.ensure_load_balancer_deleted m w.provider).0) [
    | inr (e, d) ↦ absurd (ground (arith, (delete_err m w e d).0))
    | inl (u, d) ↦ elim (Bool-cases (without_finalizer m w).1) [
      | inr n ↦
          had_none (sym (rt.finalizers.remove_changes m.finalizers mci_controller_finalizer) ∙ n)
            (delete_unchanged m w u d n).1
      | inl n ↦ elim (Result-cases (rt.client.update_mci (finalized m w) w.api).0) [
        | inl (x, r) ↦
            dropped (finalized m w) x
              (ground (
                arith,
                rt.finalizers.contains-remove m.finalizers mci_controller_finalizer
                    mci_controller_finalizer,
                eq_refl mci_controller_finalizer,
              ))
              refl (delete_updated m w u d (ok x) n r).1
        | inr (e, r) ↦ absurd (ground (arith, (delete_updated m w u d (err e) n r).0))
      ]
    ]
  ]

  -- When the reconciler of an ingress that is being deleted returns no error, the provider has
  -- confirmed that its load balancer is deleted, and the ingress had no finalizer of this controller
  -- or the API server has stored it without that finalizer. Nothing else is called.
  pub reconcile-Deleted :
      (req : NamespacedName) (m : MultiClusterIngress) (w : World C P)
      → (rt.client.get_mci req w.api).0 ≡ ok m
      → is_zero m.deletion_timestamp ≡ false
      → (reconcile rt lb req w).0 ≡ done tt
      → Deleted m (mci_got req (ok m) ∷ w.log) (reconcile rt lb req w).1.log
  unfolding reconcile reconcile_got
  reconcile-Deleted req m w g d h =
      let w' = record w {
        log = mci_got req (ok m) ∷ w.log;
        api = (rt.client.get_mci req w.api).1;
      } in
      let same : reconcile rt lb req w ≡ handle_mci_delete rt lb m w' = rw (g, d) in
      rw (ap (λ r. r.1.log) same) (deleted_lem m w' (ap (λ r. r.0) (sym same) ∙ h))
