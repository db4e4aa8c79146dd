-- ===== src/MciController/Finalizing.antt =====
-- The finalizer of an ingress is stored before the provider is called; and the update of the
-- traffic block list can be lost.
use multicluster_cloud_provi.Prelude.{
  ◌≡◌, refl, eq_refl, Bool, true, false, Option, List, ◌∷◌, inl, inr, ◌⊎◌, arith, In, contains,
}
use multicluster_cloud_provi.Api.{
  NamespacedName, Error, Result, ok, err, is_zero, MultiClusterIngress, LoadBalancerStatus,
  Result-cases,
}
use multicluster_cloud_provi.Platform.{
  ◌>>=◌, done, fail, World, Event, mci_got, mci_patched, lb_got, lb_ensured, lb_updated,
  LoadBalancer,
}
use multicluster_cloud_provi.Platform.Runtime.{Runtime}
use multicluster_cloud_provi.Platform.Keeps.{Keeps, Keeps-bind, keeps_rules}
use multicluster_cloud_provi.TrafficBlock.{update_mci_traffic_block_clusters}
use multicluster_cloud_provi.MciController.{
  handle_mci_create, handle_mci_update, ensure_finalizer, create_or_update_load_balancer,
  handle_mci_create_or_update, reconcile_got, reconcile, with_finalizers, mci_controller_finalizer,
}
use multicluster_cloud_provi.MciController.Keeps.{update_mci_status-Keeps, traffic-Keeps}
use multicluster_cloud_provi.Api.{status_eq}

module _ {C P : Type 0} (rt : Runtime C) (lb : LoadBalancer P) where
  -- The object that the patch sends for an ingress without the finalizer.
  abbrev pub patched : MultiClusterIngress → MultiClusterIngress
  patched m = with_finalizers (rt.finalizers.add m.finalizers mci_controller_finalizer).0 m

  module _ (m : MultiClusterIngress) (w : World C P)
      (n : contains m.finalizers mci_controller_finalizer ≡ false) where
    ensure_err :
        (e : Error)
        → (rt.client.patch_mci (patched m) m w.api).0 ≡ err e
        → ((ensure_finalizer rt lb m w).0 ≡ fail e)
          × ((ensure_finalizer rt lb m w).1.provider ≡ w.provider)
    unfolding ensure_finalizer
    ensure_err e p =
        rw (rt.finalizers.contains_finalizer_iff m.finalizers mci_controller_finalizer, n)
          (ground arith)

    ensure_ok :
        (x : MultiClusterIngress)
        → (rt.client.patch_mci (patched m) m w.api).0 ≡ ok x
        → ((ensure_finalizer rt lb m w).0 ≡ done tt)
          × ((ensure_finalizer rt lb m w).1.log ≡ mci_patched (patched m) (ok x) ∷ w.log)
    unfolding ensure_finalizer
    ensure_ok x p =
        rw (rt.finalizers.contains_finalizer_iff m.finalizers mci_controller_finalizer, n)
          (ground arith)

  contains-patched :
      (m : MultiClusterIngress) → contains (patched m).finalizers mci_controller_finalizer ≡ true
  contains-patched m = ground (
    arith,
    rt.finalizers.contains-add m.finalizers mci_controller_finalizer mci_controller_finalizer,
    eq_refl mci_controller_finalizer,
  )

  call-In :
      (e : Event) (m : MultiClusterIngress) → Keeps (In e) (create_or_update_load_balancer rt lb m)
  unfolding create_or_update_load_balancer handle_mci_create handle_mci_update
  call-In e m =
      let status = update_mci_status-Keeps rt lb (In e) (λ x r l i. inr i) (λ q r l i. inr i) in
      let got : (r : Result (Option LoadBalancerStatus × Bool)) (l : List Event)
          → In e l
          → In e (lb_got m r ∷ l) =
        λ r l i. inr i in
      let ensured : (r : Result (Option LoadBalancerStatus)) (l : List Event)
          → In e l
          → In e (lb_ensured m r ∷ l) =
        λ r l i. inr i in
      let updated : (r : Result (Option LoadBalancerStatus)) (l : List Event)
          → In e l
          → In e (lb_updated m r ∷ l) =
        λ r l i. inr i in
      search (keeps_rules, status, got, ensured, updated) depth 9

  rest-In :
      (e : Event) (m : MultiClusterIngress)
      → Keeps
          (In e)
          (update_mci_traffic_block_clusters rt m >>= create_or_update_load_balancer rt lb)
  rest-In e m =
      Keeps-bind (update_mci_traffic_block_clusters rt m) (create_or_update_load_balancer rt lb)
        (traffic-Keeps rt lb (In e) (λ x r l i. inr i) (λ q r l i. inr i) m) (call-In e)

  live_lem :
      (m : MultiClusterIngress) (w : World C P)
      → contains m.finalizers mci_controller_finalizer ≡ false
      → let after = (handle_mci_create_or_update rt lb m w).1 in
        (after.provider ≡ w.provider)
        ⊎ ((stored : MultiClusterIngress) × In (mci_patched (patched m) (ok stored)) after.log)
  unfolding handle_mci_create_or_update
  live_lem m w n = elim (Result-cases (rt.client.patch_mci (patched m) m w.api).0) [
    | inr (e, p) ↦ let (failed, same) = ensure_err m w n e p in inl (rw (failed, ◌>>=◌) same)
    | inl (x, p) ↦
        let (went, log) = ensure_ok m w n x p in
        inr (
          x,
          rw (went, ◌>>=◌)
              ((rest-In (mci_patched (patched m) (ok x)) m).at (ensure_finalizer rt lb m w).1
                (rw log (inl refl))),
        )
  ]

  -- When the reconciler gets a live ingress without this controller's finalizer, the state of the
  -- provider is untouched, or the API server has stored a patch that adds the finalizer.
  pub reconcile_patches :
      (req : NamespacedName) (m : MultiClusterIngress) (w : World C P)
      → (rt.client.get_mci req w.api).0 ≡ ok m
      → is_zero m.deletion_timestamp ≡ true
      → contains m.finalizers mci_controller_finalizer ≡ false
      → let after = (reconcile rt lb req w).1 in
        (contains (patched m).finalizers mci_controller_finalizer ≡ true)
        × ((after.provider ≡ w.provider)
            ⊎ ((stored : MultiClusterIngress) × In (mci_patched (patched m) (ok stored)) after.log))
  unfolding reconcile reconcile_got
  reconcile_patches req m w g d n =
      let w' = record w {
        log = mci_got req (ok m) ∷ w.log;
        api = (rt.client.get_mci req w.api).1;
      } in
      (contains-patched m, rw (g, d) (live_lem m w' n))
