-- ===== src/MciController/Balanced.antt =====
-- What a run makes of the load balancers of the provider, by the contract of cloud.go.
use multicluster_cloud_provi.Prelude.{
  ◌≡◌, ◌≢◌, refl, ap, ◌∙◌, Bool, true, false, Option, ◌∷◌, if◌then◌else◌, inl, inr, Bool-cases,
}
use multicluster_cloud_provi.Prelude.Equality.{◌==◌}
use multicluster_cloud_provi.Api.{
  NamespacedName, Error, ok, err, is_zero, is_not_found, MultiClusterIngress, LoadBalancerStatus,
  status_eq, Result-cases,
}
use multicluster_cloud_provi.Platform.{
  check, deref, Exit, done, World, read, Client, LoadBalancer, mci_got, mci_patched, mci_updated,
  lb_got, lb_ensured, lb_updated, lb_deleted,
}
use multicluster_cloud_provi.Platform.Runtime.{Runtime}
use multicluster_cloud_provi.Platform.Contract.{Balances, KeepsNames}
use multicluster_cloud_provi.Platform.Contract.Calls.{
  Others, OwnIs, ensure-Ends, update-Ends, get-Ends, remove-Ends, settle,
}
use multicluster_cloud_provi.Platform.Ends.{
  Ends, Ends-pure, Ends-check, Ends-deref, Ends-if, Ends-read, Ends-bind, Ends-weaker, Ends-call,
}
use multicluster_cloud_provi.Platform.StatusSync.{sync}
use multicluster_cloud_provi.Platform.StatusSync.Naming.{Ends-sync}
use multicluster_cloud_provi.TrafficBlock.{
  key_of, traffic_block_clusters, blocked_write, update_mci_traffic_block_clusters,
}
use multicluster_cloud_provi.MciController.{
  load_balancer_write, update_mci_status, handle_mci_create, handle_mci_update, ensure_finalizer,
  create_or_update_load_balancer, handle_mci_create_or_update, handle_mci_delete, reconcile_got,
  reconcile, with_finalizers, mci_controller_finalizer,
}

-- The provider keeps the contract, on the names of the ingresses.
abbrev pub Contract : {P : Type 0} → LoadBalancer P → Type 1
Contract lb =
    Balances key_of lb.get_load_balancer lb.ensure_load_balancer lb.update_load_balancer
      lb.ensure_load_balancer_deleted

abbrev pub Names : {C : Type 0} → Client C → Type 0
Names client = KeepsNames key_of client.get_mci client.update_mci_status

module _ {C P : Type 0} (rt : Runtime C) (lb : LoadBalancer P) (c : Contract lb)
    (names : Names rt.client) (req : NamespacedName) (p0 : P) where
  abbrev Kept : P → Type 0
  Kept = Others c req p0

  abbrev Own : Bool → P → Type 0
  Own = OwnIs c req p0

  status-Ends :
      (m : MultiClusterIngress) (st : Option LoadBalancerStatus)
      → Ends (Own true) (update_mci_status rt lb m st) (λ _. Own true) Kept
  unfolding update_mci_status
  status-Ends m st = Ends-bind (deref st) _ (Ends-deref st (λ a p i. i) (λ p i. i.0)) λ status.
      Ends-if (m.status.load_balancer == status) _ _ (Ends-pure tt (λ p i. i)) (
        Ends-bind (sync (load_balancer_write rt.client (key_of m) status) rt.retry m) _
          (Ends-weaker _ _ (λ p i. i.0)
            (Ends-sync (load_balancer_write rt.client (key_of m) status) (Own true) (λ _. Unit)
              (λ o u. tt) (λ o x a u e. tt) rt.retry m tt))
          (λ o. Ends-pure tt (λ p i. i.1)))

  module _ (m : MultiClusterIngress) (named : key_of m ≡ req) where
    branch-Ends :
        (got : Option LoadBalancerStatus × Bool)
        → Ends
            (Own got.1)
            (if got.1 then handle_mci_update rt lb m else handle_mci_create rt lb m)
            (λ _. Own true)
            Kept
    unfolding handle_mci_update handle_mci_create
    branch-Ends (st, true) = update-Ends c req p0 m named (lb_updated m) _ (status-Ends m)
    branch-Ends (st, false) = ensure-Ends c req p0 m named (lb_ensured m) _ (status-Ends m)

    call-Ends : Ends Kept (create_or_update_load_balancer rt lb m) (λ _. Own true) Kept
    unfolding create_or_update_load_balancer
    call-Ends =
        get-Ends c req p0 m named (λ _. Own true) (lb_got m) _
          λ r.
            Ends-bind (check r) _
              (Ends-check {Q = λ got. Own got.1} r (λ got e p i. (i.0, i.1 got e)) (λ p i. i.0))
              branch-Ends

    delete-Ends : Ends Kept (handle_mci_delete rt lb m) (λ _. Own false) Kept
    unfolding handle_mci_delete
    delete-Ends =
        remove-Ends c req p0 m named (λ _. Own false) (lb_deleted m) _
          λ r.
            Ends-bind (check r) _
              (Ends-check {Q = λ _. Own false} r (λ u e p i. (i.0, i.1 u e)) (λ p i. i.0))
              λ u.
                let (fs, changed) = rt.finalizers.remove m.finalizers mci_controller_finalizer in
                Ends-if changed _ _
                  (Ends-call (mci_updated (with_finalizers fs m))
                    (rt.client.update_mci (with_finalizers fs m)) (λ p i. i.0))
                  (Ends-pure {Q = λ _. Own false} tt (λ p i. i))

    finalizer-Ends : Ends Kept (ensure_finalizer rt lb m) (λ _. Kept) Kept
    unfolding ensure_finalizer
    finalizer-Ends =
        let fs = (rt.finalizers.add m.finalizers mci_controller_finalizer).0 in
        Ends-if (rt.finalizers.contains_finalizer m.finalizers mci_controller_finalizer) _ _
          (Ends-pure tt (λ p i. i))
          (Ends-call (mci_patched (with_finalizers fs m))
            (rt.client.patch_mci (with_finalizers fs m) m) (λ p i. i))

    traffic-Ends :
        Ends Kept (update_mci_traffic_block_clusters rt m) (λ x p. (key_of x ≡ req) × Kept p) Kept
    unfolding update_mci_traffic_block_clusters
    traffic-Ends =
        Ends-bind (read rt.client.list_clusters) _
          (Ends-read {Q = λ _. Kept} rt.client.list_clusters (λ r p i. i))
          λ listed.
            Ends-bind (check listed) _ (Ends-check {Q = λ _. Kept} listed (λ x e p i. i) (λ p i. i))
              λ clusters.
                Ends-sync
                  (blocked_write rt.client (key_of m) (traffic_block_clusters rt.sets m clusters))
                  Kept (λ x. key_of x ≡ req) (λ x n. n) (λ o x a n e. names.written o x a e ∙ n)
                  rt.retry m named

  live-Ends :
      (m : MultiClusterIngress)
      → key_of m ≡ req
      → Ends Kept (handle_mci_create_or_update rt lb m) (λ _. Own true) Kept
  unfolding handle_mci_create_or_update
  live-Ends m named = Ends-bind (ensure_finalizer rt lb m) _ (finalizer-Ends m named) λ u.
      Ends-bind (update_mci_traffic_block_clusters rt m) _ (traffic-Ends m named)
        λ m'. record { at = λ w i. (call-Ends m' i.0).at w i.1 }

module _ {C P : Type 0} (rt : Runtime C) (lb : LoadBalancer P) (c : Contract lb)
    (names : Names rt.client) (req : NamespacedName) (w : World C P) where
  abbrev run : Exit (Unit {0}) × World C P
  run = reconcile rt lb req w

  got_lem :
      (m : MultiClusterIngress)
      → (rt.client.get_mci req w.api).0 ≡ ok m
      → Others c req w.provider run.1.provider
        × (run.0 ≡ done tt
            → c.exists run.1.provider (c.identify req) ≡ is_zero m.deletion_timestamp)
  unfolding reconcile reconcile_got
  got_lem m g =
      let named = names.got req w.api m g in
      let w' : World C P = record w {
        log = mci_got req (ok m) ∷ w.log;
        api = (rt.client.get_mci req w.api).1;
      } in
      elim (Bool-cases (is_zero m.deletion_timestamp)) [
        | inl d ↦ rw d (
            settle c req w.provider true run (handle_mci_create_or_update rt lb m w')
              (rw (g, d) refl)
              ((live-Ends rt lb c names req w.provider m named).at w' (λ k n. refl)))
        | inr d ↦ rw d (
            settle c req w.provider false run (handle_mci_delete rt lb m w') (rw (g, d) refl)
              ((delete-Ends rt lb c names req w.provider m named).at w' (λ k n. refl)))
      ]

  failed_lem :
      (e : Error)
      → (rt.client.get_mci req w.api).0 ≡ err e
      → (reconcile rt lb req w).1.provider ≡ w.provider
  unfolding reconcile reconcile_got
  failed_lem e g = elim (Bool-cases (is_not_found e)) [
    | inl n ↦ rw (g, n) refl
    | inr n ↦ rw (g, n) refl
  ]

  -- A run never touches the load balancers of others.
  pub others_kept : Others c req w.provider run.1.provider
  others_kept = elim (Result-cases (rt.client.get_mci req w.api).0) [
    | inl (m, g) ↦ (got_lem m g).0
    | inr (e, g) ↦ λ k n. ap (λ p. c.exists p k) (failed_lem e g)
  ]

  -- A provider keeps the contract, and the API server keeps names; apart from that they may answer
  -- anything. A run that got the ingress never touches the load balancers of others, also when it
  -- fails. If it returns no error, the ingress has a load balancer if it is live, and has none if it
  -- is being deleted.
  pub reconcile_settles :
      (m : MultiClusterIngress)
      → (rt.client.get_mci req w.api).0 ≡ ok m
      → ((k : c.Key) → k ≢ c.identify req → c.exists run.1.provider k ≡ c.exists w.provider k)
        × (run.0 ≡ done tt
            → c.exists run.1.provider (c.identify req) ≡ is_zero m.deletion_timestamp)
  reconcile_settles m g = got_lem m g
