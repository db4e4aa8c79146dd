-- ===== src/MciController/Provisioning.antt =====
-- What the reconciler of a live ingress has done when it returns.
use multicluster_cloud_provi.Prelude.{
  ◌≡◌, ◌≢◌, refl, sym, ap, ◌∙◌, Bool, true, false, Option, none, some, List, ◌∷◌, inl, inr, ◌⊎◌, In,
  Bool-cases, if◌then◌else◌,
}
use multicluster_cloud_provi.Api.{
  NamespacedName, Result, ok, err, is_zero, MultiClusterIngress, LoadBalancerStatus,
}
use multicluster_cloud_provi.Platform.{
  ◌>>=◌, done, panic, bind-done, discarded-done, check, World, M, Event, Client, mci_got,
  mci_status_updated, lb_ensured, lb_updated, LoadBalancer,
}
use multicluster_cloud_provi.Platform.Runtime.{Runtime}
use multicluster_cloud_provi.Platform.Keeps.{Keeps}
use multicluster_cloud_provi.TrafficBlock.{key_of, update_mci_traffic_block_clusters}
use multicluster_cloud_provi.MciController.{
  load_balancer_write, update_mci_status, handle_mci_create, handle_mci_update, ensure_finalizer,
  create_or_update_load_balancer, handle_mci_create_or_update, reconcile_got, reconcile,
}
use multicluster_cloud_provi.MciController.Keeps.{update_mci_status-Keeps}
use multicluster_cloud_provi.Prelude.Equality.{◌==◌, eq_of_equal}
use multicluster_cloud_provi.Api.{status_eq}
use multicluster_cloud_provi.Platform.StatusSync.{sync}
use multicluster_cloud_provi.Platform.StatusSync.Outcome.{
  Provenance, Synced, unchanged, written, superseded, lost, sync-Synced,
}

-- The provider's call for a load balancer that exists, or does not.
abbrev pub called : Bool → MultiClusterIngress → Result (Option LoadBalancerStatus) → Event
called true m r = lb_updated m r
called false m r = lb_ensured m r

abbrev with_status : LoadBalancerStatus → MultiClusterIngress → MultiClusterIngress
with_status st m =
    let status = m.status in record m { status = record status { load_balancer = st } }

module _ {C : Type 0} (client : Client C) where
  -- The status of the provider is in the object, or the last call has stored this object with it, as
  -- it was given or got again under its key.
  abbrev pub Stored : LoadBalancerStatus → MultiClusterIngress → List Event → Type 0
  Stored st m log =
      (m.status.load_balancer ≡ st)
      ⊎ ((x y : MultiClusterIngress) × (c : C) × (l : List Event) × Provenance
            (client.get_mci (key_of m)) (mci_got (key_of m)) m x l
          × ((client.update_mci_status (with_status st x) c).0 ≡ ok y)
          × (log ≡ mci_status_updated (with_status st x) (ok y) ∷ l))

  pub record Provisioned (m : MultiClusterIngress) (log : List Event) : Type 0 where
    pub exists : Bool
    pub status : LoadBalancerStatus
    pub provider_called : In (called exists m (ok (some status))) log
    pub stored : Stored status m log

module _ {C P : Type 0} (rt : Runtime C) (lb : LoadBalancer P) where
  -- A nil status panics: `*newStatus`.
  nil_status :
      (m : MultiClusterIngress) (w : World C P) → (update_mci_status rt lb m none w).0 ≢ done tt
  unfolding update_mci_status
  nil_status m w h = cc

  written-Stored :
      (m : MultiClusterIngress) (st : LoadBalancerStatus) (before after : List Event)
      → Synced (load_balancer_write rt.client (key_of m) st) m before after
      → Stored rt.client st m after
  written-Stored m st before after (unchanged e p) = cc
  written-Stored m st before after (written x y c l o u p) = inr (x, y, c, l, o, u, p)
  written-Stored m st before after (superseded x y c l o g e p) = cc
  written-Stored m st before after (lost x e l o q p) = cc

  update_mci_status-Stored :
      (m : MultiClusterIngress) (st : LoadBalancerStatus) (w : World C P)
      → (update_mci_status rt lb m (some st) w).0 ≡ done tt
      → Stored rt.client st m (update_mci_status rt lb m (some st) w).1.log
  unfolding update_mci_status
  update_mci_status-Stored m st w h = elim (Bool-cases (m.status.load_balancer == st)) [
    | inl e ↦ inl (eq_of_equal m.status.load_balancer st e)
    | inr n ↦
        let whole : M C P MultiClusterIngress =
          sync (load_balancer_write rt.client (key_of m) st) rt.retry m in
        let ((o, finished), same) = discarded-done whole w (rw n at h) in
        rw n (
          rw (ap (λ (x : World C P). x.log) same) (
            written-Stored m st w.log (whole w).1.log (
              sync-Synced (load_balancer_write rt.client (key_of m) st) (λ x. refl) rt.retry m o w
                finished)))
  ]

  In-Keeps :
      (e : Event) (m : MultiClusterIngress) (st : Option LoadBalancerStatus)
      → Keeps (In e) (update_mci_status rt lb m st)
  In-Keeps e = update_mci_status-Keeps rt lb (In e) (λ x r l i. inr i) (λ q r l i. inr i)

  -- The rest of both handlers, after the provider has answered.
  finish-Provisioned :
      (b : Bool) (m : MultiClusterIngress) (r : Result (Option LoadBalancerStatus)) (w : World C P)
      → ((check r >>= update_mci_status rt lb m) w).0 ≡ done tt
      → In (called b m r) w.log
      → Provisioned rt.client m ((check r >>= update_mci_status rt lb m) w).1.log
  finish-Provisioned b m (ok (some st)) w h i = record {
    exists = b;
    status = st;
    provider_called = (In-Keeps (called b m (ok (some st))) m (some st)).at w i;
    stored = update_mci_status-Stored m st w h;
  }
  finish-Provisioned b m (ok none) w h i = absurd (nil_status m w h)
  finish-Provisioned b m (err e) w h i = absurd (cc)

  answered-Provisioned :
      (m : MultiClusterIngress) (r : Result (Option LoadBalancerStatus × Bool)) (w : World C P)
      → let rest =
          (check r >>= λ got.
          if got.1 then handle_mci_update rt lb m else handle_mci_create rt lb m)
            w in
        rest.0 ≡ done tt → Provisioned rt.client m rest.1.log
  unfolding handle_mci_update handle_mci_create
  answered-Provisioned m (ok (st, true)) w h =
      finish-Provisioned true m (lb.update_load_balancer m w.provider).0 _ h (inl refl)
  answered-Provisioned m (ok (st, false)) w h =
      finish-Provisioned false m (lb.ensure_load_balancer m w.provider).0 _ h (inl refl)
  answered-Provisioned m (err e) w h = absurd (cc)

  call-Provisioned :
      (m : MultiClusterIngress) (w : World C P)
      → (create_or_update_load_balancer rt lb m w).0 ≡ done tt
      → Provisioned rt.client m (create_or_update_load_balancer rt lb m w).1.log
  unfolding create_or_update_load_balancer
  call-Provisioned m w h = answered-Provisioned m (lb.get_load_balancer m w.provider).0 _ h

  live-Provisioned :
      (m : MultiClusterIngress) (w : World C P)
      → (handle_mci_create_or_update rt lb m w).0 ≡ done tt
      → (m' : MultiClusterIngress) × ((update_mci_traffic_block_clusters rt m
            (ensure_finalizer rt lb m w).1).0
          ≡ done m')
        × Provisioned rt.client m' (handle_mci_create_or_update rt lb m w).1.log
  unfolding handle_mci_create_or_update
  live-Provisioned m w h =
      let (_, p, _) =
        bind-done (ensure_finalizer rt lb m)
          (λ _. update_mci_traffic_block_clusters rt m >>= create_or_update_load_balancer rt lb) tt
          w h in
      let w1 = (ensure_finalizer rt lb m w).1 in
      let (m', q, t) =
        bind-done (update_mci_traffic_block_clusters rt m) (create_or_update_load_balancer rt lb) tt
          w1 (ap (λ r. r.0) (sym p) ∙ h) in
      let w2 = (update_mci_traffic_block_clusters rt m w1).1 in
      let same = p ∙ q in
      (m', t, rw (ap (λ r. r.1.log) same) (call-Provisioned m' w2 (ap (λ r. r.0) (sym same) ∙ h)))

  -- When the reconciler of a live ingress returns no error, the provider was asked in this run to
  -- create or to update the load balancer of the object that the update of the traffic block list
  -- has returned; it answered with a status; and that status is in this object already, or the last
  -- call has stored this object with it and nothing else changed, as it was or as a Get for its key
  -- has answered.
  pub reconcile-Provisioned :
      (req : NamespacedName) (m : MultiClusterIngress) (w : World C P)
      → (rt.client.get_mci req w.api).0 ≡ ok m
      → is_zero m.deletion_timestamp ≡ true
      → (reconcile rt lb req w).0 ≡ done tt
      → let w' = record w {
        log = mci_got req (ok m) ∷ w.log;
        api = (rt.client.get_mci req w.api).1;
      } in
        (m' : MultiClusterIngress) × ((update_mci_traffic_block_clusters rt m
            (ensure_finalizer rt lb m w').1).0
          ≡ done m')
        × Provisioned rt.client m' (reconcile rt lb req w).1.log
  unfolding reconcile reconcile_got
  reconcile-Provisioned req m w g d h =
      let w' = record w {
        log = mci_got req (ok m) ∷ w.log;
        api = (rt.client.get_mci req w.api).1;
      } in
      let same : reconcile rt lb req w ≡ handle_mci_create_or_update rt lb m w' = rw (g, d) in
      let (m', t, p) = live-Provisioned m w' (ap (λ r. r.0) (sym same) ∙ h) in
      (m', t, rw (ap (λ r. r.1.log) same) p)

  -- A provider that answers the creation without an error and without a status makes the handler
  -- panic: the code dereferences the nil status. The panic comes after the creation.
  nil_status_panics :
      (m : MultiClusterIngress) (w : World C P)
      → (lb.ensure_load_balancer m w.provider).0 ≡ ok none
      → ((handle_mci_create rt lb m w).0 ≡ panic)
        × ((handle_mci_create rt lb m w).1.log ≡ lb_ensured m (ok none) ∷ w.log)
  unfolding handle_mci_create update_mci_status
  nil_status_panics m w h = rw h (refl, refl)
