-- ===== src/McsController/Provisioning.antt =====
-- What the reconciler of a live service has done when it returns.
use multicluster_cloud_provi.Prelude.{
  ◌≡◌, refl, sym, ap, ◌∙◌, Bool, true, false, Option, none, some, List, ◌∷◌, inl, inr, ◌⊎◌, In,
  Bool-cases, if◌then◌else◌,
}
use multicluster_cloud_provi.Api.{
  NamespacedName, Result, ok, err, is_zero, MultiClusterService, LoadBalancerStatus,
}
use multicluster_cloud_provi.Platform.{
  ◌>>=◌, done, bind-done, discarded-done, check, World, M, Event, Client, mcs_got,
  mcs_status_updated, mcs_lb_ensured, mcs_lb_updated, McsLoadBalancer,
}
use multicluster_cloud_provi.Platform.Runtime.{Runtime}
use multicluster_cloud_provi.Platform.Keeps.{Keeps}
use multicluster_cloud_provi.McsController.{
  key_of, load_balancer_write, update_mcs_status, handle_mcs_create, handle_mcs_update,
  ensure_finalizer, create_or_update_load_balancer, handle_mcs_create_or_update, reconcile_got,
  reconcile,
}
use multicluster_cloud_provi.McsController.Keeps.{update_mcs_status-Keeps}
use multicluster_cloud_provi.Util.{mcs_contain_load_balance_type}
use multicluster_cloud_provi.Prelude.Equality.{◌==◌, eq_of_equal}
use multicluster_cloud_provi.Api.{status_eq}
use multicluster_cloud_provi.Platform.StatusSync.{sync}
use multicluster_cloud_provi.Platform.StatusSync.Outcome.{
  Provenance, Synced, unchanged, written, superseded, lost, sync-Synced,
}

-- The provider's call for a load balancer that exists, or does not.
abbrev pub called : Bool → MultiClusterService → Result (Option LoadBalancerStatus) → Event
called true m r = mcs_lb_updated m r
called false m r = mcs_lb_ensured m r

module _ {C : Type 0} (client : Client C) where
  -- The provider answered with no status, its status is in the object, or the last call has stored
  -- this object with it, as it was given or got again under its key.
  abbrev pub Stored : Option LoadBalancerStatus → MultiClusterService → List Event → Type 0
  Stored none m log = Unit
  Stored (some st) m log =
      (m.load_balancer ≡ st)
      ⊎ ((x y : MultiClusterService) × (c : C) × (l : List Event) × Provenance
            (client.get_mcs (key_of m)) (mcs_got (key_of m)) m x l
          × ((client.update_mcs_status (record x { load_balancer = st }) c).0 ≡ ok y)
          × (log ≡ mcs_status_updated (record x { load_balancer = st }) (ok y) ∷ l))

  pub record Provisioned (m : MultiClusterService) (log : List Event) : Type 0 where
    pub exists : Bool
    pub status : Option LoadBalancerStatus
    pub provider_called : In (called exists m (ok status)) log
    pub stored : Stored status m log

module _ {C P : Type 0} (rt : Runtime C) (lb : McsLoadBalancer P) where
  written-Stored :
      (m : MultiClusterService) (st : LoadBalancerStatus) (before after : List Event)
      → Synced (load_balancer_write rt.client (key_of m) st) m before after
      → Stored rt.client (some st) m after
  written-Stored m st before after (unchanged e p) = cc
  written-Stored m st before after (written x y c l o u p) = inr (x, y, c, l, o, u, p)
  written-Stored m st before after (superseded x y c l o g e p) = cc
  written-Stored m st before after (lost x e l o q p) = cc

  update_mcs_status-Stored :
      (m : MultiClusterService) (st : LoadBalancerStatus) (w : World C P)
      → (update_mcs_status rt lb m (some st) w).0 ≡ done tt
      → Stored rt.client (some st) m (update_mcs_status rt lb m (some st) w).1.log
  unfolding update_mcs_status
  update_mcs_status-Stored m st w h = elim (Bool-cases (m.load_balancer == st)) [
    | inl e ↦ inl (eq_of_equal m.load_balancer st e)
    | inr n ↦
        let whole : M C P MultiClusterService =
          sync (load_balancer_write rt.client (key_of m) st) rt.retry m in
        let ((o, finished), same) = discarded-done whole w (rw n at h) in
        rw n (
          rw (ap (λ (x : World C P). x.log) same) (
            written-Stored m st w.log (whole w).1.log (
              sync-Synced (load_balancer_write rt.client (key_of m) st) (λ x. refl) rt.retry m o w
                finished)))
  ]

  In-Keeps :
      (e : Event) (m : MultiClusterService) (st : Option LoadBalancerStatus)
      → Keeps (In e) (update_mcs_status rt lb m st)
  In-Keeps e = update_mcs_status-Keeps rt lb (In e) (λ x r l i. inr i) (λ q r l i. inr i)

  -- The rest of both handlers, after the provider has answered.
  finish-Provisioned :
      (b : Bool) (m : MultiClusterService) (r : Result (Option LoadBalancerStatus)) (w : World C P)
      → ((check r >>= update_mcs_status rt lb m) w).0 ≡ done tt
      → In (called b m r) w.log
      → Provisioned rt.client m ((check r >>= update_mcs_status rt lb m) w).1.log
  finish-Provisioned b m (ok none) w h i = record {
    exists = b;
    status = none;
    provider_called = (In-Keeps (called b m (ok none)) m none).at w i;
    stored = tt;
  }
  finish-Provisioned b m (ok (some st)) w h i = record {
    exists = b;
    status = some st;
    provider_called = (In-Keeps (called b m (ok (some st))) m (some st)).at w i;
    stored = update_mcs_status-Stored m st w h;
  }
  finish-Provisioned b m (err e) w h i = absurd (cc)

  answered-Provisioned :
      (m : MultiClusterService) (r : Result (Option LoadBalancerStatus × Bool)) (w : World C P)
      → let rest =
          (check r >>= λ got.
          if got.1 then handle_mcs_update rt lb m else handle_mcs_create rt lb m)
            w in
        rest.0 ≡ done tt → Provisioned rt.client m rest.1.log
  unfolding handle_mcs_update handle_mcs_create
  answered-Provisioned m (ok (st, true)) w h =
      finish-Provisioned true m (lb.update_mcs_load_balancer m w.provider).0 _ h (inl refl)
  answered-Provisioned m (ok (st, false)) w h =
      finish-Provisioned false m (lb.ensure_mcs_load_balancer m w.provider).0 _ h (inl refl)
  answered-Provisioned m (err e) w h = absurd (cc)

  call-Provisioned :
      (m : MultiClusterService) (w : World C P)
      → (create_or_update_load_balancer rt lb m w).0 ≡ done tt
      → Provisioned rt.client m (create_or_update_load_balancer rt lb m w).1.log
  unfolding create_or_update_load_balancer
  call-Provisioned m w h = answered-Provisioned m (lb.get_mcs_load_balancer m w.provider).0 _ h

  live-Provisioned :
      (m : MultiClusterService) (w : World C P)
      → (handle_mcs_create_or_update rt lb m w).0 ≡ done tt
      → (m' : MultiClusterService) × ((ensure_finalizer rt lb m w).0 ≡ done m')
        × Provisioned rt.client m' (handle_mcs_create_or_update rt lb m w).1.log
  unfolding handle_mcs_create_or_update
  live-Provisioned m w h =
      let (m', p, t) =
        bind-done (ensure_finalizer rt lb m) (create_or_update_load_balancer rt lb) tt w h in
      (
        m',
        t,
        rw (ap (λ r. r.1.log) p)
            (call-Provisioned m' (ensure_finalizer rt lb m w).1 (ap (λ r. r.0) (sym p) ∙ h)),
      )

  -- When the reconciler of a live service of the load balancer type returns no error, the provider
  -- was asked in this run to create or to update the load balancer of the object that the update of
  -- the finalizer has returned; and it answered with no status, or its status is in this object
  -- already, or the last call has stored this object with it and nothing else changed, as it was or
  -- as a Get for its key has answered.
  pub reconcile_mcs-Provisioned :
      (req : NamespacedName) (m : MultiClusterService) (w : World C P)
      → (rt.client.get_mcs req w.api).0 ≡ ok m
      → is_zero m.deletion_timestamp ≡ true
      → mcs_contain_load_balance_type m ≡ true
      → (reconcile rt lb req w).0 ≡ done tt
      → let w' = record w {
        log = mcs_got req (ok m) ∷ w.log;
        api = (rt.client.get_mcs req w.api).1;
      } in
        (m' : MultiClusterService) × ((ensure_finalizer rt lb m w').0 ≡ done m')
        × Provisioned rt.client m' (reconcile rt lb req w).1.log
  unfolding reconcile reconcile_got
  reconcile_mcs-Provisioned req m w g d n h =
      let w' = record w {
        log = mcs_got req (ok m) ∷ w.log;
        api = (rt.client.get_mcs req w.api).1;
      } in
      let same : reconcile rt lb req w ≡ handle_mcs_create_or_update rt lb m w' = rw (g, d, n) in
      let (m', t, p) = live-Provisioned m w' (ap (λ r. r.0) (sym same) ∙ h) in
      (m', t, rw (ap (λ r. r.1.log) same) p)
