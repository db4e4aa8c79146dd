-- ===== src/McsController/Balanced.antt =====
-- What a run makes of the load balancers of the provider, by the contract of cloud.go.
use multicluster_cloud_provi.Prelude.{
  ◌≡◌, ◌≢◌, refl, ap, ◌∙◌, Bool, true, false, ◌&&◌, Option, none, some, ◌∷◌, String, if◌then◌else◌,
  inl, inr, Bool-cases,
}
use multicluster_cloud_provi.Prelude.Equality.{◌==◌}
use multicluster_cloud_provi.Api.{
  NamespacedName, Error, Result, ok, err, is_zero, is_not_found, MultiClusterService,
  LoadBalancerStatus, status_eq, Result-cases,
}
use multicluster_cloud_provi.Platform.{
  pure, check, Exit, done, World, logged, Client, McsLoadBalancer, mcs_got, mcs_updated, mcs_lb_got,
  mcs_lb_ensured, mcs_lb_updated, mcs_lb_deleted,
}
use multicluster_cloud_provi.Platform.Runtime.{Runtime}
use multicluster_cloud_provi.Platform.Contract.{Balances, KeepsNames}
use multicluster_cloud_provi.Platform.Contract.Calls.{
  Others, OwnIs, ensure-Ends, update-Ends, get-Ends, remove-Ends, settle,
}
use multicluster_cloud_provi.Platform.Ends.{
  Ends, Ends-pure, Ends-check, Ends-if, Ends-logged, Ends-bind, Ends-weaker, Ends-call,
}
use multicluster_cloud_provi.Platform.StatusSync.{sync}
use multicluster_cloud_provi.Platform.StatusSync.Naming.{Ends-sync}
use multicluster_cloud_provi.Util.{mcs_contain_load_balance_type}
use multicluster_cloud_provi.McsController.{
  key_of, with_finalizers, mcs_controller_finalizer, load_balancer_write, update_mcs_status,
  handle_mcs_create, handle_mcs_update, ensure_finalizer, create_or_update_load_balancer,
  handle_mcs_create_or_update, report, ensure_deleted, remove_finalizer, delete_load_balancer,
  handle_mcs_delete, reconcile_got, reconcile,
}

-- The provider keeps the contract, on the names of the services.
abbrev pub Contract : {P : Type 0} → McsLoadBalancer P → Type 1
Contract lb =
    Balances key_of lb.get_mcs_load_balancer lb.ensure_mcs_load_balancer lb.update_mcs_load_balancer
      lb.ensure_mcs_load_balancer_deleted

abbrev pub Names : {C : Type 0} → Client C → Type 0
Names client = KeepsNames key_of client.get_mcs client.update_mcs

module _ {C P : Type 0} (rt : Runtime C) (lb : McsLoadBalancer P) (c : Contract lb)
    (names : Names rt.client) (req : NamespacedName) (p0 : P) where
  abbrev Kept : P → Type 0
  Kept = Others c req p0

  abbrev Own : Bool → P → Type 0
  Own = OwnIs c req p0

  status-Ends :
      (m : MultiClusterService) (st : Option LoadBalancerStatus)
      → Ends (Own true) (update_mcs_status rt lb m st) (λ _. Own true) Kept
  unfolding update_mcs_status
  status-Ends m none = Ends-pure tt (λ p i. i)
  status-Ends m (some status) = Ends-if (m.load_balancer == status) _ _ (Ends-pure tt (λ p i. i)) (
      Ends-bind (sync (load_balancer_write rt.client (key_of m) status) rt.retry m) _
        (Ends-weaker _ _ (λ p i. i.0)
          (Ends-sync (load_balancer_write rt.client (key_of m) status) (Own true) (λ _. Unit)
            (λ o u. tt) (λ o x a u e. tt) rt.retry m tt))
        (λ o. Ends-pure tt (λ p i. i.1)))

  report-Ends :
      {A : Type 0} {I : P → Type 0} (Q : A → P → Type 0) (text : String) (r : Result A)
      → ((a : A) → r ≡ ok a → (p : P) → I p → Q a p)
      → ((p : P) → I p → Kept p)
      → Ends {C = C} I (report rt lb text r) Q Kept
  unfolding report
  report-Ends Q text (ok a) h k = record { at = λ w i. h a refl w.provider i }
  report-Ends Q text (err e) h k = record { at = λ w i. k w.provider i }

  finalizer-Ends :
      (m : MultiClusterService)
      → key_of m ≡ req
      → Ends Kept (ensure_finalizer rt lb m) (λ x p. (key_of x ≡ req) × Kept p) Kept
  unfolding ensure_finalizer
  finalizer-Ends m named =
      let (fs, changed) = rt.finalizers.add m.finalizers mcs_controller_finalizer in
      let x = with_finalizers fs m in
      Ends-if changed _ _
        (Ends-bind (logged (mcs_updated x) (rt.client.update_mcs x)) check
          (Ends-logged {Q = λ r p. ((y : MultiClusterService) → r ≡ ok y → key_of y ≡ req) × Kept p}
            (mcs_updated x) (rt.client.update_mcs x)
            λ a p i. (λ y e. names.written x y a e ∙ named, i))
          λ r. Ends-check r (λ y e p i. (i.0 y e, i.1)) (λ p i. i.1))
        (Ends-pure x (λ p i. (named, i)))

  module _ (m : MultiClusterService) (named : key_of m ≡ req) where
    branch-Ends :
        (got : Option LoadBalancerStatus × Bool)
        → Ends
            (Own got.1)
            (if got.1 then handle_mcs_update rt lb m else handle_mcs_create rt lb m)
            (λ _. Own true)
            Kept
    unfolding handle_mcs_update handle_mcs_create
    branch-Ends (st, true) = update-Ends c req p0 m named (mcs_lb_updated m) _ (status-Ends m)
    branch-Ends (st, false) = ensure-Ends c req p0 m named (mcs_lb_ensured m) _ (status-Ends m)

    call-Ends : Ends Kept (create_or_update_load_balancer rt lb m) (λ _. Own true) Kept
    unfolding create_or_update_load_balancer
    call-Ends =
        get-Ends c req p0 m named (λ _. Own true) (mcs_lb_got m) _
          λ r.
            Ends-bind (check r) _
              (Ends-check {Q = λ got. Own got.1} r (λ got e p i. (i.0, i.1 got e)) (λ p i. i.0))
              branch-Ends

    deleted-Ends : Ends Kept (delete_load_balancer rt lb m) (λ _. Own false) Kept
    unfolding delete_load_balancer ensure_deleted remove_finalizer
    deleted-Ends =
        let (fs, changed) = rt.finalizers.remove m.finalizers mcs_controller_finalizer in
        Ends-bind (ensure_deleted rt lb m) _
          (remove-Ends c req p0 m named (λ _. Own false) (mcs_lb_deleted m) _
            λ r.
              report-Ends (λ _. Own false) "Failed to delete MultiClusterService" r
                (λ u e p i. (i.0, i.1 u e)) (λ p i. i.0))
          λ u.
            Ends-if changed _ _
              (Ends-call (mcs_updated (with_finalizers fs m))
                (rt.client.update_mcs (with_finalizers fs m)) (λ p i. i.0))
              (Ends-pure {Q = λ _. Own false} tt (λ p i. i))

    if_exists :
        (got : Option LoadBalancerStatus × Bool)
        → Ends
            (Own got.1)
            (if got.1 then delete_load_balancer rt lb m else pure tt)
            (λ _. Own false)
            Kept
    if_exists (st, true) = record { at = λ w i. deleted-Ends.at w i.0 }
    if_exists (st, false) = Ends-pure tt (λ p i. i)

    delete-Ends : Ends Kept (handle_mcs_delete rt lb m) (λ _. Own false) Kept
    unfolding handle_mcs_delete
    delete-Ends = Ends-if (mcs_contain_load_balance_type m) _ _ deleted-Ends (
        get-Ends c req p0 m named (λ _. Own false) (mcs_lb_got m) _
          λ r.
            Ends-bind (report rt lb "Failed to get MultiClusterService" r) _
              (report-Ends (λ got. Own got.1) "Failed to get MultiClusterService" r
                (λ got e p i. (i.0, i.1 got e)) (λ p i. i.0))
              if_exists)

  live-Ends :
      (m : MultiClusterService)
      → key_of m ≡ req
      → Ends Kept (handle_mcs_create_or_update rt lb m) (λ _. Own true) Kept
  unfolding handle_mcs_create_or_update
  live-Ends m named =
      Ends-bind (ensure_finalizer rt lb m) _ (finalizer-Ends m named)
        λ m'. record { at = λ w i. (call-Ends m' i.0).at w i.1 }

-- The service is to have a load balancer.
abbrev pub is_wanted : MultiClusterService → Bool
is_wanted m = is_zero m.deletion_timestamp && mcs_contain_load_balance_type m

module _ {C P : Type 0} (rt : Runtime C) (lb : McsLoadBalancer P) (c : Contract lb)
    (names : Names rt.client) (req : NamespacedName) (w : World C P) where
  abbrev run : Exit (Unit {0}) × World C P
  run = reconcile rt lb req w

  got_lem :
      (m : MultiClusterService)
      → (rt.client.get_mcs req w.api).0 ≡ ok m
      → Others c req w.provider run.1.provider
        × (run.0 ≡ done tt → c.exists run.1.provider (c.identify req) ≡ is_wanted m)
  unfolding reconcile reconcile_got
  got_lem m g =
      let named = names.got req w.api m g in
      let w' : World C P = record w {
        log = mcs_got req (ok m) ∷ w.log;
        api = (rt.client.get_mcs req w.api).1;
      } in
      let deleted = (delete-Ends rt lb c names req w.provider m named).at w' (λ k n. refl) in
      elim (Bool-cases (is_zero m.deletion_timestamp)) [
        | inr d ↦ rw d (
            settle c req w.provider false run (handle_mcs_delete rt lb m w') (rw (g, d) refl)
              deleted)
        | inl d ↦ elim (Bool-cases (mcs_contain_load_balance_type m)) [
          | inr b ↦
              rw (d, b)
                (settle c req w.provider false run (handle_mcs_delete rt lb m w')
                  (rw (g, d, b) refl) deleted)
          | inl b ↦
              rw (d, b)
                (settle c req w.provider true run (handle_mcs_create_or_update rt lb m w')
                  (rw (g, d, b) refl)
                  ((live-Ends rt lb c names req w.provider m named).at w' (λ k n. refl)))
        ]
      ]

  failed_lem :
      (e : Error)
      → (rt.client.get_mcs req w.api).0 ≡ err e
      → (reconcile rt lb req w).1.provider ≡ w.provider
  unfolding reconcile reconcile_got
  failed_lem e g = elim (Bool-cases (is_not_found e)) [
    | inl n ↦ rw (g, n) refl
    | inr n ↦ rw (g, n) refl
  ]

  -- A run never touches the load balancers of others.
  pub others_kept : Others c req w.provider run.1.provider
  others_kept = elim (Result-cases (rt.client.get_mcs req w.api).0) [
    | inl (m, g) ↦ (got_lem m g).0
    | inr (e, g) ↦ λ k n. ap (λ p. c.exists p k) (failed_lem e g)
  ]

  -- A provider keeps the contract, and the API server keeps names; apart from that they may answer
  -- anything. A run that got the service never touches the load balancers of others, also when it
  -- fails. If it returns no error, the service has a load balancer if it is live and of the load
  -- balancer type, and has none otherwise.
  pub reconcile_mcs_settles :
      (m : MultiClusterService)
      → (rt.client.get_mcs req w.api).0 ≡ ok m
      → ((k : c.Key) → k ≢ c.identify req → c.exists run.1.provider k ≡ c.exists w.provider k)
        × (run.0 ≡ done tt → c.exists run.1.provider (c.identify req) ≡ is_wanted m)
  reconcile_mcs_settles m g = got_lem m g
