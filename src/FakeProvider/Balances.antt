-- ===== src/FakeProvider/Balances.antt =====
-- The provider in memory keeps the contract of cloud.go.
use multicluster_cloud_provi.Prelude.{
  ◌≡◌, ◌≢◌, refl, sym, ap, ◌∙◌, inl, inr, String, Bool, true, false, Option, str_eq, eq_iff,
  eq_refl, Bool-cases, Option-cases,
}
use multicluster_cloud_provi.Api.{
  NamespacedName, other, Result, ok, err, MultiClusterIngress, LoadBalancerStatus,
}
use multicluster_cloud_provi.Platform.{Exit, done, fail, panic, Action, Call, LoadBalancer}
use multicluster_cloud_provi.Platform.Helpers.{StringSets}
use multicluster_cloud_provi.MciController.Balanced.{Contract}
use multicluster_cloud_provi.Indexes.{build_service_ref_indexes}
use multicluster_cloud_provi.FakeProvider.{
  Provider, find, has_key, mci_text, get_load_balancer, create_balancer, ensure_load_balancer,
  change_balancer, update_load_balancer, ensure_load_balancer_deleted,
}
use multicluster_cloud_provi.FakeProvider.Contract.{balanced, get_lem, delete_lem}

-- The contract speaks of calls that answer or fail. A call that panics ends the process, so nothing
-- comes after it; here it counts among those that fail, for which the contract promises only that
-- other load balancers are not touched.
abbrev answer : {A : Type 0} → Exit A → Result A
answer (done a) = ok a
answer (fail e) = err e
answer panic = err (other "panic")

abbrev as_call : {P A : Type 0} → Action P A → Call P A
as_call m p = let (r, p') = m p in (answer r, p')

module _ (text : NamespacedName → String) (sets : StringSets) where
  -- The provider in memory as an instance of the contract.
  abbrev pub fake_balancer : LoadBalancer Provider
  fake_balancer = record {
    get_load_balancer = λ m. as_call (get_load_balancer text sets m);
    ensure_load_balancer = λ m. as_call (ensure_load_balancer text sets m);
    update_load_balancer = λ m. as_call (update_load_balancer text sets m);
    ensure_load_balancer_deleted = λ m. as_call (ensure_load_balancer_deleted text sets m);
  }

  module _ (m : MultiClusterIngress) (p : Provider) where
    abbrev key : String
    key = mci_text text sets m

    other_key : (k : String) → k ≢ key → str_eq key k ≡ false
    other_key k n = elim (Bool-cases (str_eq key k)) [
      | inl e ↦ absurd (n (sym ((eq_iff key k).0 e)))
      | inr e ↦ e
    ]

    pub ensured_lem :
        (status : Option LoadBalancerStatus)
        → answer (ensure_load_balancer text sets m p).0 ≡ ok status
        → balanced (ensure_load_balancer text sets m p).1 key ≡ true
    unfolding ensure_load_balancer create_balancer
    ensured_lem status h = elim (Option-cases (find key p.balancers)) [
      | inr (b, f) ↦ absurd (cc (rw f at h))
      | inl f ↦ elim (Option-cases (build_service_ref_indexes sets m)) [
        | inl s ↦ absurd (cc (rw (f, s) at h))
        | inr (services, s) ↦ rw (f, s) (rw (eq_refl key) refl)
      ]
    ]

    pub ensure_keeps_lem :
        (k : String) → k ≢ key → balanced (ensure_load_balancer text sets m p).1 k ≡ balanced p k
    unfolding ensure_load_balancer create_balancer
    ensure_keeps_lem k n = elim (Option-cases (find key p.balancers)) [
      | inr (b, f) ↦ rw f refl
      | inl f ↦ elim (Option-cases (build_service_ref_indexes sets m)) [
        | inl s ↦ rw (f, s) refl
        | inr (services, s) ↦ rw (f, s) (rw (other_key k n) refl)
      ]
    ]

    pub update_keeps_lem :
        (k : String) → balanced (update_load_balancer text sets m p).1 k ≡ balanced p k
    unfolding update_load_balancer change_balancer
    update_keeps_lem k = elim (Option-cases (find key p.balancers)) [
      | inl f ↦ rw f refl
      | inr (b, f) ↦ elim (Option-cases (build_service_ref_indexes sets m)) [
        | inl s ↦ rw (f, s) refl
        | inr (services, s) ↦ rw (f, s) refl
      ]
    ]

    pub deleted_lem : balanced (ensure_load_balancer_deleted text sets m p).1 key ≡ false
    deleted_lem = (delete_lem text sets m p).1 key ∙ rw (eq_refl key) refl

    pub delete_keeps_lem :
        (k : String)
        → k ≢ key
        → balanced (ensure_load_balancer_deleted text sets m p).1 k ≡ balanced p k
    delete_keeps_lem k n = (delete_lem text sets m p).1 k ∙ rw (other_key k n) refl

    pub got_lem :
        (status : Option LoadBalancerStatus) (b : Bool)
        → answer (get_load_balancer text sets m p).0 ≡ ok (status, b)
        → balanced p key ≡ b
    got_lem status b h = let (st, e) = (get_lem text sets m p).1 in cc (ap answer e, h)

  unfoldable pub fake_balances : Contract fake_balancer
  fake_balances = record {
    Key = String;
    identify = text;
    exists = balanced;
    got = got_lem;
    get_keeps = λ m p k. ap (has_key k) ((get_lem text sets m p).0);
    ensured = ensured_lem;
    ensure_keeps = ensure_keeps_lem;
    updated = λ m p status e h. update_keeps_lem m p (mci_text text sets m) ∙ e;
    update_keeps = λ m p k n. update_keeps_lem m p k;
    deleted = λ m p h. deleted_lem m p;
    delete_keeps = delete_keeps_lem;
  }
