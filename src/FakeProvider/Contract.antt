-- ===== src/FakeProvider/Contract.antt =====
-- The provider in memory keeps the set of the ingresses that have a load balancer, as the
-- controller relies on it: what Get answers decides between Ensure and Update.
use multicluster_cloud_provi.Prelude.{
  ◌≡◌, refl, inl, inr, String, Bool, true, false, not, ◌&&◌, ◌||◌, Option, none, some, List, [],
  ◌∷◌, arith, str_eq, eq_iff, eq_refl, Bool-cases, Option-cases,
}
use multicluster_cloud_provi.Api.{NamespacedName, other, MultiClusterIngress, LoadBalancerStatus}
use multicluster_cloud_provi.Platform.{done, fail}
use multicluster_cloud_provi.Platform.Helpers.{StringSets}
use multicluster_cloud_provi.Indexes.{build_service_ref_indexes}
use multicluster_cloud_provi.FakeProvider.{
  balancer_of, Provider, find, delete, has_key, Balancer, mci_text, status_of, empty_status,
  get_load_balancer, create_balancer, ensure_load_balancer, change_balancer, update_load_balancer,
  ensure_load_balancer_deleted,
}

module _ {A : Type 0} where
  find-has_key :
      (k : String) (m : List (String × A))
      → has_key k m ≡ elim (find k m) as (λ _. Bool) [ none ↦ false | some a ↦ true ]
  find-has_key k [] = refl
  find-has_key k ((j, a) ∷ m) = elim (Bool-cases (str_eq j k)) [
    | inl e ↦ rw e refl
    | inr n ↦ rw n (find-has_key k m)
  ]

  has_key-delete :
      (k l : String) (m : List (String × A))
      → has_key l (delete k m) ≡ (not (str_eq k l) && has_key l m)
  has_key-delete k l [] = ground arith
  has_key-delete k l ((j, a) ∷ m) = elim (Bool-cases (str_eq j k)) [
    | inl e ↦ rw e (ground (arith, has_key-delete k l m, eq_iff j k, eq_iff j l, eq_iff k l))
    | inr n ↦ rw n (ground (arith, has_key-delete k l m, eq_iff j k, eq_iff j l, eq_iff k l))
  ]

-- The ingress of this key has a load balancer.
abbrev pub balanced : Provider → String → Bool
balanced p key = has_key key p.balancers

module _ (text : NamespacedName → String) (sets : StringSets) (mci : MultiClusterIngress)
    (p : Provider) where
  abbrev key : String
  key = mci_text text sets mci

  pub absent_lem : balanced p key ≡ false → find key p.balancers ≡ none
  absent_lem h = elim (Option-cases (find key p.balancers)) [
    | inl n ↦ n
    | inr (a, e) ↦ absurd (cc (rw (find-has_key key p.balancers, e) at h))
  ]

  pub present_lem : balanced p key ≡ true → (a : Balancer) × (find key p.balancers ≡ some a)
  present_lem h = elim (Option-cases (find key p.balancers)) [
    | inl n ↦ absurd (cc (rw (find-has_key key p.balancers, n) at h))
    | inr (a, e) ↦ (a, e)
  ]

  -- Get answers whether the ingress has a load balancer, and changes none.
  pub get_lem :
      ((get_load_balancer text sets mci p).1.balancers ≡ p.balancers)
      × ((status : Option LoadBalancerStatus) × ((get_load_balancer text sets mci p).0
            ≡ done (status, balanced p key)))
  unfolding get_load_balancer
  get_lem = elim (Bool-cases (balanced p key)) [
    | inl e ↦ (rw e refl, (some empty_status, rw e refl))
    | inr n ↦ (rw n refl, (none, rw n refl))
  ]

  -- Ensure gives an ingress that has no load balancer one, with a copy of the ingress and the names
  -- of its services, and leaves the others as they are.
  pub ensure_lem :
      (services : List String)
      → build_service_ref_indexes sets mci ≡ some services
      → balanced p key ≡ false
      → let (exit, after) = ensure_load_balancer text sets mci p in
        (exit ≡ done (status_of "1.2.3.4"))
        × (find key after.balancers ≡ some (balancer_of mci services))
        × ((k : String) → balanced after k ≡ (str_eq key k || balanced p k))
  unfolding ensure_load_balancer create_balancer
  ensure_lem services s n = rw (absent_lem n, s) (refl, rw (eq_refl key) refl, λ k. ground arith)

  -- Ensure fails for an ingress that has a load balancer, and changes none.
  pub ensure_twice_lem :
      balanced p key ≡ true
      → let (exit, after) = ensure_load_balancer text sets mci p in
        (exit ≡ fail (other "there already exist a LoadBalancer")) × (after.balancers ≡ p.balancers)
  unfolding ensure_load_balancer create_balancer
  ensure_twice_lem e = rw ((present_lem e).1) (refl, refl)

  -- Update stores nothing, also when it answers with a status: the load balancer of the ingress
  -- keeps the ingress and the services that it was created with.
  update_lem :
      (b : Balancer) (services : List String)
      → find key p.balancers ≡ some b
      → build_service_ref_indexes sets mci ≡ some services
      → let (exit, after) = update_load_balancer text sets mci p in
        (exit ≡ done (status_of "1.2.3.5")) × (find key after.balancers ≡ some b)
  unfolding update_load_balancer change_balancer
  update_lem b services f s = rw (f, s) (refl, f)

  -- After Delete the ingress has no load balancer, and the others have theirs as before.
  pub delete_lem :
      let (exit, after) = ensure_load_balancer_deleted text sets mci p in
      (exit ≡ done tt) × ((k : String) → balanced after k ≡ (not (str_eq key k) && balanced p k))
  unfolding ensure_load_balancer_deleted
  delete_lem = (refl, λ k. has_key-delete key k p.balancers)
