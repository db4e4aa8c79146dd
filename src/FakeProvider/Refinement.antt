-- ===== src/FakeProvider/Refinement.antt =====
-- The provider in memory, over any sequence of calls, is a set of keys.
use multicluster_cloud_provi.Prelude.{
  ◌≡◌, refl, ap, ◌∙◌, inl, inr, String, Bool, true, false, not, ◌&&◌, ◌||◌, Option, none, some,
  List, [], ◌∷◌, All, str_eq, Bool-cases,
}
use multicluster_cloud_provi.Api.{NamespacedName, MultiClusterIngress, LoadBalancerStatus}
use multicluster_cloud_provi.Platform.{Exit, done, fail, panic}
use multicluster_cloud_provi.Platform.Helpers.{StringSets}
use multicluster_cloud_provi.Indexes.{build_service_ref_indexes}
use multicluster_cloud_provi.FakeProvider.{
  Provider, has_key, mci_text, get_load_balancer, ensure_load_balancer, update_load_balancer,
  change_balancer, ensure_load_balancer_deleted,
}
use multicluster_cloud_provi.FakeProvider.Contract.{
  balanced, get_lem, ensure_lem, ensure_twice_lem, delete_lem, absent_lem, present_lem,
}

-- The four methods of the interface.
pub data Op : Type 0 where
  get ensure update remove : MultiClusterIngress → Op

-- What the caller learns. A panic is no reply.
pub data Reply : Type 0 where
  present : Bool → Reply
  given refused removed : Reply

abbrev pub subject : Op → MultiClusterIngress
subject (get m) = m
subject (ensure m) = m
subject (update m) = m
subject (remove m) = m

abbrev pub got : Exit (Option LoadBalancerStatus × Bool) → Option Reply
got (done (status, b)) = some (present b)
got (fail e) = some refused
got panic = none

abbrev pub answered : Exit (Option LoadBalancerStatus) → Option Reply
answered (done status) = some given
answered (fail e) = some refused
answered panic = none

abbrev pub deleted : Exit (Unit {0}) → Option Reply
deleted (done u) = some removed
deleted (fail e) = some refused
deleted panic = none

module _ (text : NamespacedName → String) (sets : StringSets) where
  abbrev perform : Op → Provider → Option Reply × Provider
  perform (get m) p = let (r, p') = get_load_balancer text sets m p in (got r, p')
  perform (ensure m) p = let (r, p') = ensure_load_balancer text sets m p in (answered r, p')
  perform (update m) p = let (r, p') = update_load_balancer text sets m p in (answered r, p')
  perform (remove m) p = let (r, p') = ensure_load_balancer_deleted text sets m p in (deleted r, p')

  pub run : List Op → Provider → List (Option Reply) × Provider
  run [] p = ([], p)
  run (op ∷ ops) p = let (r, p') = perform op p in let (rs, p'') = run ops p' in (r ∷ rs, p'')

  -- The same calls on the set of the keys that have a balancer.
  abbrev specify : Op → (String → Bool) → Option Reply × (String → Bool)
  specify (get m) f = (some (present (f (mci_text text sets m))), f)
  specify (ensure m) f =
      let key = mci_text text sets m in
      elim (f key) [ true ↦ (some refused, f) | false ↦ (some given, λ k. str_eq key k || f k) ]
  specify (update m) f =
      (elim (f (mci_text text sets m)) [ true ↦ some given | false ↦ some refused ], f)
  specify (remove m) f = (some removed, λ k. not (str_eq (mci_text text sets m) k) && f k)

  pub replay : List Op → (String → Bool) → List (Option Reply) × (String → Bool)
  replay [] f = ([], f)
  replay (op ∷ ops) f = let (r, g) = specify op f in let (rs, h) = replay ops g in (r ∷ rs, h)

  -- The index of the services can be built for the ingress of each call.
  abbrev pub Builds : Op → Type 0
  Builds op =
      (services : List String) × (build_service_ref_indexes sets (subject op) ≡ some services)

  -- The replies are those of the set, and the keys with a balancer are the set.
  abbrev Same : Option Reply × Provider → Option Reply × (String → Bool) → Type 0
  Same (r, p) (s, f) = (r ≡ s) × ((k : String) → balanced p k ≡ f k)

  update_absent_lem :
      (m : MultiClusterIngress) (p : Provider)
      → balanced p (mci_text text sets m) ≡ false
      → let (exit, p') = update_load_balancer text sets m p in
        (answered exit ≡ some refused) × (p'.balancers ≡ p.balancers)
  unfolding update_load_balancer change_balancer
  update_absent_lem m p n = rw (absent_lem text sets m p n) (refl, refl)

  update_present_lem :
      (m : MultiClusterIngress) (p : Provider) (services : List String)
      → build_service_ref_indexes sets m ≡ some services
      → balanced p (mci_text text sets m) ≡ true
      → let (exit, p') = update_load_balancer text sets m p in
        (answered exit ≡ some given) × (p'.balancers ≡ p.balancers)
  unfolding update_load_balancer change_balancer
  update_present_lem m p services b t = rw ((present_lem text sets m p t).1, b) (refl, refl)

  step_lem :
      (op : Op) (p : Provider) (f : String → Bool)
      → ((k : String) → balanced p k ≡ f k)
      → Builds op
      → Same (perform op p) (specify op f)
  step_lem (get m) p f h b =
      let (kept, (status, e)) = get_lem text sets m p in
      (
        ap got e ∙ ap (λ x. some (present x)) (h (mci_text text sets m)),
        λ k. ap (λ bs. has_key k bs) kept ∙ h k,
      )
  step_lem (ensure m) p f h (services, b) = elim (Bool-cases (f (mci_text text sets m))) [
    | inl t ↦
        let (e, kept) = ensure_twice_lem text sets m p (h (mci_text text sets m) ∙ t) in
        rw (t, specify) (ap answered e, λ k. ap (λ bs. has_key k bs) kept ∙ h k)
    | inr n ↦
        let (e, _, keys) = ensure_lem text sets m p services b (h (mci_text text sets m) ∙ n) in
        rw (n, specify)
          (ap answered e, λ k. keys k ∙ ap (λ x. str_eq (mci_text text sets m) k || x) (h k))
  ]
  step_lem (update m) p f h (services, b) = elim (Bool-cases (f (mci_text text sets m))) [
    | inl t ↦
        let (e, kept) = update_present_lem m p services b (h (mci_text text sets m) ∙ t) in
        rw t (e, λ k. ap (λ bs. has_key k bs) kept ∙ h k)
    | inr n ↦
        let (e, kept) = update_absent_lem m p (h (mci_text text sets m) ∙ n) in
        rw n (e, λ k. ap (λ bs. has_key k bs) kept ∙ h k)
  ]
  step_lem (remove m) p f h b =
      let (e, keys) = delete_lem text sets m p in
      (ap deleted e, λ k. keys k ∙ ap (λ x. not (str_eq (mci_text text sets m) k) && x) (h k))

  -- Over any sequence of calls about ingresses whose index of services can be built, the provider
  -- replies as a set of keys does: Get tells whether the key of the ingress is in the set; Ensure
  -- adds a key that is not in it, and refuses one that is; Update accepts the keys in it and refuses
  -- the others; Delete takes the key out. Afterwards the keys with a load balancer are the set.
  pub run_refines :
      (ops : List Op) (p : Provider) (f : String → Bool)
      → ((k : String) → balanced p k ≡ f k)
      → All Builds ops
      → ((run ops p).0 ≡ (replay ops f).0)
        × ((k : String) → balanced (run ops p).1 k ≡ (replay ops f).1 k)
  unfolding run replay
  run_refines [] p f h b = (refl, h)
  run_refines (op ∷ ops) p f h (b, bs) =
      let (r, keys) = step_lem op p f h b in
      let (rs, after) = run_refines ops (perform op p).1 (specify op f).1 keys bs in
      (λ i. r i ∷ rs i, after)
