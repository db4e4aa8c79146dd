-- ===== src/Platform/Contract/Calls.antt =====
-- What the calls of a provider that keeps the contract make of its load balancers, with what the
-- controllers do next. All of it is about the run for one request.
use multicluster_cloud_provi.Prelude.{◌≡◌, ◌≢◌, sym, ap, ◌∙◌, Bool, true, false, Option}
use multicluster_cloud_provi.Api.{NamespacedName, Result, ok, LoadBalancerStatus}
use multicluster_cloud_provi.Platform.Effects.{Exit, done, fail, panic, check, ◌>>=◌}
use multicluster_cloud_provi.Platform.Components.{Call, Event, World, M, ask}
use multicluster_cloud_provi.Platform.Contract.{Balances}
use multicluster_cloud_provi.Platform.Ends.{After, Ends, Ends-ask, Ends-check, Ends-bind}

module _ {P O : Type 0} {name : O → NamespacedName}
    {get : O → Call P (Option LoadBalancerStatus × Bool)}
    {ensure update : O → Call P (Option LoadBalancerStatus)} {remove : O → Call P (Unit {0})}
    (c : Balances name get ensure update remove) (req : NamespacedName) (p0 : P) where
  -- The load balancers of the others are as they were.
  abbrev pub Others : P → Type 0
  Others p = (k : c.Key) → k ≢ c.identify req → c.exists p k ≡ c.exists p0 k

  abbrev pub OwnIs : Bool → P → Type 0
  OwnIs b p = Others p × (c.exists p (c.identify req) ≡ b)

  -- The load balancer of the request is there, or not, if the answer is no error.
  abbrev OwnIf : {A : Type 0} → Bool → Result A → P → Type 0
  OwnIf {A} b r p = Others p × ((a : A) → r ≡ ok a → c.exists p (c.identify req) ≡ b)

  -- What Get says is so.
  abbrev Got : Result (Option LoadBalancerStatus × Bool) → P → Type 0
  Got r p =
      Others p
      × ((got : Option LoadBalancerStatus × Bool)
          → r ≡ ok got
          → c.exists p (c.identify req) ≡ got.1)

  module _ {C : Type 0} where
    checked :
        {A B : Type 0} (b : Bool) (Q : B → P → Type 0) (r : Result A) (k : A → M C P B)
        → ((a : A) → Ends (OwnIs b) (k a) Q Others)
        → Ends (OwnIf b r) (check r >>= k) Q Others
    checked b Q r k h =
        Ends-bind (check r) k
          (Ends-check {Q = λ _. OwnIs b} r (λ a e p i. (i.0, i.1 a e)) (λ p i. i.0)) h

  module _ (o : O) (named : name o ≡ req) where
    abbrev same : c.identify (name o) ≡ c.identify req
    same = ap c.identify named

    others : (k : c.Key) → k ≢ c.identify req → k ≢ c.identify (name o)
    others k n e = n (e ∙ same)

    module _ {C : Type 0} where
      pub ensure-Ends :
          (entry : Result (Option LoadBalancerStatus) → Event)
          (k : Option LoadBalancerStatus → M C P (Unit {0}))
          → ((st : Option LoadBalancerStatus) → Ends (OwnIs true) (k st) (λ _. OwnIs true) Others)
          → Ends
              (OwnIs false)
              (ask entry (ensure o) >>= λ r. check r >>= k)
              (λ _. OwnIs true)
              Others
      ensure-Ends entry k h =
          Ends-bind (ask entry (ensure o)) _
            (Ends-ask {Q = OwnIf true} entry (ensure o) λ p i. (
              λ j n. c.ensure_keeps o p j (others j n) ∙ i.0 j n,
              λ st e. ap (c.exists _) (sym same) ∙ c.ensured o p st e,
            ))
            (λ r. checked true (λ _. OwnIs true) r k h)

      pub update-Ends :
          (entry : Result (Option LoadBalancerStatus) → Event)
          (k : Option LoadBalancerStatus → M C P (Unit {0}))
          → ((st : Option LoadBalancerStatus) → Ends (OwnIs true) (k st) (λ _. OwnIs true) Others)
          → Ends (OwnIs true) (ask entry (update o) >>= λ r. check r >>= k) (λ _. OwnIs true) Others
      update-Ends entry k h =
          Ends-bind (ask entry (update o)) _
            (Ends-ask {Q = OwnIf true} entry (update o) λ p i. (
              λ j n. c.update_keeps o p j (others j n) ∙ i.0 j n,
              λ st e. ap (c.exists _) (sym same) ∙ c.updated o p st (ap (c.exists p) same ∙ i.1) e,
            ))
            (λ r. checked true (λ _. OwnIs true) r k h)

      pub get-Ends :
          (Q : Unit {0} → P → Type 0) (entry : Result (Option LoadBalancerStatus × Bool) → Event)
          (k : Result (Option LoadBalancerStatus × Bool) → M C P (Unit {0}))
          → ((r : Result (Option LoadBalancerStatus × Bool)) → Ends (Got r) (k r) Q Others)
          → Ends Others (ask entry (get o) >>= k) Q Others
      get-Ends Q entry k h =
          Ends-bind (ask entry (get o)) k
            (Ends-ask {Q = Got} entry (get o) λ p i. (
              λ j n. c.get_keeps o p j ∙ i j n,
              λ (st, b) e.
                  c.get_keeps o p (c.identify req) ∙ ap (c.exists p) (sym same) ∙ c.got o p st b e,
            ))
            h

      pub remove-Ends :
          (Q : Unit {0} → P → Type 0) (entry : Result (Unit {0}) → Event)
          (k : Result (Unit {0}) → M C P (Unit {0}))
          → ((r : Result (Unit {0})) → Ends (OwnIf false r) (k r) Q Others)
          → Ends Others (ask entry (remove o) >>= k) Q Others
      remove-Ends Q entry k h =
          Ends-bind (ask entry (remove o)) k
            (Ends-ask {Q = OwnIf false} entry (remove o) λ p i. (
              λ j n. c.delete_keeps o p j (others j n) ∙ i j n,
              λ u e. ap (c.exists _) (sym same) ∙ c.deleted o p e,
            ))
            h

  module _ {C : Type 0} where
    extract :
        (b : Bool) (x : Exit (Unit {0}) × World C P)
        → After (λ _. OwnIs b) Others x.0 x.1.provider
        → Others x.1.provider × (x.0 ≡ done tt → c.exists x.1.provider (c.identify req) ≡ b)
    extract b (done u, v) h = (h.0, λ _. h.1)
    extract b (fail e, v) h = (h, λ k. cc)
    extract b (panic, v) h = (h, λ k. cc)

    -- A run that comes to an action of which this is known.
    pub settle :
        (b : Bool) (run x : Exit (Unit {0}) × World C P)
        → run ≡ x
        → After (λ _. OwnIs b) Others x.0 x.1.provider
        → Others run.1.provider × (run.0 ≡ done tt → c.exists run.1.provider (c.identify req) ≡ b)
    settle b run x e h =
        let (kept, own) = extract b x h in
        (
          λ k n. ap (λ y. c.exists y.1.provider k) e ∙ kept k n,
          λ d. ap (λ y. c.exists y.1.provider (c.identify req)) e ∙ own (ap (λ y. y.0) (sym e) ∙ d),
        )
