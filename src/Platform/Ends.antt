-- ===== src/Platform/Ends.antt =====
-- What an action makes of the state of the provider, with a rule for each way to build an action.
use multicluster_cloud_provi.Prelude.{
  ◌≡◌, refl, Bool, true, false, Option, none, some, if◌then◌else◌,
}
use multicluster_cloud_provi.Api.{Error, Result, ok, err}
use multicluster_cloud_provi.Platform.Effects.{
  Exit, done, fail, panic, pure, throw, check, deref, continue, ◌>>=◌,
}
use multicluster_cloud_provi.Platform.Components.{Call, Event, World, M, read, logged, ask}

-- `Q` after an exit that returns, `E` after the others.
abbrev pub After : {P A : Type 0} → (A → P → Type 0) → (P → Type 0) → Exit A → P → Type 0
After Q E (done a) p = Q a p
After Q E (fail e) p = E p
After Q E panic p = E p

-- If `I` holds of the provider before the action, then `Q` or `E` holds after it.
pub record Ends {C P A : Type 0} (I : P → Type 0) (m : M C P A) (Q : A → P → Type 0)
    (E : P → Type 0) : Type 0 where
  pub at : (w : World C P) → I w.provider → After Q E (m w).0 (m w).1.provider

module _ {C P A : Type 0} {I : P → Type 0} {Q : A → P → Type 0} {E : P → Type 0} where
  pub Ends-pure : (a : A) → ((p : P) → I p → Q a p) → Ends {C = C} I (pure a) Q E
  Ends-pure a h = record { at = λ w i. h w.provider i }

  Ends-throw : (e : Error) → ((p : P) → I p → E p) → Ends {C = C} I (throw {A = A} e) Q E
  Ends-throw e h = record { at = λ w i. h w.provider i }

  pub Ends-check :
      (r : Result A)
      → ((a : A) → r ≡ ok a → (p : P) → I p → Q a p)
      → ((p : P) → I p → E p)
      → Ends {C = C} I (check r) Q E
  Ends-check (ok a) h k = record { at = λ w i. h a refl w.provider i }
  Ends-check (err e) h k = record { at = λ w i. k w.provider i }

  pub Ends-deref :
      (o : Option A)
      → ((a : A) (p : P) → I p → Q a p)
      → ((p : P) → I p → E p)
      → Ends {C = C} I (deref o) Q E
  Ends-deref none h k = record { at = λ w i. k w.provider i }
  Ends-deref (some a) h k = record { at = λ w i. h a w.provider i }

  pub Ends-if :
      (b : Bool) (m n : M C P A) → Ends I m Q E → Ends I n Q E → Ends I (if b then m else n) Q E
  Ends-if true m n x y = x
  Ends-if false m n x y = y

module _ {C P A : Type 0} {I : P → Type 0} {E : P → Type 0} where
  pub Ends-read :
      {Q : Result A → P → Type 0} (call : Call C A)
      → ((r : Result A) (p : P) → I p → Q r p)
      → Ends {C = C} I (read call) Q E
  Ends-read call h = record { at = λ w i. h (call w.api).0 w.provider i }

  -- The answer of a logged call, as the call gives it.
  pub Ends-logged :
      {Q : Result A → P → Type 0} (entry : Result A → Event) (call : Call C A)
      → ((c : C) (p : P) → I p → Q (call c).0 p)
      → Ends {C = C} I (logged entry call) Q E
  Ends-logged entry call h = record { at = λ w i. h w.api w.provider i }

  -- The answer of the provider, and its next state.
  pub Ends-ask :
      {Q : Result A → P → Type 0} (entry : Result A → Event) (call : Call P A)
      → ((p : P) → I p → Q (call p).0 (call p).1)
      → Ends {C = C} I (ask entry call) Q E
  Ends-ask entry call h = record { at = λ w i. h w.provider i }

module _ {C P A B : Type 0} {E : P → Type 0} {Q : A → P → Type 0} {R : B → P → Type 0} where
  continue-Ends :
      (r : Exit A) (f : A → M C P B)
      → ((a : A) → Ends (Q a) (f a) R E)
      → (w : World C P) → After Q E r w.provider
      → After R E (continue r f w).0 (continue r f w).1.provider
  continue-Ends (done a) f k w h = (k a).at w h
  continue-Ends (fail e) f k w h = h
  continue-Ends panic f k w h = h

  pub Ends-bind :
      {I : P → Type 0} (m : M C P A) (f : A → M C P B)
      → Ends I m Q E
      → ((a : A) → Ends (Q a) (f a) R E)
      → Ends I (m >>= f) R E
  Ends-bind m f x k = record { at = λ w i. let (r, w') = m w in continue-Ends r f k w' (x.at w i) }

module _ {P A : Type 0} {E F : P → Type 0} (Q : A → P → Type 0) where
  weaker : (x : Exit A) (p : P) → ((q : P) → E q → F q) → After Q E x p → After Q F x p
  weaker (done a) p k h = h
  weaker (fail e) p k h = k p h
  weaker panic p k h = k p h

  pub Ends-weaker :
      {C : Type 0} {I : P → Type 0} (m : M C P A)
      → ((p : P) → E p → F p)
      → Ends I m Q E
      → Ends I m Q F
  Ends-weaker m k x = record { at = λ w i. weaker (m w).0 (m w).1.provider k (x.at w i) }

module _ {C P A : Type 0} {I E : P → Type 0} where
  -- A logged call whose error is returned, and whose answer is dropped.
  pub Ends-call :
      (entry : Result A → Event) (call : Call C A)
      → ((p : P) → I p → E p)
      → Ends {C = C} I (logged entry call >>= λ r. check r >>= λ _. pure tt) (λ _. I) E
  Ends-call entry call k =
      Ends-bind (logged entry call) _ (Ends-logged {Q = λ _. I} entry call (λ c p i. i)) λ r.
        Ends-bind (check r) _ (Ends-check {Q = λ _. I} r (λ a e p i. i) k)
          λ a. Ends-pure tt (λ p i. i)
