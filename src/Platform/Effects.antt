-- ===== src/Platform/Effects.antt =====
-- Actions on a world: they may return an error, and they may panic. What was done before stays done.
use multicluster_cloud_provi.Prelude.{arith, ◌≡◌, refl, Option, none, some}
use multicluster_cloud_provi.Api.{Error, Result, ok, err}

pub data Exit {ℓ} (A : Type ℓ) : Type ℓ where
  done : A → Exit A
  fail : Error → Exit A
  panic : Exit A

abbrev pub Action {ℓ} : Type ℓ → Type ℓ → Type ℓ
Action W A = W → Exit A × W

module _ {ℓ} {W A : Type ℓ} where
  abbrev pub pure : A → Action W A
  pure a w = (done a, w)

  abbrev pub throw : Error → Action W A
  throw e w = (fail e, w)

  -- A nil pointer is dereferenced.
  abbrev crash : Action W A
  crash w = (panic, w)

  -- if err != nil { return err }
  abbrev pub check : Result A → Action W A
  check (ok a) w = (done a, w)
  check (err e) w = (fail e, w)

  -- *p
  abbrev pub deref : Option A → Action W A
  deref none w = (panic, w)
  deref (some a) w = (done a, w)

-- The exit of a handler that returns the error of an answer.
abbrev pub exit_of {ℓ} : {A : Type ℓ} → Result A → Exit (Unit {0})
exit_of (ok a) = done tt
exit_of (err e) = fail e

module _ {ℓ} {W A B : Type ℓ} where
  abbrev pub continue : Exit A → (A → Action W B) → Action W B
  continue (done a) f w = f a w
  continue (fail e) f w = (fail e, w)
  continue panic f w = (panic, w)

  infixl 5 ◌>>=◌ ◌>>◌
  abbrev pub ◌>>=◌ : Action W A → (A → Action W B) → Action W B
  ◌>>=◌ m f w = let (r, w') = m w in continue r f w'

  abbrev pub ◌>>◌ : Action W A → Action W B → Action W B
  m >> k = m >>= λ _. k

  continue-done :
      (r : Exit A) (f : A → Action W B) (b : B) (w : W)
      → (continue r f w).0 ≡ done b
      → (a : A) × (continue r f w ≡ f a w) × (r ≡ done a)
  continue-done (done a) f b w h = (a, refl, refl)
  continue-done (fail e) f b w h = absurd (cc)
  continue-done panic f b w h = absurd (cc)

  -- Inversion of a bind that returns.
  pub bind-done :
      (m : Action W A) (f : A → Action W B) (b : B) (w : W)
      → ((m >>= f) w).0 ≡ done b
      → (a : A) × ((m >>= f) w ≡ f a (m w).1) × ((m w).0 ≡ done a)
  bind-done m f b w h = continue-done (m w).0 f b (m w).1 h

-- An action whose result is dropped.
pub discarded-done :
    {W A : Type 0} (m : Action W A) (w : W)
    → ((m >>= λ _. pure tt) w).0 ≡ done tt
    → ((a : A) × ((m w).0 ≡ done a)) × (((m >>= λ _. pure tt) w).1 ≡ (m w).1)
discarded-done m w h = ground arith
