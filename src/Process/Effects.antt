-- ===== src/Process/Effects.antt =====
-- What a function of the process comes to: it returns, it panics, or klog.Fatalf exits.
use multicluster_cloud_provi.Api.{Result, ok, err}

pub data Outcome (A : Type 0) : Type 0 where
  returns : A → Outcome A
  panics exits : Outcome A

abbrev pub Proc : Type 0 → Type 0 → Type 0
Proc S A = S → Outcome A × S

module _ {S A : Type 0} where
  abbrev pub return : A → Proc S A
  return a s = (returns a, s)

  abbrev pub fatal : Proc S A
  fatal s = (exits, s)

  -- panic(err)
  abbrev pub must : Result A → Proc S A
  must (ok a) s = (returns a, s)
  must (err e) s = (panics, s)

  -- klog.Fatalf on an error
  abbrev pub require : Result A → Proc S A
  require (ok a) s = (returns a, s)
  require (err e) s = (exits, s)

module _ {S A B : Type 0} where
  abbrev pub proceed : Outcome A → (A → Proc S B) → Proc S B
  proceed (returns a) f s = f a s
  proceed panics f s = (panics, s)
  proceed exits f s = (exits, s)

  infixl 5 ◌>>=◌ ◌>>◌
  abbrev pub ◌>>=◌ : Proc S A → (A → Proc S B) → Proc S B
  ◌>>=◌ m f s = let (r, s') = m s in proceed r f s'

  abbrev pub ◌>>◌ : Proc S A → Proc S B → Proc S B
  m >> k = m >>= λ _. k

-- A call whose error is looked at.
abbrev pub call : {S A : Type 0} → (S → Result A × S) → Proc S (Result A)
call f s = let (r, s') = f s in (returns r, s')
