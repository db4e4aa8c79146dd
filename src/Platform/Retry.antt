-- ===== src/Platform/Retry.antt =====
-- retry.RetryOnConflict with retry.DefaultRetry: it calls the function again, on the state that the
-- last call left, only after a conflict, and returns the last error. It makes five calls at most.
use multicluster_cloud_provi.Prelude.{◌≡◌}
use multicluster_cloud_provi.Api.{conflict}
use multicluster_cloud_provi.Platform.Effects.{Exit, done, fail, Action}

-- The outcome `r` comes of one or more calls of `fn`, each but the last a conflict.
pub data Attempts {S : Type 0} (fn : Action S (Unit {0})) : S → Exit (Unit {0}) × S → Type 0 where
  last : {s : S} {r : Exit (Unit {0}) × S} → r ≡ fn s → Attempts fn s r
  again :
      {s : S} {r : Exit (Unit {0}) × S}
      → (fn s).0 ≡ fail conflict
      → Attempts fn (fn s).1 r
      → Attempts fn s r

pub record Retry : Type 1 where
  pub on_conflict : (S : Type 0) → Action S (Unit {0}) → Action S (Unit {0})
  pub attempts :
      (S : Type 0) (fn : Action S (Unit {0})) (s : S) → Attempts fn s (on_conflict S fn s)
  -- The first conflict is followed by a second call.
  pub retries :
      (S : Type 0) (fn : Action S (Unit {0})) (s : S)
      → (fn s).0 ≡ fail conflict
      → Attempts fn (fn s).1 (on_conflict S fn s)

module _ {S : Type 0} (fn : Action S (Unit {0})) where
  -- What each call keeps, the retries keep.
  pub Attempts-keeps :
      (I : S → Type 0)
      → ((s : S) → I s → I (fn s).1)
      → {s : S} {r : Exit (Unit {0}) × S} → Attempts fn s r
      → I s
      → I r.1
  Attempts-keeps I step {s} (last e) h = rw e (step s h)
  Attempts-keeps I step {s} (again c rest) h = Attempts-keeps I step rest (step s h)

  -- The outcome is that of a call, made in a state that the invariant describes.
  pub Attempts-ends :
      (I : S → Type 0)
      → ((s : S) → I s → (fn s).0 ≡ fail conflict → I (fn s).1)
      → {s : S} {r : Exit (Unit {0}) × S} → Attempts fn s r
      → I s
      → (t : S) × I t × (r ≡ fn t)
  Attempts-ends I step {s} (last e) h = (s, h, e)
  Attempts-ends I step {s} (again c rest) h = Attempts-ends I step rest (step s h c)

  -- A call that returns no error is the last.
  pub Attempts-done :
      {s : S} {r : Exit (Unit {0}) × S} → (fn s).0 ≡ done tt → Attempts fn s r → r ≡ fn s
  Attempts-done h (last e) = e
  Attempts-done h (again c rest) = cc
