-- ===== src/Platform/Keeps.antt =====
-- Properties of the log that an action keeps, with a rule for each way to build an action.
use multicluster_cloud_provi.Prelude.{
  String, Bool, true, false, Option, none, some, List, ◌∷◌, if◌then◌else◌,
}
use multicluster_cloud_provi.Api.{Error, Result, ok, err}
use multicluster_cloud_provi.Platform.Effects.{
  Exit, done, fail, panic, pure, throw, check, deref, continue, ◌>>=◌,
}
use multicluster_cloud_provi.Platform.Components.{
  Call, Event, World, M, read, logged, ask, warn, warned,
}
use multicluster_cloud_provi.Platform.Retry.{Retry}
use multicluster_cloud_provi.Platform.StatusSync.{StatusWrite, sync}
use multicluster_cloud_provi.Platform.StatusSync.Attempt.{sync-keeps}

module _ {C P : Type 0} (I : List Event → Type 0) where
  -- However `m` exits, `I` holds of the log after it if it held before.
  pub record Keeps {A : Type 0} (m : M C P A) : Type 0 where
    pub at : (w : World C P) → I w.log → I (m w).1.log

module _ {C P A : Type 0} {I : List Event → Type 0} where
  pub Keeps-pure : (a : A) → Keeps {C = C} {P = P} I (pure a)
  Keeps-pure a = record { at = λ w h. h }

  pub Keeps-throw : (e : Error) → Keeps {C = C} {P = P} I (throw {A = A} e)
  Keeps-throw e = record { at = λ w h. h }

  pub Keeps-check : (r : Result A) → Keeps {C = C} {P = P} I (check r)
  Keeps-check (ok a) = record { at = λ w h. h }
  Keeps-check (err e) = record { at = λ w h. h }

  pub Keeps-deref : (o : Option A) → Keeps {C = C} {P = P} I (deref o)
  Keeps-deref none = record { at = λ w h. h }
  Keeps-deref (some a) = record { at = λ w h. h }

  pub Keeps-read : (call : Call C A) → Keeps {C = C} {P = P} I (read call)
  Keeps-read call = record { at = λ w h. h }

  pub Keeps-logged :
      (entry : Result A → Event) (call : Call C A)
      → ((r : Result A) (l : List Event) → I l → I (entry r ∷ l))
      → Keeps {C = C} {P = P} I (logged entry call)
  Keeps-logged entry call k = record { at = λ w h. k (call w.api).0 w.log h }

  pub Keeps-ask :
      (entry : Result A → Event) (call : Call P A)
      → ((r : Result A) (l : List Event) → I l → I (entry r ∷ l))
      → Keeps {C = C} {P = P} I (ask entry call)
  Keeps-ask entry call k = record { at = λ w h. k (call w.provider).0 w.log h }

  pub Keeps-if : (b : Bool) (m n : M C P A) → Keeps I m → Keeps I n → Keeps I (if b then m else n)
  Keeps-if true m n km kn = km
  Keeps-if false m n km kn = kn

module _ {C P : Type 0} {I : List Event → Type 0} where
  pub Keeps-warn :
      (text : String)
      → ((t : String) (l : List Event) → I l → I (warned t ∷ l))
      → Keeps {C = C} {P = P} I (warn text)
  Keeps-warn text k = record { at = λ w h. k text w.log h }

module _ {C P A B : Type 0} {I : List Event → Type 0} where
  Keeps-continue :
      (r : Exit A) (f : A → M C P B) → ((a : A) → Keeps I (f a)) → Keeps I (continue r f)
  Keeps-continue (done a) f k = k a
  Keeps-continue (fail e) f k = record { at = λ w h. h }
  Keeps-continue panic f k = record { at = λ w h. h }

  pub Keeps-bind :
      (m : M C P A) (f : A → M C P B) → Keeps I m → ((a : A) → Keeps I (f a)) → Keeps I (m >>= f)
  Keeps-bind m f km kf = record {
    at = λ w h. let (r, w') = m w in (Keeps-continue r f kf).at w' (km.at w h);
  }

module _ {C P O : Type 0} {I : List Event → Type 0} where
  pub Keeps-sync :
      (s : StatusWrite C O) (retry : Retry) (o : O)
      → ((x : O) (r : Result O) (l : List Event) → I l → I (s.updated x r ∷ l))
      → ((r : Result O) (l : List Event) → I l → I (s.got r ∷ l))
      → Keeps {C = C} {P = P} I (sync s retry o)
  Keeps-sync s retry o ku kg = record { at = λ w h. sync-keeps s retry I ku kg o w h }

pub ruleset keeps_rules = (
  Keeps-pure, Keeps-throw, Keeps-check, Keeps-deref, Keeps-read, Keeps-logged, Keeps-ask, Keeps-if,
  Keeps-warn, Keeps-bind, Keeps-sync,
)
