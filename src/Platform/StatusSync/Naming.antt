-- ===== src/Platform/StatusSync/Naming.antt =====
-- The retried closure leaves the provider alone, and the caller's object keeps its name if the
-- answers of the API server do.
use multicluster_cloud_provi.Prelude.{◌≡◌, Option, none, some, inl, inr, Bool-cases}
use multicluster_cloud_provi.Api.{ok, Result-cases}
use multicluster_cloud_provi.Platform.Effects.{Exit, done, fail, panic}
use multicluster_cloud_provi.Platform.Components.{World}
use multicluster_cloud_provi.Platform.Retry.{Retry, Attempts-keeps}
use multicluster_cloud_provi.Platform.Ends.{After, Ends}
use multicluster_cloud_provi.Platform.StatusSync.{
  Syncing, StatusWrite, attempt, result, start, sync,
}

module _ {C P O : Type 0} (s : StatusWrite C O) (I : P → Type 0) (Named : O → Type 0)
    (assigned : (o : O) → Named o → Named (s.assigned o))
    (updated : (o x : O) (c : C) → Named o → (s.update o c).0 ≡ ok x → Named x) where
  -- The caller's object is named, whatever the variable points to.
  abbrev Inside : Syncing C P O → Type 0
  Inside t = Named t.cursor.caller × I t.world.provider

  attempt_lem :
      (o : O) (r : Option O) (w : World C P)
      → Named o
      → I w.provider
      → Inside (attempt s (record { cursor = record { caller = o; refetched = r }; world = w })).1
  unfolding attempt
  attempt_lem o none w n i = elim (Bool-cases (s.settled o)) [
    | inl e ↦ rw e (n, i)
    | inr d ↦ elim (Result-cases (s.update (s.assigned o) w.api).0) [
      | inl (x, e) ↦ rw (d, e) (updated (s.assigned o) x w.api (assigned o n) e, i)
      | inr (f, e) ↦ elim (Result-cases (s.get (s.update (s.assigned o) w.api).1).0) [
        | inl (y, g) ↦ rw (d, e, g) (assigned o n, i)
        | inr (k, g) ↦ rw (d, e, g) (assigned o n, i)
      ]
    ]
  ]
  attempt_lem o (some y) w n i = elim (Bool-cases (s.settled y)) [
    | inl e ↦ rw e (n, i)
    | inr d ↦ elim (Result-cases (s.update (s.assigned y) w.api).0) [
      | inl (x, e) ↦ rw (d, e) (n, i)
      | inr (f, e) ↦ elim (Result-cases (s.get (s.update (s.assigned y) w.api).1).0) [
        | inl (z, g) ↦ rw (d, e, g) (n, i)
        | inr (k, g) ↦ rw (d, e, g) (n, i)
      ]
    ]
  ]

  attempt-Inside : (t : Syncing C P O) → Inside t → Inside (attempt s t).1
  attempt-Inside t (n, i) = attempt_lem t.cursor.caller t.cursor.refetched t.world n i

  result-Ends :
      (r : Exit (Unit {0}) × Syncing C P O)
      → Inside r.1
      → After (λ o p. Named o × I p) I (result s r).0 (result s r).1.provider
  unfolding result
  result-Ends (done u, t) h = h
  result-Ends (fail e, t) (n, i) = i
  result-Ends (panic, t) (n, i) = i

  pub Ends-sync :
      (retry : Retry) (o : O) → Named o → Ends I (sync s retry o) (λ x p. Named x × I p) I
  unfolding sync
  Ends-sync retry o n = record {
    at = λ w i. result-Ends (retry.on_conflict (Syncing C P O) (attempt s) (start s o w)) (
        Attempts-keeps (attempt s) Inside attempt-Inside
          (retry.attempts (Syncing C P O) (attempt s) (start s o w)) (n, i));
  }
