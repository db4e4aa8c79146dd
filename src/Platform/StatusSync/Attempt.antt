-- ===== src/Platform/StatusSync/Attempt.antt =====
-- One call of the retried closure, and what the whole call keeps and loses.
use multicluster_cloud_provi.Prelude.{
  ◌≡◌, refl, ap, ◌∙◌, inl, inr, true, false, List, ◌∷◌, arith, Bool-cases,
}
use multicluster_cloud_provi.Api.{Error, conflict, Result, ok, err, Result-cases}
use multicluster_cloud_provi.Platform.Effects.{Exit, done, fail, panic}
use multicluster_cloud_provi.Platform.Components.{Event, World}
use multicluster_cloud_provi.Platform.Retry.{Retry, Attempts-keeps, Attempts-done}
use multicluster_cloud_provi.Platform.StatusSync.{
  current, Syncing, StatusWrite, attempt, result, start, sync,
}

module _ {C P O : Type 0} (s : StatusWrite C O) where
  module _ (t : Syncing C P O) where
    abbrev pub written_object : O
    written_object = s.assigned (current t.cursor)

    abbrev pub answer : Result O × C
    answer = s.update written_object t.world.api

    pub attempt_settled : s.settled (current t.cursor) ≡ true → attempt s t ≡ (done tt, t)
    unfolding attempt
    attempt_settled h = rw h

    module _ (h : s.settled (current t.cursor) ≡ false) where
      pub attempt_ok :
          (y : O)
          → answer.0 ≡ ok y
          → ((attempt s t).0 ≡ done tt)
            × ((attempt s t).1.world.log ≡ s.updated written_object (ok y) ∷ t.world.log)
      unfolding attempt
      attempt_ok y e = (rw h (ground arith), rw h (ground arith))

      pub attempt_conflict :
          (e : Error)
          → answer.0 ≡ err e
          → ((attempt s t).0 ≡ fail e)
            × ((attempt s t).1.world.log
                ≡ s.got (s.get answer.1).0 ∷ s.updated written_object (err e) ∷ t.world.log)
      unfolding attempt
      attempt_conflict e p = (rw h (ground arith), rw h (ground arith))

      pub refetch_ok :
          (e : Error) (y : O)
          → answer.0 ≡ err e
          → (s.get answer.1).0 ≡ ok y
          → current (attempt s t).1.cursor ≡ y
      unfolding attempt
      refetch_ok e y p q = rw h (ground arith)

      pub refetch_err :
          (e f : Error)
          → answer.0 ≡ err e
          → (s.get answer.1).0 ≡ err f
          → current (attempt s t).1.cursor ≡ written_object
      unfolding attempt
      refetch_err e f p q = rw h (ground arith)

  unsaved_caller :
      (o : O) (e : Error) (w : World C P)
      → s.settled o ≡ false
      → (answer (start s o w)).0 ≡ err conflict
      → (s.get (answer (start s o w)).1).0 ≡ err e
      → (attempt s (start s o w)).1.cursor.caller ≡ s.assigned o
  unfolding attempt
  unsaved_caller o e w n p q = rw n (ground arith)

  pub result_done :
      (r : Exit (Unit {0}) × Syncing C P O) (o : O)
      → (result s r).0 ≡ done o
      → (r.0 ≡ done tt) × ((result s r).1 ≡ r.1.world)
  unfolding result
  result_done (done _, t) o h = (refl, refl)
  result_done (fail e, t) o h = cc
  result_done (panic, t) o h = cc

  attempt-keeps :
      (I : List Event → Type 0)
      → ((x : O) (r : Result O) (l : List Event) → I l → I (s.updated x r ∷ l))
      → ((r : Result O) (l : List Event) → I l → I (s.got r ∷ l))
      → (t : Syncing C P O) → I t.world.log
      → I (attempt s t).1.world.log
  attempt-keeps I keep_updated keep_got t i = elim (Bool-cases (s.settled (current t.cursor))) [
    | inl e ↦ rw (attempt_settled t e) i
    | inr n ↦ elim (Result-cases (answer t).0) [
      | inl (y, e) ↦
          rw ((attempt_ok t n y e).1) (keep_updated (written_object t) (ok y) t.world.log i)
      | inr (f, e) ↦ rw ((attempt_conflict t n f e).1) (
          keep_got (s.get (answer t).1).0 (s.updated (written_object t) (err f) ∷ t.world.log)
            (keep_updated (written_object t) (err f) t.world.log i))
    ]
  ]

  result_world : (r : Exit (Unit {0}) × Syncing C P O) → (result s r).1 ≡ r.1.world
  unfolding result
  result_world (done _, t) = refl
  result_world (fail e, t) = refl
  result_world (panic, t) = refl

  -- What the entries of the closure keep, the whole call keeps.
  pub sync-keeps :
      (retry : Retry) (I : List Event → Type 0)
      → ((x : O) (r : Result O) (l : List Event) → I l → I (s.updated x r ∷ l))
      → ((r : Result O) (l : List Event) → I l → I (s.got r ∷ l))
      → (o : O) (w : World C P) → I w.log
      → I (sync s retry o w).1.log
  unfolding sync
  sync-keeps retry I keep_updated keep_got o w i =
      rw
        (ap (λ (x : World C P). x.log)
          (result_world (retry.on_conflict (Syncing C P O) (attempt s) (start s o w))))
        (Attempts-keeps (attempt s) (λ t. I t.world.log) (attempt-keeps I keep_updated keep_got)
          (retry.attempts (Syncing C P O) (attempt s) (start s o w)) i)

  -- A status that the write would settle is lost, and no error is returned, when the first update
  -- meets a conflict and the refetch fails: the log shows nothing else.
  pub sync-lost :
      (retry : Retry) (o : O) (e : Error) (w : World C P)
      → s.settled o ≡ false
      → s.settled (s.assigned o) ≡ true
      → (s.update (s.assigned o) w.api).0 ≡ err conflict
      → (s.get (s.update (s.assigned o) w.api).1).0 ≡ err e
      → ((sync s retry o w).0 ≡ done (s.assigned o))
        × ((sync s retry o w).1.log
            ≡ s.got (err e) ∷ s.updated (s.assigned o) (err conflict) ∷ w.log)
  unfolding sync result
  sync-lost retry o e w n h c g =
      let t = start s o w in
      let u = (attempt s t).1 in
      let (failed, log) = attempt_conflict t n conflict c in
      let unsaved = refetch_err t n conflict e c g in
      let finished = attempt_settled u (rw unsaved h) in
      let whole =
        Attempts-done (attempt s) (ap (λ (r : Exit (Unit {0}) × Syncing C P O). r.0) finished)
          (retry.retries (Syncing C P O) (attempt s) t failed)
        ∙ finished in
      let kept = unsaved_caller o e w n c g in
      (
        rw (ap (λ r. (result s r).0) whole) (ap done kept),
        rw (ap (λ r. (result s r).1.log) whole)
            (log ∙ ap (λ r. s.got r ∷ s.updated (s.assigned o) (err conflict) ∷ w.log) g),
      )
