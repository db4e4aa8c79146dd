-- ===== src/Platform/StatusSync/Outcome.antt =====
-- What a call of `sync` has done when it returns.
use multicluster_cloud_provi.Prelude.{
  ◌≡◌, refl, sym, ap, ◌∙◌, inl, inr, true, List, ◌∷◌, In, arith, Bool-cases,
}
use multicluster_cloud_provi.Api.{Error, conflict, Result, ok, err, Result-cases}
use multicluster_cloud_provi.Platform.Effects.{Exit, done, fail}
use multicluster_cloud_provi.Platform.Components.{Call, Event, World}
use multicluster_cloud_provi.Platform.Retry.{Retry, Attempts-ends}
use multicluster_cloud_provi.Platform.StatusSync.{
  current, Syncing, StatusWrite, attempt, start, sync,
}
use multicluster_cloud_provi.Platform.StatusSync.Attempt.{
  written_object, answer, attempt_settled, attempt_ok, attempt_conflict, refetch_ok, refetch_err,
  result_done,
}

module _ {C O : Type 0} (get : Call C O) (got : Result O → Event) where
  -- Where an object comes from: it is the caller's, or an answer to this Get that is in the log.
  pub data Provenance (o x : O) (l : List Event) : Type 0 where
    given : x ≡ o → Provenance o x l
    fetched : (c : C) → (get c).0 ≡ ok x → In (got (ok x)) l → Provenance o x l

  older : {o x : O} {l : List Event} (e : Event) → Provenance o x l → Provenance o x (e ∷ l)
  older e (given p) = given p
  older e (fetched c g i) = fetched c g (inr i)

module _ {C O : Type 0} (s : StatusWrite C O) where
  abbrev pub Known : O → O → List Event → Type 0
  Known = Provenance s.get s.got

  -- Why a call that returned no error did so, from the log before it and the log after it.
  pub data Synced (o : O) (before after : List Event) : Type 0 where
    -- the caller's object needed no write
    unchanged : s.settled o ≡ true → after ≡ before → Synced o before after
    -- the last call wrote the status
    written :
        (x y : O) (c : C) (l : List Event)
        → Known o x l
        → (s.update (s.assigned x) c).0 ≡ ok y
        → after ≡ s.updated (s.assigned x) (ok y) ∷ l
        → Synced o before after
    -- after a conflict the refetched object needed no write
    superseded :
        (x y : O) (c : C) (l : List Event)
        → Known o x l
        → (s.get c).0 ≡ ok y
        → s.settled y ≡ true
        → after ≡ s.got (ok y) ∷ s.updated (s.assigned x) (err conflict) ∷ l
        → Synced o before after
    -- after a conflict the refetch failed, and the unsaved object was taken for the stored one
    lost :
        (x : O) (e : Error) (l : List Event)
        → Known o x l
        → s.settled (s.assigned x) ≡ true
        → after ≡ s.got (err e) ∷ s.updated (s.assigned x) (err conflict) ∷ l
        → Synced o before after

module _ {C P O : Type 0} (s : StatusWrite C O)
    (twice : (x : O) → s.assigned (s.assigned x) ≡ s.assigned x) where
  -- The states in which the closure is called.
  data Before (o : O) (w : World C P) (t : Syncing C P O) : Type 0 where
    first : t ≡ start s o w → Before o w t
    refetched :
        (x y : O) (c : C) (l : List Event)
        → Known s o x l
        → (s.get c).0 ≡ ok y
        → current t.cursor ≡ y
        → t.world.log ≡ s.got (ok y) ∷ s.updated (s.assigned x) (err conflict) ∷ l
        → Before o w t
    not_refetched :
        (x : O) (e : Error) (l : List Event)
        → Known s o x l
        → current t.cursor ≡ s.assigned x
        → t.world.log ≡ s.got (err e) ∷ s.updated (s.assigned x) (err conflict) ∷ l
        → Before o w t

  -- The object that is sent is the assignment of one whose origin is known.
  source :
      (o : O) (w : World C P) (t : Syncing C P O)
      → Before o w t
      → (x : O) × (written_object s t ≡ s.assigned x) × Known s o x t.world.log
  source o w t (first e) =
      (o, ap (λ (t : Syncing C P O). s.assigned (current t.cursor)) e, given refl)
  source o w t (refetched x y c l i g e p) = (y, ap s.assigned e, fetched c g (rw p (inl refl)))
  source o w t (not_refetched x e l i q p) =
      (x, ap s.assigned q ∙ twice x, rw p (older s.get s.got _ (older s.get s.got _ i)))

  attempt-Before :
      (o : O) (w : World C P) (t : Syncing C P O)
      → Before o w t
      → (attempt s t).0 ≡ fail conflict
      → Before o w (attempt s t).1
  attempt-Before o w t b h = elim (Bool-cases (s.settled (current t.cursor))) [
    | inl e ↦ absurd (ground (arith, attempt_settled s t e))
    | inr n ↦ elim (Result-cases (answer s t).0) [
      | inl (y, e) ↦ absurd (ground (arith, (attempt_ok s t n y e).0))
      | inr (f, e) ↦
          let (failed, log) = attempt_conflict s t n f e in
          let (x, sent, i) = source o w t b in
          let same : f ≡ conflict = ground arith in
          elim (Result-cases (s.get (answer s t).1).0) [
            | inl (y, g) ↦
                refetched x y (answer s t).1 t.world.log i g (refetch_ok s t n f y e g)
                  (cc (log, g, same, sent))
            | inr (k, g) ↦
                not_refetched x k t.world.log i (refetch_err s t n f k e g ∙ sent)
                  (cc (log, g, same, sent))
          ]
    ]
  ]

  settled-Synced :
      (o : O) (w : World C P) (t : Syncing C P O)
      → s.settled (current t.cursor) ≡ true
      → Before o w t
      → Synced s o w.log t.world.log
  settled-Synced o w t h (first e) =
      unchanged (rw e at h) (ap (λ (x : Syncing C P O). x.world.log) e)
  settled-Synced o w t h (refetched x y c l i g e p) = superseded x y c l i g (rw e at h) p
  settled-Synced o w t h (not_refetched x e l i q p) = lost x e l i (rw q at h) p

  attempt-Synced :
      (o : O) (w : World C P) (t : Syncing C P O)
      → (attempt s t).0 ≡ done tt
      → Before o w t
      → Synced s o w.log (attempt s t).1.world.log
  attempt-Synced o w t h b = elim (Bool-cases (s.settled (current t.cursor))) [
    | inl e ↦ rw (attempt_settled s t e) (settled-Synced o w t e b)
    | inr n ↦ elim (Result-cases (answer s t).0) [
      | inl (y, e) ↦
          let (x, sent, i) = source o w t b in
          written x y t.world.api t.world.log i
            (ap (λ z. (s.update z t.world.api).0) (sym sent) ∙ e)
            ((attempt_ok s t n y e).1 ∙ ap (λ z. s.updated z (ok y) ∷ t.world.log) sent)
      | inr (f, e) ↦ absurd (ground (arith, (attempt_conflict s t n f e).0))
    ]
  ]

  -- When the status is written through the retries and no error is returned, the caller's object
  -- needed no write, or the last call wrote the status, or after a conflict a refetched object
  -- needed none, or after a conflict the refetch failed and the status stays unwritten. What is
  -- written is the caller's object, or one that the closure has got, with the new status.
  pub sync-Synced :
      (retry : Retry) (o o' : O) (w : World C P)
      → (sync s retry o w).0 ≡ done o'
      → Synced s o w.log (sync s retry o w).1.log
  unfolding sync
  sync-Synced retry o o' w h =
      let r = retry.on_conflict (Syncing C P O) (attempt s) (start s o w) in
      let (finished, same) = result_done s r o' h in
      let (t, b, e) =
        Attempts-ends (attempt s) (Before o w) (attempt-Before o w)
          (retry.attempts (Syncing C P O) (attempt s) (start s o w)) (first refl) in
      rw (ap (λ (x : World C P). x.log) same) (
        rw (ap (λ (x : Exit (Unit {0}) × Syncing C P O). x.1.world.log) e) (
          attempt-Synced o w t
            (ap (λ (x : Exit (Unit {0}) × Syncing C P O). x.0) (sym e) ∙ finished) b))
