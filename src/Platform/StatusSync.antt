-- ===== src/Platform/StatusSync.antt =====
-- The closure that the controllers pass to retry.RetryOnConflict to write a status, and the whole
-- call. The closure assigns the captured variable, which first is the caller's object and after a
-- successful refetch a new one; an update that succeeds stores the answer into its argument.

pub mod Attempt
pub mod Outcome
pub mod Saved
pub mod Naming
use multicluster_cloud_provi.Prelude.{Bool, Option, none, some, List, [], ◌∷◌, if◌then◌else◌}
use multicluster_cloud_provi.Api.{Result, ok, err}
use multicluster_cloud_provi.Platform.Effects.{
  Exit, done, fail, panic, Action, pure, throw, ◌>>=◌, ◌>>◌,
}
use multicluster_cloud_provi.Platform.Components.{Call, Event, World, M, logged}
use multicluster_cloud_provi.Platform.Retry.{Retry}

-- The caller's object, and the object that the variable points to if that is another one.
pub record Cursor (O : Type 0) : Type 0 where
  pub caller : O
  pub refetched : Option O

module _ {O : Type 0} where
  abbrev pub current : Cursor O → O
  current c = elim c.refetched [ none ↦ c.caller | some o ↦ o ]

  -- *v = o
  abbrev pub store : Cursor O → O → Cursor O
  store c o = elim c.refetched [
    | none ↦ record c { caller = o }
    | some _ ↦ record c { refetched = some o }
  ]

  -- v = &o
  abbrev point : Cursor O → O → Cursor O
  point c o = record c { refetched = some o }

pub record Syncing (C P O : Type 0) : Type 0 where
  pub cursor : Cursor O
  pub world : World C P

module _ {C P O : Type 0} where
  abbrev local : Action (Syncing C P O) (Cursor O)
  local s = (done s.cursor, s)

  abbrev assign : Cursor O → Action (Syncing C P O) (Unit {0})
  assign c s = (done tt, record s { cursor = c })

  abbrev on_world : {A : Type 0} → M C P A → Action (Syncing C P O) A
  on_world m s = let (r, w) = m s.world in (r, record s { world = w })

-- What the closures differ in: the test that skips the write, the assignment of the status, the two
-- calls of the client, and their entries in the log.
pub record StatusWrite (C O : Type 0) : Type 0 where
  pub settled : O → Bool
  pub assigned : O → O
  pub update : O → Call C O
  pub updated : O → Result O → Event
  pub get : Call C O
  pub got : Result O → Event

module _ {C P O : Type 0} (s : StatusWrite C O) where
  refetch : Result O → Cursor O → Action (Syncing C P O) (Unit {0})
  refetch (ok o) c = assign (point c o)
  refetch (err e) c = pure tt

  finish : Result O → Cursor O → Action (Syncing C P O) (Unit {0})
  unfolding refetch
  finish (ok o) c = assign (store c o)
  finish (err e) c = do fetched ← on_world (logged s.got s.get); refetch fetched c; throw e

  unfoldable pub attempt : Action (Syncing C P O) (Unit {0})
  unfolding finish
  attempt = do
    c ← local
    if s.settled (current c) then pure tt else do
      let o = s.assigned (current c)
      assign (store c o)
      answer ← on_world (logged (s.updated o) (s.update o))
      finish answer (store c o)

  unfoldable pub result : Exit (Unit {0}) × Syncing C P O → Exit O × World C P
  result (done _, t) = (done t.cursor.caller, t.world)
  result (fail e, t) = (fail e, t.world)
  result (panic, t) = (panic, t.world)

  abbrev pub start : O → World C P → Syncing C P O
  start o w = record { cursor = record { caller = o; refetched = none }; world = w }

  -- The whole call, with what it leaves in the caller's object.
  unfoldable pub sync : Retry → O → M C P O
  unfolding attempt result
  sync retry o w = result (retry.on_conflict (Syncing C P O) attempt (start o w))
