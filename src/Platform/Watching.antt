-- ===== src/Platform/Watching.antt =====
-- The event handlers and watches of controller-runtime, which the controllers register when they
-- are set up. The manager is a parameter; what it has accepted is kept beside its state.
use multicluster_cloud_provi.Prelude.{
  ◌≡◌, sym, ap, ◌∙◌, inl, inr, String, Bool, List, [], ◌∷◌, ◌++◌,
}
use multicluster_cloud_provi.Api.{
  Result, ok, err, Result-cases, MultiClusterIngress, MultiClusterService, Service, EndpointSlice,
  Secret, Cluster, ResourceBinding,
}
use multicluster_cloud_provi.Platform.Effects.{Action, done, pure, ◌>>◌, check}
use multicluster_cloud_provi.Platform.Components.{Call, M}
use mathlib.Core.List.{append-nil, append_assoc}

-- TypedEventHandler
pub record EventHandler (C P A : Type 0) : Type 0 where
  pub create : A → M C P (Unit {0})
  pub update : A → A → M C P (Unit {0})
  pub delete : A → M C P (Unit {0})
  pub generic : A → M C P (Unit {0})

-- What arrives at a source.
pub data Incoming (A : Type 0) : Type 0 where
  created deleted sent : A → Incoming A
  updated : A → A → Incoming A

-- source.Kind and source.Channel
pub data Origin : Type 0 where
  kind channel : Origin

-- The argument of Watch.
pub data Watch (C P : Type 0) : Type 0 where
  mcis : Origin → EventHandler C P MultiClusterIngress → Watch C P
  mcss : Origin → EventHandler C P MultiClusterService → Watch C P
  services : Origin → EventHandler C P Service → Watch C P
  slices : Origin → EventHandler C P EndpointSlice → Watch C P
  secrets : Origin → EventHandler C P Secret → Watch C P
  clusters : Origin → EventHandler C P Cluster → Watch C P
  bindings : Origin → EventHandler C P ResourceBinding → Watch C P

module _ {C P A : Type 0} where
  abbrev handle : EventHandler C P A → Incoming A → M C P (Unit {0})
  handle h (created a) = h.create a
  handle h (deleted a) = h.delete a
  handle h (sent a) = h.generic a
  handle h (updated a b) = h.update a b

  -- What arrives at a source reaches each handler of the source.
  abbrev pub deliver : List (EventHandler C P A) → Incoming A → M C P (Unit {0})
  deliver [] i = pure tt
  deliver (h ∷ hs) i = do handle h i; deliver hs i

abbrev pub from : {A : Type 0} → Origin → Origin → A → List A → List A
from kind kind a as' = a ∷ as'
from channel channel a as' = a ∷ as'
from _ _ a as' = as'

-- The handlers of a source.
module _ {C P : Type 0} (o : Origin) where
  abbrev pub mci_handlers : List (Watch C P) → List (EventHandler C P MultiClusterIngress)
  mci_handlers [] = []
  mci_handlers (mcis p h ∷ ws) = from o p h (mci_handlers ws)
  mci_handlers (_ ∷ ws) = mci_handlers ws

  abbrev pub mcs_handlers : List (Watch C P) → List (EventHandler C P MultiClusterService)
  mcs_handlers [] = []
  mcs_handlers (mcss p h ∷ ws) = from o p h (mcs_handlers ws)
  mcs_handlers (_ ∷ ws) = mcs_handlers ws

  abbrev pub service_handlers : List (Watch C P) → List (EventHandler C P Service)
  service_handlers [] = []
  service_handlers (services p h ∷ ws) = from o p h (service_handlers ws)
  service_handlers (_ ∷ ws) = service_handlers ws

  abbrev pub slice_handlers : List (Watch C P) → List (EventHandler C P EndpointSlice)
  slice_handlers [] = []
  slice_handlers (slices p h ∷ ws) = from o p h (slice_handlers ws)
  slice_handlers (_ ∷ ws) = slice_handlers ws

  abbrev pub binding_handlers : List (Watch C P) → List (EventHandler C P ResourceBinding)
  binding_handlers [] = []
  binding_handlers (bindings p h ∷ ws) = from o p h (binding_handlers ws)
  binding_handlers (_ ∷ ws) = binding_handlers ws

-- controllerruntime.Manager: controller.New with the name, and Watch of the controller.
pub record Manager (S C P : Type 0) : Type 0 where
  pub new_controller : String → Call S (Unit {0})
  pub watch : Watch C P → Call S (Unit {0})

-- The state of the manager, and the watches that it has accepted.
pub record Managed (S C P : Type 0) : Type 0 where
  pub state : S
  pub watches : List (Watch C P)

module _ {S C P : Type 0} (mgr : Manager S C P) where
  abbrev create_controller : String → Action (Managed S C P) (Unit {0})
  create_controller name m =
      let (r, s) = mgr.new_controller name m.state in check r (record m { state = s })

  abbrev accepted : Result (Unit {0}) → Watch C P → List (Watch C P) → List (Watch C P)
  accepted (ok u) w ws = ws ++ w ∷ []
  accepted (err e) w ws = ws

  abbrev register : Watch C P → Action (Managed S C P) (Unit {0})
  register w m =
      let (r, s) = mgr.watch w m.state in
      check r (record { state = s; watches = accepted r w m.watches })

  -- Calls of Watch one after the other; the first error is returned.
  unfoldable pub watch_all : List (Watch C P) → Action (Managed S C P) (Unit {0})
  watch_all [] = pure tt
  watch_all (w ∷ ws) = do register w; watch_all ws

  -- If no call fails, the manager has accepted all the watches.
  watch_all_lem :
      (ws : List (Watch C P)) (m : Managed S C P)
      → (watch_all ws m).0 ≡ done tt
      → (watch_all ws m).1.watches ≡ m.watches ++ ws
  unfolding watch_all
  watch_all_lem [] m h = sym (append-nil m.watches)
  watch_all_lem (w ∷ ws) m h = elim (Result-cases (mgr.watch w m.state).0) [
    | inl (u, e) ↦
        let m' : Managed S C P = record {
          state = (mgr.watch w m.state).1;
          watches = m.watches ++ w ∷ [];
        } in
        rw e (watch_all_lem ws m' (rw e at h) ∙ append_assoc m.watches (w ∷ []) ws)
    | inr (f, e) ↦ absurd (cc (rw e at h))
  ]

  -- controller.New with the name, and then the watches. Each error is returned.
  unfoldable pub set_up : String → List (Watch C P) → Action (Managed S C P) (Unit {0})
  set_up name ws = do create_controller name; watch_all ws

  pub set_up_lem :
      (name : String) (ws : List (Watch C P)) (m : Managed S C P)
      → m.watches ≡ []
      → (set_up name ws m).0 ≡ done tt
      → (set_up name ws m).1.watches ≡ ws
  unfolding set_up
  set_up_lem name ws m e h = elim (Result-cases (mgr.new_controller name m.state).0) [
    | inl (u, c) ↦
        let m' : Managed S C P = record m { state = (mgr.new_controller name m.state).1 } in
        rw c (watch_all_lem ws m' (rw c at h) ∙ ap (λ l. l ++ ws) e)
    | inr (f, c) ↦ absurd (cc (rw c at h))
  ]

  -- The calls of Watch succeed one after the other, from this state of the manager on.
  abbrev AcceptsAll : List (Watch C P) → S → Type 0
  AcceptsAll [] s = Unit
  AcceptsAll (w ∷ ws) s = ((mgr.watch w s).0 ≡ ok tt) × AcceptsAll ws (mgr.watch w s).1

  -- The manager makes the controller, and then accepts each of its watches.
  abbrev pub Accepts : String → List (Watch C P) → S → Type 0
  Accepts name ws s =
      ((mgr.new_controller name s).0 ≡ ok tt) × AcceptsAll ws (mgr.new_controller name s).1

  AcceptsAll-watch_all :
      (ws : List (Watch C P)) (m : Managed S C P)
      → (watch_all ws m).0 ≡ done tt
      → AcceptsAll ws m.state
  unfolding watch_all
  AcceptsAll-watch_all [] m h = tt
  AcceptsAll-watch_all (w ∷ ws) m h = elim (Result-cases (mgr.watch w m.state).0) [
    | inl (u, e) ↦
        let m' : Managed S C P = record {
          state = (mgr.watch w m.state).1;
          watches = m.watches ++ w ∷ [];
        } in
        (e, AcceptsAll-watch_all ws m' (rw e at h))
    | inr (f, e) ↦ absurd (cc (rw e at h))
  ]

  pub Accepts-set_up :
      (name : String) (ws : List (Watch C P)) (m : Managed S C P)
      → (set_up name ws m).0 ≡ done tt
      → Accepts name ws m.state
  unfolding set_up
  Accepts-set_up name ws m h = elim (Result-cases (mgr.new_controller name m.state).0) [
    | inl (u, c) ↦
        let m' : Managed S C P = record m { state = (mgr.new_controller name m.state).1 } in
        (c, AcceptsAll-watch_all ws m' (rw c at h))
    | inr (f, c) ↦ absurd (cc (rw c at h))
  ]

-- predicate.Funcs
pub record Predicate (A : Type 0) : Type 0 where
  pub on_create : A → Bool
  pub on_update : A → A → Bool
  pub on_delete : A → Bool
  pub on_generic : A → Bool

abbrev pub passes : {A : Type 0} → Predicate A → Incoming A → Bool
passes p (created a) = p.on_create a
passes p (updated a b) = p.on_update a b
passes p (deleted a) = p.on_delete a
passes p (sent a) = p.on_generic a

-- The object that an event is about, after an update the new one.
abbrev pub subject : {A : Type 0} → Incoming A → A
subject (created a) = a
subject (updated a b) = b
subject (deleted a) = a
subject (sent a) = a
