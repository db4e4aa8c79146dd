-- ===== src/Startup.antt =====
-- pkg/controllers/context/context.go: which controllers are enabled, and how they are started.
pub mod Started
use Prim.Native.String.{◌++◌ as str_append, count}
use text.Mathlib.TextLemmas.{length-append}
use mathlib.Core.List.{append-nil}
use multicluster_cloud_provi.Prelude.{
  ◌+◌, ◌≡◌, ◌≢◌, refl, sym, ap, ◌∙◌, inl, inr, String, Bool, true, false, not, ◌&&◌, ◌||◌, List, [],
  ◌∷◌, ◌++◌, arith, if◌then◌else◌, str_eq, eq_iff, eq_refl, contains, Bool-cases,
}
use multicluster_cloud_provi.Platform.Helpers.{StringSets, insert_all}
use multicluster_cloud_provi.Platform.{Action, done, pure, ◌>>=◌}

-- The loop of IsControllerEnabled, with the value of `hasStar` so far; `disabled` says whether the
-- controller is disabled by default.
unfoldable pub enabled_loop : Bool → Bool → List String → String → Bool
enabled_loop disabled has_star [] name = if not has_star then false else not disabled
enabled_loop disabled has_star (c ∷ cs) name =
    let rest = enabled_loop disabled (has_star || str_eq c "*") cs name in
    if str_eq c name then true else (if str_eq c (str_append "-" name) then false else rest)

-- IsControllerEnabled
unfoldable pub is_controller_enabled : List String → Bool → String → Bool
unfolding enabled_loop
is_controller_enabled controllers disabled name = enabled_loop disabled false controllers name

-- InitFunc, on the state of the process: it says whether it has started the controller.
abbrev pub InitFunc : Type 0 → Type 0
InitFunc S = Action S Bool

-- Initializers, in the order in which the range visits the map.
abbrev pub Initializers : Type 0 → Type 0
Initializers S = List (String × InitFunc S)

unfoldable pub names_of : {S : Type 0} → Initializers S → List String
names_of [] = []
names_of ((name, init) ∷ rest) = name ∷ names_of rest

-- ControllerNames
unfoldable pub controller_names : {S : Type 0} → StringSets → Initializers S → List String
unfolding names_of
controller_names sets is = sets.list (insert_all sets sets.new (names_of is))

-- StartControllers. What an initializer says about the start is only logged.
module _ {S : Type 0} (controllers : List String) (disabled_by_default : String → Bool) where
  unfoldable pub start_controllers : Initializers S → Action S (Unit {0})
  unfolding is_controller_enabled
  start_controllers [] = pure tt
  start_controllers ((name, init) ∷ rest) =
      if not (is_controller_enabled controllers (disabled_by_default name) name)
      then start_controllers rest
      else (do started ← init; start_controllers rest)

-- The list says nothing about the name, neither for it nor against it.
abbrev Unmentioned : List String → String → Type 0
Unmentioned cs name = (contains cs name ≡ false) × (contains cs (str_append "-" name) ≡ false)

dash_differs : (name : String) → str_append "-" name ≢ name
dash_differs name e =
    let longer : count (str_append "-" name) ≡ 1 + count name = length-append "-" name in
    let same : count (str_append "-" name) ≡ count name = ap count e in omega arith

or_false : (a : Bool) → a ≡ (a || false)
or_false a = ground arith

or_assoc : (a b c : Bool) → ((a || b) || c) ≡ (a || (b || c))
or_assoc a b c = ground arith

loop_lem :
    (disabled has_star : Bool) (before rest : List String) (name : String)
    → Unmentioned before name
    → enabled_loop disabled has_star (before ++ rest) name
      ≡ enabled_loop disabled (has_star || contains before "*") rest name
unfolding enabled_loop
loop_lem disabled has_star [] rest name u =
    ap (λ b. enabled_loop disabled b rest name) (or_false has_star)
loop_lem disabled has_star (c ∷ cs) rest name u =
    let not_name : str_eq c name ≡ false = ground arith in
    let not_dash : str_eq c (str_append "-" name) ≡ false = ground arith in
    let unmentioned : Unmentioned cs name = (ground arith, ground arith) in
    rw (not_name, not_dash)
      (loop_lem disabled (has_star || str_eq c "*") cs rest name unmentioned
        ∙ ap (λ b. enabled_loop disabled b rest name)
            (or_assoc has_star (str_eq c "*") (contains cs "*")))

module _ (before : List String) (disabled : Bool) (name : String)
    (u : Unmentioned before name) where
  -- The first entry that is the name, or the name after a dash, decides whether a controller is
  -- enabled, whatever follows. Without such an entry it is enabled if the list has a star and it is
  -- not disabled by default.
  enabled_lem :
      (after : List String)
      → (is_controller_enabled (before ++ name ∷ after) disabled name ≡ true)
        × (is_controller_enabled (before ++ str_append "-" name ∷ after) disabled name ≡ false)
        × (is_controller_enabled before disabled name ≡ (contains before "*" && not disabled))
  unfolding is_controller_enabled enabled_loop
  enabled_lem after =
      let star = contains before "*" in
      let differs : str_eq (str_append "-" name) name ≡ false =
        elim (Bool-cases (str_eq (str_append "-" name) name)) [
          | inl e ↦ absurd (dash_differs name ((eq_iff (str_append "-" name) name).0 e))
          | inr n ↦ n
        ] in
      (
        loop_lem disabled false before (name ∷ after) name u ∙ rw (eq_refl name) refl,
        loop_lem disabled false before (str_append "-" name ∷ after) name u
            ∙ rw (differs, eq_refl (str_append "-" name)) refl,
        ap (λ cs. enabled_loop disabled false cs name) (sym (append-nil before))
            ∙ loop_lem disabled false before [] name u
            ∙ no_choice star,
      )
    where
      no_choice :
          (star : Bool) → (if not star then false else not disabled) ≡ (star && not disabled)
      no_choice star = ground arith
