-- ===== src/Startup/Started.antt =====
-- Which controllers are started when the list of the enabled ones is that of all names.
use Prim.Native.String.{◌++◌ as str_append}
use multicluster_cloud_provi.Prelude.{
  ◌≡◌, ◌↔◌, ◌++◌, In, eq_iff, refl, sym, ap, ◌∙◌, inl, inr, String, Bool, true, false, ◌||◌, List,
  [], ◌∷◌, arith, str_eq, eq_refl, contains, Bool-cases,
}
use multicluster_cloud_provi.Platform.{Action, done, pure, ◌>>=◌, bind-done}
use multicluster_cloud_provi.Platform.Helpers.{StringSets, insert_all, has-insert_all}
use multicluster_cloud_provi.Startup.{
  enabled_loop, is_controller_enabled, InitFunc, Initializers, names_of, controller_names,
  start_controllers,
}

-- A name in the list enables, unless the name after a dash is there too.
loop_lem :
    (disabled has_star : Bool) (cs : List String) (name : String)
    → contains cs name ≡ true
    → contains cs (str_append "-" name) ≡ false
    → enabled_loop disabled has_star cs name ≡ true
unfolding enabled_loop
loop_lem disabled has_star [] name c d = cc
loop_lem disabled has_star (x ∷ xs) name c d = elim (Bool-cases (str_eq x name)) [
  | inl e ↦ rw e refl
  | inr n ↦
      let no_dash : str_eq x (str_append "-" name) ≡ false = ground arith in
      rw (n, no_dash)
        (loop_lem disabled (has_star || str_eq x "*") xs name (ground arith) (ground arith))
]

module _ {S : Type 0} where
  -- Every initializer, one after the other; an error ends it.
  unfoldable pub start_all : Initializers S → Action S (Unit {0})
  start_all [] = pure tt
  start_all ((name, init) ∷ rest) = do started ← init; start_all rest

  -- Each name of the map is among those controllers, and none of them after a dash.
  abbrev Listed : List String → Initializers S → Type 0
  Listed controllers is =
      (name : String)
      → contains (names_of is) name ≡ true
      → (contains controllers name ≡ true) × (contains controllers (str_append "-" name) ≡ false)

  start_lem :
      (controllers : List String) (disabled : String → Bool) (is : Initializers S)
      → Listed controllers is
      → start_controllers controllers disabled is ≡ start_all is
  unfolding start_controllers start_all names_of
  start_lem controllers disabled [] l = refl
  start_lem controllers disabled ((name, init) ∷ rest) l =
      let (c, d) = l name (rw (eq_refl name) refl) in
      let enabled : is_controller_enabled controllers (disabled name) name ≡ true =
        loop_lem (disabled name) false controllers name c d in
      let listed : Listed controllers rest = λ n k. l n (ground arith) in
      rw enabled (ap (λ k. init >>= λ _. k) (start_lem controllers disabled rest listed))

module _ {S : Type 0} (sets : StringSets) (is : Initializers S) where
  contains-controller_names :
      (name : String) → contains (controller_names sets is) name ≡ contains (names_of is) name
  unfolding controller_names
  contains-controller_names name = ground (
    arith,
    sets.contains-list (insert_all sets sets.new (names_of is)) name,
    has-insert_all sets sets.new (names_of is) name,
    sets.has-new name,
  )

  -- With the names of a map of initializers as the list of the enabled controllers, and whatever is
  -- disabled by default, StartControllers runs all the initializers of the map, in the order in
  -- which it visits them, and stops at the first error, as long as no name is another one after a
  -- dash.
  pub start_controllers_lem :
      (disabled : String → Bool) (visited : Initializers S)
      → ((name : String)
          → contains (names_of visited) name ≡ true
          → contains (names_of is) name ≡ true)
      → ((name : String)
          → contains (names_of is) name ≡ true
          → contains (names_of is) (str_append "-" name) ≡ false)
      → start_controllers (controller_names sets is) disabled visited ≡ start_all visited
  start_controllers_lem disabled visited v h =
      start_lem (controller_names sets is) disabled visited λ name c. (
        contains-controller_names name ∙ v name c,
        contains-controller_names (str_append "-" name) ∙ h name (v name c),
      )

-- The order in which a map is visited leaves out none of its entries, and adds none.
abbrev pub IsRange : {S : Type 0} → (Initializers S → Initializers S) → Type 0
IsRange {S} range =
    (is : Initializers S) (name : String) (init : InitFunc S)
    → In (name, init) (range is) ↔ In (name, init) is

module _ {S : Type 0} where
  pub named_lem :
      (is : Initializers S) (name : String)
      → (contains (names_of is) name ≡ true) ↔ ((init : InitFunc S) × In (name, init) is)
  unfolding names_of
  named_lem [] name = (λ h. absurd (cc), λ (init, h). elim h [ ])
  named_lem ((n, i) ∷ is) name = (
    λ h. elim (Bool-cases (str_eq n name)) [
      | inl e ↦ (i, inl (ap (λ m. (m, i)) ((eq_iff n name).0 e)))
      | inr e ↦ let (init, k) = (named_lem is name).0 (ground arith) in (init, inr k)
    ],
    λ (init, h). elim h [
      | inl e ↦
          let same : str_eq n name ≡ true = (eq_iff n name).1 (ap (λ p. p.0) e) in rw same refl
      | inr k ↦ ground (arith, (named_lem is name).1 (init, k))
    ],
  )

  -- The entry has its turn when the initializers before it have returned without an error, and `Q`
  -- holds of the state that they leave.
  abbrev pub HasTurn : Initializers S → S → String → InitFunc S → (S → Type 0) → Type 0
  HasTurn is s name init Q =
      (before after : Initializers S) × (is ≡ before ++ (name, init) ∷ after)
      × ((start_all before s).0 ≡ done tt)
      × Q (start_all before s).1

  -- The initializer returns without an error.
  abbrev pub Completes : InitFunc S → S → Type 0
  Completes init s = (b : Bool) × ((init s).0 ≡ done b)

  later_turn :
      (n name : String) (f init : InitFunc S) (is : Initializers S) (s : S) (b : Bool)
      → (f s).0 ≡ done b
      → HasTurn is (f s).1 name init (Completes init)
      → HasTurn ((n, f) ∷ is) s name init (Completes init)
  unfolding start_all
  later_turn n name f init is s b e (before, after, split, before_done, r) =
      ((n, f) ∷ before, after, ap (λ l. (n, f) ∷ l) split, rw e before_done, rw e r)

  pub all_started :
      (is : Initializers S) (s : S) (name : String) (init : InitFunc S)
      → (start_all is s).0 ≡ done tt
      → In (name, init) is
      → HasTurn is s name init (Completes init)
  unfolding start_all
  all_started [] s name init h i = elim i [ ]
  all_started ((n, f) ∷ is) s name init h (inl e) =
      let (b, same, d) = bind-done f (λ _. start_all is) tt s h in
      (
        [],
        is,
        ap (λ x. x ∷ is) e,
        refl,
        (b, ap (λ (p : String × InitFunc S). (p.1 s).0) (sym e) ∙ d),
      )
  all_started ((n, f) ∷ is) s name init h (inr k) =
      let (b, same, d) = bind-done f (λ _. start_all is) tt s h in
      later_turn n name f init is s b d
        (all_started is (f s).1 name init (ap (λ r. r.0) (sym same) ∙ h) k)
