-- ===== src/CrdInstallation/Names.antt =====
-- The list of cluster names after an event.
use multicluster_cloud_provi.Prelude.{
  suc, ◌≡◌, refl, ap, ◌∙◌, ◌↔◌, inl, inr, String, Bool, true, false, not, ◌&&◌, ◌||◌, Option, none,
  some, List, [], ◌∷◌, ◌++◌, arith, str_eq, eq_iff, contains, contains-append, length, ltb, take,
  drop, Bool-cases,
}
use multicluster_cloud_provi.CrdInstallation.{EventType, ensure, remove, index_of, next_clusters}

-- No name occurs twice.
abbrev pub IsUnique : List String → Type 0
IsUnique [] = Unit
IsUnique (c ∷ cs) = (contains cs c ≡ false) × IsUnique cs

index_of_lem :
    (cs : List String) (name : String) → ltb (index_of cs name) (length cs) ≡ contains cs name
unfolding index_of
index_of_lem [] name = refl
index_of_lem (c ∷ cs) name = ground (arith, index_of_lem cs name)

without : List String → String → List String
without cs name = take (index_of cs name) cs ++ drop (suc (index_of cs name)) cs

without_cons :
    (c : String) (cs : List String) (name : String)
    → str_eq c name ≡ false
    → without (c ∷ cs) name ≡ c ∷ without cs name
unfolding without index_of
without_cons c cs name n = rw n

without_head :
    (c : String) (cs : List String) (name : String)
    → str_eq c name ≡ true
    → without (c ∷ cs) name ≡ cs
unfolding without index_of
without_head c cs name e = rw e

contains_eq : (cs : List String) (a b : String) → a ≡ b → contains cs a ≡ contains cs b
contains_eq cs a b e = ap (contains cs) e

contains-without :
    (cs : List String) (name b : String)
    → IsUnique cs
    → contains (without cs name) b ≡ (not (str_eq name b) && contains cs b)
contains-without [] name b u = unfold without index_of in ground arith
contains-without (c ∷ cs) name b u = elim (Bool-cases (str_eq c name)) [
  | inl e ↦ rw (without_head c cs name e) (
      ground
        (arith, u.0, eq_iff c name, eq_iff name b, eq_iff c b, λ (p : c ≡ b). contains_eq cs c b p))
  | inr n ↦
      rw (without_cons c cs name n)
        (ground (arith, contains-without cs name b u.1, eq_iff c name, eq_iff name b, eq_iff c b))
]

without-IsUnique : (cs : List String) (name : String) → IsUnique cs → IsUnique (without cs name)
without-IsUnique [] name u = unfold without index_of in tt
without-IsUnique (c ∷ cs) name u = elim (Bool-cases (str_eq c name)) [
  | inl e ↦ rw (without_head c cs name e) u.1
  | inr n ↦
      rw (without_cons c cs name n)
        (ground (arith, u.0, contains-without cs name c u.1), without-IsUnique cs name u.1)
]

append-IsUnique :
    (cs : List String) (name : String)
    → IsUnique cs
    → contains cs name ≡ false
    → IsUnique (cs ++ name ∷ [])
append-IsUnique [] name u n = (refl, tt)
append-IsUnique (c ∷ cs) name u n = (
  ground (arith, u.0, contains-append cs (name ∷ []) c, eq_iff c name, eq_iff name c),
  append-IsUnique cs name u.1 (ground arith),
)

-- The names after the event, whether they are written or were right already.
abbrev pub names_after : EventType → List String → String → List String
names_after t cs name = elim (next_clusters t cs name) [ none ↦ cs | some ds ↦ ds ]

abbrev pub wanted : EventType → List String → String → String → Bool
wanted ensure cs name b = str_eq name b || contains cs b
wanted remove cs name b = not (str_eq name b) && contains cs b

abbrev pub is_ensure : EventType → Bool
is_ensure ensure = true
is_ensure remove = false

-- The decision of the switch, by whether the name is in the list.
abbrev decided : EventType → Bool → List String → String → Option (List String)
decided ensure true cs name = none
decided ensure false cs name = some (cs ++ name ∷ [])
decided remove true cs name = some (without cs name)
decided remove false cs name = none

next_clusters_lem :
    (t : EventType) (cs : List String) (name : String)
    → next_clusters t cs name ≡ decided t (contains cs name) cs name
unfolding next_clusters without
next_clusters_lem ensure cs name = elim (Bool-cases (contains cs name)) [
  | inl e ↦ rw (index_of_lem cs name ∙ e, e, next_clusters)
  | inr n ↦ rw (index_of_lem cs name ∙ n, n, next_clusters)
]
next_clusters_lem remove cs name = elim (Bool-cases (contains cs name)) [
  | inl e ↦ rw (index_of_lem cs name ∙ e, e, next_clusters)
  | inr n ↦ rw (index_of_lem cs name ∙ n, n, next_clusters)
]

-- Nothing is written only if the list has the name already, or has it not.
pub next_clusters-none :
    (t : EventType) (cs : List String) (name : String)
    → next_clusters t cs name ≡ none
    → contains cs name ≡ is_ensure t
next_clusters-none ensure cs name e =
    ground (arith, next_clusters_lem ensure cs name, Bool-cases (contains cs name))
next_clusters-none remove cs name e =
    ground (arith, next_clusters_lem remove cs name, Bool-cases (contains cs name))

-- A list is written only if the name is missing, or is there to be removed.
pub next_clusters-some :
    (t : EventType) (cs : List String) (name : String) (ds : List String)
    → next_clusters t cs name ≡ some ds
    → contains cs name ≡ not (is_ensure t)
next_clusters-some ensure cs name ds e =
    ground (arith, next_clusters_lem ensure cs name, Bool-cases (contains cs name))
next_clusters-some remove cs name ds e =
    ground (arith, next_clusters_lem remove cs name, Bool-cases (contains cs name))

pub next_clusters_absent :
    (cs : List String) (name : String)
    → contains cs name ≡ false
    → next_clusters remove cs name ≡ none
next_clusters_absent cs name n =
    next_clusters_lem remove cs name ∙ ap (λ b. decided remove b cs name) n

module _ (cs : List String) (name : String) (u : IsUnique cs) where
  decided_names :
      (t : EventType) (b : Bool)
      → contains cs name ≡ b
      → let after : List String = elim (decided t b cs name) [ none ↦ cs | some ds ↦ ds ] in
        ((a : String) → contains after a ≡ wanted t cs name a)
        × IsUnique after
        × ((decided t b cs name ≡ none) ↔ (b ≡ is_ensure t))
  decided_names ensure true e = (
    λ a. ground (arith, eq_iff name a, λ (p : name ≡ a). contains_eq cs name a p),
    u,
    (λ h. refl, λ h. refl),
  )
  decided_names ensure false e = (
    λ a. ground (arith, contains-append cs (name ∷ []) a),
    append-IsUnique cs name u e,
    (λ h. cc, λ h. cc),
  )
  decided_names remove true e =
      (λ a. contains-without cs name a u, without-IsUnique cs name u, (λ h. cc, λ h. cc))
  decided_names remove false e = (
    λ a. ground (arith, eq_iff name a, λ (p : name ≡ a). contains_eq cs name a p),
    u,
    (λ h. refl, λ h. refl),
  )

  -- From a list with no name twice, the event `ensure` gives a list with the name and those that
  -- were there, and `remove` a list with those that were there but the name; no name is twice in it.
  -- There is nothing to write exactly when the list has the name already, or has it not.
  pub names_after_lem :
      (t : EventType)
      → ((a : String) → contains (names_after t cs name) a ≡ wanted t cs name a)
        × IsUnique (names_after t cs name)
        × ((next_clusters t cs name ≡ none) ↔ (contains cs name ≡ is_ensure t))
  names_after_lem t =
      rw (next_clusters_lem t cs name, names_after) (decided_names t (contains cs name) refl)
