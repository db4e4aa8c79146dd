-- ===== src/Prelude/Texts.antt =====
-- Go's order on strings. Strings are UTF-8 and compare byte by byte; that order is the order of
-- the code points, which is the one written here. `sort.Strings` as insertion into a sorted list.
use Prim.Native.Nat.{compare, Ordering}
use Prim.Native.Char.{code}
use Prim.Native.String.{String}
use mathlib.Core.Path.{◌≡◌, refl, ap, ◌∙◌}
use mathlib.Core.Logic.{◌⊎◌, inl, inr}
use mathlib.Core.Bool.{Bool, true, false, ◌||◌}
use mathlib.Core.List.{List, [], ◌∷◌}
use native.Mathlib.Omega.{arith}
use text.Mathlib.Text.{◌==◌}
use multicluster_cloud_provi.Prelude.Tests.{if◌then◌else◌, Bool-cases}
use multicluster_cloud_provi.Prelude.Lists.{All, contains}

-- s <= t
pub leb : String → String → Bool
leb String.[] t = true
leb (String.◌∷◌ c s) String.[] = false
leb (String.◌∷◌ c s) (String.◌∷◌ d t) =
    let rest = leb s t in
    elim (compare (code c) (code d)) [
      | Ordering.lt ↦ true
      | Ordering.eq ↦ rest
      | Ordering.gt ↦ false
    ]

leb_total : (s t : String) → (leb s t ≡ true) ⊎ (leb t s ≡ true)
unfolding leb
leb_total String.[] t = inl refl
leb_total (String.◌∷◌ c s) String.[] = inr refl
leb_total (String.◌∷◌ c s) (String.◌∷◌ d t) = ground (arith, leb_total s t)

leb_trans : (s t u : String) → leb s t ≡ true → leb t u ≡ true → leb s u ≡ true
unfolding leb
leb_trans String.[] t u p q = refl
leb_trans (String.◌∷◌ c s) String.[] u p q = cc
leb_trans (String.◌∷◌ c s) (String.◌∷◌ d t) String.[] p q = cc
leb_trans (String.◌∷◌ c s) (String.◌∷◌ d t) (String.◌∷◌ e u) p q = ground (arith, leb_trans s t u)

-- The list is in ascending order.
abbrev pub IsSorted : List String → Type 0
IsSorted [] = Unit
IsSorted (x ∷ xs) = All (λ y. leb x y ≡ true) xs × IsSorted xs

insert : String → List String → List String
insert a [] = a ∷ []
insert a (x ∷ xs) = let rest = insert a xs in if leb a x then a ∷ x ∷ xs else x ∷ rest

-- sort.Strings
unfoldable pub sort_strings : List String → List String
unfolding insert leb
sort_strings [] = []
sort_strings (x ∷ xs) = insert x (sort_strings xs)

contains-insert :
    (a b : String) (xs : List String) → contains (insert a xs) b ≡ ((a == b) || contains xs b)
unfolding insert
contains-insert a b [] = refl
contains-insert a b (x ∷ xs) = ground (arith, contains-insert a b xs)

All-le_trans :
    (a x : String) (xs : List String)
    → leb a x ≡ true
    → All (λ y. leb x y ≡ true) xs
    → All (λ y. leb a y ≡ true) xs
All-le_trans a x [] h k = tt
All-le_trans a x (y ∷ ys) h k = (leb_trans a x y h k.0, All-le_trans a x ys h k.1)

All-le-insert :
    (b a : String) (xs : List String)
    → leb b a ≡ true
    → All (λ y. leb b y ≡ true) xs
    → All (λ y. leb b y ≡ true) (insert a xs)
unfolding insert
All-le-insert b a [] h k = (h, tt)
All-le-insert b a (x ∷ xs) h k = elim (Bool-cases (leb a x)) [
  | inl p ↦ rw p (h, k)
  | inr q ↦ rw q (k.0, All-le-insert b a xs h k.1)
]

le_of_not : (a x : String) → leb a x ≡ false → leb x a ≡ true
le_of_not a x h = elim (leb_total a x) [ inl p ↦ cc | inr q ↦ q ]

insert-IsSorted : (a : String) (xs : List String) → IsSorted xs → IsSorted (insert a xs)
unfolding insert
insert-IsSorted a [] h = (tt, tt)
insert-IsSorted a (x ∷ xs) h = elim (Bool-cases (leb a x)) [
  | inl p ↦ rw p ((p, All-le_trans a x xs p h.0), h)
  | inr q ↦ rw q (All-le-insert x a xs (le_of_not a x q) h.0, insert-IsSorted a xs h.1)
]

pub contains-sort_strings :
    (xs : List String) (a : String) → contains (sort_strings xs) a ≡ contains xs a
unfolding sort_strings
contains-sort_strings [] a = refl
contains-sort_strings (x ∷ xs) a =
    contains-insert x a (sort_strings xs) ∙ ap (λ b. (x == a) || b) (contains-sort_strings xs a)

pub sort_strings-IsSorted : (xs : List String) → IsSorted (sort_strings xs)
unfolding sort_strings
sort_strings-IsSorted [] = tt
sort_strings-IsSorted (x ∷ xs) = insert-IsSorted x (sort_strings xs) (sort_strings-IsSorted xs)
