-- ===== src/Prelude/Equality.antt =====
-- Structural equality, as `reflect.DeepEqual` and Go's `==` on structs compare.
use Prim.Native.String.{String}
use mathlib.Core.Path.{◌≡◌, refl}
use mathlib.Core.Logic.{◌↔◌}
use mathlib.Core.Bool.{Bool, true, false, ◌&&◌}
use mathlib.Core.Option.{Option, none, some}
use mathlib.Core.List.{List, [], ◌∷◌}
use native.Mathlib.Omega.{arith}
use text.Mathlib.Text.{◌==◌ as str_eq}
use text.Mathlib.TextEquality.{eq_iff}

pub record DeepEqual {ℓ} (A : Type ℓ) : Type ℓ where
  pub equal : A → A → Bool
  pub equal_iff : (a b : A) → (equal a b ≡ true) ↔ (a ≡ b)

infix 50 ◌==◌
abbrev pub ◌==◌ {ℓ} : {A : Type ℓ} ⦃e : DeepEqual A⦄ → A → A → Bool
◌==◌ ⦃e⦄ = e.equal

pub equal_refl {ℓ} : {A : Type ℓ} ⦃e : DeepEqual A⦄ (a : A) → (a == a) ≡ true
equal_refl ⦃e⦄ a = (e.equal_iff a a).1 refl

pub eq_of_equal {ℓ} : {A : Type ℓ} ⦃e : DeepEqual A⦄ (a b : A) → (a == b) ≡ true → a ≡ b
eq_of_equal ⦃e⦄ a b h = (e.equal_iff a b).0 h

instance abbrev pub string_eq : DeepEqual String
string_eq = record { equal = str_eq; equal_iff = eq_iff }

module _ {ℓ} {A : Type ℓ} ⦃e : DeepEqual A⦄ where
  abbrev option_beq : Option A → Option A → Bool
  option_beq none none = true
  option_beq (some a) (some b) = a == b
  option_beq _ _ = false

  pub option_beq_iff : (a b : Option A) → (option_beq a b ≡ true) ↔ (a ≡ b)
  option_beq_iff none none = ground arith
  option_beq_iff none (some b) = ground arith
  option_beq_iff (some a) none = ground arith
  option_beq_iff (some a) (some b) = ground (arith, e.equal_iff a b)

  instance abbrev pub option_eq : DeepEqual (Option A)
  option_eq = record { equal = option_beq; equal_iff = option_beq_iff }

  abbrev list_beq : List A → List A → Bool
  list_beq [] [] = true
  list_beq (a ∷ as') (b ∷ bs) = (a == b) && list_beq as' bs
  list_beq _ _ = false

  pub list_beq_iff : (as' bs : List A) → (list_beq as' bs ≡ true) ↔ (as' ≡ bs)
  list_beq_iff [] [] = ground arith
  list_beq_iff [] (b ∷ bs) = ground arith
  list_beq_iff (a ∷ as') [] = ground arith
  list_beq_iff (a ∷ as') (b ∷ bs) = ground (arith, e.equal_iff a b, list_beq_iff as' bs)

  instance abbrev pub list_eq : DeepEqual (List A)
  list_eq = record { equal = list_beq; equal_iff = list_beq_iff }
