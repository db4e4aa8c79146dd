-- ===== src/Process/Manager/Digits.antt =====
-- The digits of a number: the fuel is enough, and they spell the number.
use Prim.Native.Nat.{◌/◌, ◌%◌, ◌-◌}
use Prim.Native.Char.{Char, code}
use Prim.Native.String.{◌++◌ as str_append, slice, char_at}
use Prim.Native.String.append
use text.Mathlib.TextLemmas.{cons-append}
use multicluster_cloud_provi.Prelude.{
  ℕ, ℤ, pos, negsuc, zero, suc, ◌+◌, ◌*◌, ◌<◌, ◌≡◌, ◌⊎◌, refl, ap, ◌∙◌, inl, inr, String, arith,
}
use multicluster_cloud_provi.Process.Manager.{digits, decimal, itoa}

-- The number that a text of digits spells, after `v`.
abbrev pub value : ℕ → String → ℕ
value v String.[] = v
value v (String.◌∷◌ c s) = value (10 * v + (code c - 48)) s

-- The text of one digit.
abbrev digit : ℕ → String
digit r = slice "0123456789" r (r + 1)

value-cons :
    (c : Char) (d v : ℕ) (acc : String)
    → code c - 48 ≡ d
    → value v (str_append (String.◌∷◌ c String.[]) acc) ≡ value (10 * v + d) acc
value-cons c d v acc h =
    ap (value v) (cons-append c String.[] acc ∙ ap (String.◌∷◌ c) (append.nil acc))
    ∙ ap (λ x. value (10 * v + x) acc) h

value-digit :
    (r v : ℕ) (acc : String) → r < 10 → value v (str_append (digit r) acc) ≡ value (10 * v + r) acc
value-digit zero v acc h = value-cons (char_at "0" 0) 0 v acc refl
value-digit (suc zero) v acc h = value-cons (char_at "1" 0) 1 v acc refl
value-digit (suc (suc zero)) v acc h = value-cons (char_at "2" 0) 2 v acc refl
value-digit (suc (suc (suc zero))) v acc h = value-cons (char_at "3" 0) 3 v acc refl
value-digit (suc (suc (suc (suc zero)))) v acc h = value-cons (char_at "4" 0) 4 v acc refl
value-digit (suc (suc (suc (suc (suc zero))))) v acc h = value-cons (char_at "5" 0) 5 v acc refl
value-digit (suc (suc (suc (suc (suc (suc zero)))))) v acc h =
    value-cons (char_at "6" 0) 6 v acc refl
value-digit (suc (suc (suc (suc (suc (suc (suc zero))))))) v acc h =
    value-cons (char_at "7" 0) 7 v acc refl
value-digit (suc (suc (suc (suc (suc (suc (suc (suc zero)))))))) v acc h =
    value-cons (char_at "8" 0) 8 v acc refl
value-digit (suc (suc (suc (suc (suc (suc (suc (suc (suc zero))))))))) v acc h =
    value-cons (char_at "9" 0) 9 v acc refl
value-digit (suc (suc (suc (suc (suc (suc (suc (suc (suc (suc r)))))))))) v acc h =
    absurd (omega arith)

cases : (n : ℕ) → (n ≡ zero) ⊎ ((m : ℕ) × (n ≡ suc m))
cases zero = inl refl
cases (suc m) = inr (m, refl)

value-digits : (f n : ℕ) (acc : String) → n < f → value 0 (digits f n acc) ≡ value n acc
unfolding digits
value-digits zero n acc h = absurd (omega arith)
value-digits (suc f) n acc h =
    let r = n % 10 in
    let acc' = str_append (digit r) acc in
    elim (cases (n / 10)) [
      | inl e ↦
          let same : 10 * 0 + r ≡ n = omega arith in
          rw (e, digits) (value-digit r 0 acc (omega arith) ∙ ap (λ x. value x acc) same)
      | inr (m, e) ↦
          let same : 10 * suc m + r ≡ n = omega arith in
          rw (e, digits)
            (value-digits f (suc m) acc' (omega arith)
              ∙ value-digit r (suc m) acc (omega arith)
              ∙ ap (λ x. value x acc) same)
    ]

value-decimal : (n : ℕ) → value 0 (decimal n) ≡ n
unfolding decimal
value-decimal n = value-digits (suc n) n "" (omega arith)

-- The number that a text spells, with a sign or without.
pub data Spells (t : String) : ℤ → Type 0 where
  unsigned : (n : ℕ) → value 0 t ≡ n → Spells t (pos n)
  signed : (n : ℕ) (s : String) → t ≡ str_append "-" s → value 0 s ≡ suc n → Spells t (negsuc n)

-- strconv.Itoa gives a text that spells the integer in decimal, whatever the integer is.
pub Spells-itoa : (z : ℤ) → Spells (itoa z) z
unfolding itoa
Spells-itoa (pos n) = unsigned n (value-decimal n)
Spells-itoa (negsuc n) = signed n (decimal (suc n)) refl (value-decimal (suc n))
