-- ===== src/Api/Maps.antt =====
-- Equality of maps is equality of what they answer.
use multicluster_cloud_provi.Prelude.{
  ◌≡◌, refl, sym, ap, ◌∙◌, ◌↔◌, inl, inr, String, true, some, [], ◌∷◌, arith, str_eq, eq_iff,
  Bool-cases, Option-cases,
}
use multicluster_cloud_provi.Prelude.Equality.{eq_of_equal, equal_refl, string_eq, option_eq, ◌==◌}
use multicluster_cloud_provi.Api.Meta.{lookup, StringMap}
use multicluster_cloud_provi.Api.Equality.{covers, same_map}

covers_lem :
    (a b m : StringMap) (k v : String)
    → covers a b m ≡ true
    → lookup k m ≡ some v
    → lookup k a ≡ lookup k b
covers_lem a b [] k v c h = cc
covers_lem a b ((j, x) ∷ m) k v c h = elim (Bool-cases (str_eq j k)) [
  | inl e ↦
      let same : lookup j a ≡ lookup j b = eq_of_equal (lookup j a) (lookup j b) (ground arith) in
      ap (λ i. lookup i a) (sym ((eq_iff j k).0 e)) ∙ same ∙ ap (λ i. lookup i b) ((eq_iff j k).0 e)
  | inr n ↦ covers_lem a b m k v (ground arith) (rw n at h)
]

same_map_lem : (a b : StringMap) (k : String) → same_map a b ≡ true → lookup k a ≡ lookup k b
same_map_lem a b k h = elim (Option-cases (lookup k a)) [
  | inr (v, e) ↦ covers_lem a b a k v (ground arith) e
  | inl n ↦ elim (Option-cases (lookup k b)) [
    | inr (v, e) ↦ covers_lem a b b k v (ground arith) e
    | inl m ↦ n ∙ sym m
  ]
]

same-covers : (a b m : StringMap) → ((k : String) → lookup k a ≡ lookup k b) → covers a b m ≡ true
same-covers a b [] h = refl
same-covers a b ((j, x) ∷ m) h =
    let here : (lookup j a == lookup j b) ≡ true = rw (h j) (equal_refl (lookup j b)) in
    rw here (same-covers a b m h)

pub same_map_iff :
    (a b : StringMap) → (same_map a b ≡ true) ↔ ((k : String) → lookup k a ≡ lookup k b)
same_map_iff a b =
    (λ h k. same_map_lem a b k h, λ h. rw (same-covers a b a h) (same-covers a b b h))
