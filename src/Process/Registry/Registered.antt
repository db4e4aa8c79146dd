-- ===== src/Process/Registry/Registered.antt =====
-- What the registry holds after a list of registrations.
use multicluster_cloud_provi.Prelude.{
  ◌≡◌, refl, sym, ap, ◌∙◌, inl, inr, String, false, Option, none, some, List, [], ◌∷◌, str_eq,
  eq_iff, Bool-cases, Option-cases,
}
use multicluster_cloud_provi.Api.{lookup}
use multicluster_cloud_provi.Process.Effects.{Proc, returns, return, ◌>>◌}
use multicluster_cloud_provi.Process.Registry.{Factory, Registry, register_multi_cluster_provider}

abbrev pub or_else {ℓ} : {A : Type ℓ} → Option A → Option A → Option A
or_else none b = b
or_else (some a) b = some a

pub or_else-none {ℓ} : {A : Type ℓ} (a : Option A) → or_else a none ≡ a
or_else-none none = refl
or_else-none (some a) = refl

module _ {S F I : Type 0} where
  -- The registrations of the imported packages, in the order of their `init` functions.
  unfoldable pub register_all : List (String × Factory S F I) → Proc (Registry S F I) (Unit {0})
  unfolding register_multi_cluster_provider
  register_all [] = return tt
  register_all ((name, f) ∷ fs) = do register_multi_cluster_provider name f; register_all fs

  abbrev added : String → Factory S F I → Registry S F I → Registry S F I
  added name f r = record r { providers = (name, f) ∷ r.providers }

  fresh_step :
      (name : String) (f : Factory S F I) (fs : List (String × Factory S F I)) (r : Registry S F I)
      → (register_all ((name, f) ∷ fs) r).0 ≡ returns tt
      → (lookup name r.providers ≡ none)
        × (register_all ((name, f) ∷ fs) r ≡ register_all fs (added name f r))
  unfolding register_all
  fresh_step name f fs r h = elim (Option-cases (lookup name r.providers)) [
    | inl e ↦ (e, rw (e, register_multi_cluster_provider) refl)
    | inr (g, e) ↦ absurd (cc (rw (e, register_multi_cluster_provider) at h))
  ]

  -- A name keeps its factory.
  kept_lem :
      (k : String) (g : Factory S F I) (fs : List (String × Factory S F I)) (r : Registry S F I)
      → (register_all fs r).0 ≡ returns tt
      → lookup k r.providers ≡ some g
      → lookup k (register_all fs r).1.providers ≡ some g
  unfolding register_all
  kept_lem k g [] r h e = e
  kept_lem k g ((name, f) ∷ fs) r h e =
      let (fresh, step) = fresh_step name f fs r h in
      let other : str_eq name k ≡ false = elim (Bool-cases (str_eq name k)) [
        | inl same ↦ absurd (cc ((eq_iff name k).0 same))
        | inr n ↦ n
      ] in
      ap (λ x. lookup k x.1.providers) step
      ∙ kept_lem k g fs (added name f r) (sym (ap (λ x. x.0) step) ∙ h) (rw other e)

  -- The registry answers as the list of the registrations does.
  pub lookup_lem :
      (k : String) (fs : List (String × Factory S F I)) (r : Registry S F I)
      → (register_all fs r).0 ≡ returns tt
      → lookup k (register_all fs r).1.providers ≡ or_else (lookup k fs) (lookup k r.providers)
  unfolding register_all
  lookup_lem k [] r h = refl
  lookup_lem k ((name, f) ∷ fs) r h =
      let (fresh, step) = fresh_step name f fs r h in
      let h' : (register_all fs (added name f r)).0 ≡ returns tt = sym (ap (λ x. x.0) step) ∙ h in
      elim (Bool-cases (str_eq name k)) [
        | inl same ↦
            rw (same, lookup)
              (ap (λ x. lookup k x.1.providers) step
                ∙ kept_lem k f fs (added name f r) h' (rw (same, lookup) refl))
        | inr n ↦
            let skipped : lookup k (added name f r).providers ≡ lookup k r.providers =
              rw (n, lookup) refl in
            rw (n, lookup)
              (ap (λ x. lookup k x.1.providers) step
                ∙ lookup_lem k fs (added name f r) h'
                ∙ ap (or_else (lookup k fs)) skipped)
      ]
