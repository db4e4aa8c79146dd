-- ===== src/ServiceExportPropagation/Targets.antt =====
-- The clusters that a listing of bindings gives for a service.
use multicluster_cloud_provi.Prelude.{
  ◌≡◌, refl, sym, ap, subst, inl, inr, String, true, false, List, [], ◌∷◌, ◌++◌, In, arith, eq_iff,
  eq_refl, contains, Bool-cases,
}
use multicluster_cloud_provi.Prelude.Texts.{IsSorted}
use multicluster_cloud_provi.Api.{ResourceBinding}
use multicluster_cloud_provi.Platform.Helpers.{StringSets}
use multicluster_cloud_provi.Bindings.{is_scheduled, get_cluster_results, get_cluster_results_lem}
use multicluster_cloud_provi.ServiceExportPropagation.{binds, zero_spec, target_binding_spec}

-- The binding is for the service of this name.
abbrev pub IsBindingOf : String → ResourceBinding → Type 0
IsBindingOf name b = (b.spec.resource.kind ≡ "Service") × (b.spec.resource.name ≡ name)

abbrev pub HasNone : String → List ResourceBinding → Type 0
HasNone name bs = (b : ResourceBinding) → In b bs → ¬ IsBindingOf name b

-- The clusters are those that the first binding of the service is scheduled to, each named once and
-- in ascending order; or the service has no binding and there are none.
pub data Schedules (name : String) (bs : List ResourceBinding) (clusters : List String)
    : Type 0 where
  bound :
      (before after : List ResourceBinding) (b : ResourceBinding)
      → bs ≡ before ++ b ∷ after
      → HasNone name before
      → IsBindingOf name b
      → ((cluster : String) → contains clusters cluster ≡ is_scheduled b.spec cluster)
      → IsSorted clusters
      → Schedules name bs clusters
  unbound : HasNone name bs → clusters ≡ [] → Schedules name bs clusters

binds-true : (name : String) (b : ResourceBinding) → binds name b ≡ true → IsBindingOf name b
binds-true name b h = (
  (eq_iff b.spec.resource.kind "Service").0 (ground arith),
  (eq_iff b.spec.resource.name name).0 (ground arith),
)

binds-false : (name : String) (b : ResourceBinding) → binds name b ≡ false → ¬ IsBindingOf name b
binds-false name b h (k, n) =
    ground
      (arith, (eq_iff b.spec.resource.kind "Service").1 k, (eq_iff b.spec.resource.name name).1 n)

HasNone-cons :
    (name : String) (b : ResourceBinding) (bs : List ResourceBinding)
    → binds name b ≡ false
    → HasNone name bs
    → HasNone name (b ∷ bs)
HasNone-cons name b bs n h c (inl e) =
    λ i. binds-false name b n (subst (IsBindingOf name) (sym e) i)
HasNone-cons name b bs n h c (inr i) = h c i

absent : (cs : List String) → ((c : String) → contains cs c ≡ false) → cs ≡ []
absent [] h = refl
absent (c ∷ cs) h = absurd (ground (arith, h c, eq_refl c))

module _ (sets : StringSets) (name : String) where
  pub Schedules-target :
      (bs : List ResourceBinding)
      → Schedules name bs (get_cluster_results sets (target_binding_spec name bs))
  unfolding target_binding_spec
  Schedules-target [] =
      unbound (λ b i. absurd i) (absent _ (λ c. (get_cluster_results_lem sets zero_spec).0 c))
  Schedules-target (b ∷ bs) = elim (Bool-cases (binds name b)) [
    | inl e ↦
        let (names, sorted) = get_cluster_results_lem sets b.spec in
        rw e (bound [] bs b refl (λ c i. absurd i) (binds-true name b e) names sorted)
    | inr n ↦ rw n (later b bs n (Schedules-target bs))
  ]
    where
      later :
          (b : ResourceBinding) (bs : List ResourceBinding)
          → binds name b ≡ false
          → {clusters : List String} → Schedules name bs clusters
          → Schedules name (b ∷ bs) clusters
      later b bs n (bound before after a e h i names sorted) =
          bound (b ∷ before) after a (ap (λ l. b ∷ l) e) (HasNone-cons name b before n h) i names
            sorted
      later b bs n (unbound h e) = unbound (HasNone-cons name b bs n h) e
