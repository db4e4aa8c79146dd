-- ===== src/McsWatch/Relevant.antt =====
-- Which updates of a MultiClusterService are reconciled.
use multicluster_cloud_provi.Prelude.{
  ◌≡◌, refl, ◌⊎◌, ◌↔◌, inl, inr, String, Bool, true, false, not, ◌&&◌, ◌∷◌, arith, eq_iff, contains,
  Bool-cases,
}
use multicluster_cloud_provi.Prelude.Equality.{eq_of_equal, equal_refl, string_eq, list_eq}
use multicluster_cloud_provi.Api.{
  is_zero, lookup, same_map_iff, port_eq, MultiClusterService, McsSpec,
}
use multicluster_cloud_provi.Platform.{World, queued}
use multicluster_cloud_provi.Util.{exposure_type_load_balancer, mcs_contain_load_balance_type}
use multicluster_cloud_provi.Util.DefaultClass.{mcs_contain_lem}
use multicluster_cloud_provi.IngressWatch.Relevant.{same_flag_iff}
use multicluster_cloud_provi.McsController.{key_of}
use multicluster_cloud_provi.McsWatch.{same_mcs, same_mcs_spec, mcs_updated}

-- The parts of a MultiClusterService that its user writes, and whether it is being deleted.
pub record SameInputs (old new : MultiClusterService) : Type 0 where
  pub annotations : (k : String) → lookup k old.annotations ≡ lookup k new.annotations
  pub spec : old.spec ≡ new.spec
  pub lives : is_zero old.deletion_timestamp ≡ is_zero new.deletion_timestamp

abbrev is_balanced : MultiClusterService → Bool
is_balanced mcs = contains mcs.spec.types exposure_type_load_balancer

-- Neither is of the load balancer type, or nothing that counts has changed.
abbrev pub Ignored : MultiClusterService → MultiClusterService → Type 0
Ignored old new = ((is_balanced old ≡ false) × (is_balanced new ≡ false)) ⊎ SameInputs old new

same_spec_iff : (a b : McsSpec) → (same_mcs_spec a b ≡ true) ↔ (a ≡ b)
same_spec_iff a b = ground (
  arith,
  eq_of_equal a.types b.types,
  eq_of_equal a.ports b.ports,
  eq_iff a.rest b.rest,
  equal_refl a.types,
  equal_refl a.ports,
)

same_mcs_iff : (old new : MultiClusterService) → (same_mcs old new ≡ true) ↔ SameInputs old new
same_mcs_iff old new = (
  λ h. record {
    annotations = (same_map_iff old.annotations new.annotations).0 (ground arith);
    spec = (same_spec_iff old.spec new.spec).0 (ground arith);
    lives = ground arith;
  },
  λ s.
      let m = (same_map_iff old.annotations new.annotations).1 s.annotations in
      let p = (same_spec_iff old.spec new.spec).1 s.spec in
      let f =
        (same_flag_iff (is_zero old.deletion_timestamp) (is_zero new.deletion_timestamp)).1
          s.lives in
      rw (m, p, f),
)

module _ {C P : Type 0} (old new : MultiClusterService) (w : World C P) where
  abbrev unbalanced : Bool
  unbalanced = not (mcs_contain_load_balance_type old) && not (mcs_contain_load_balance_type new)

  -- An update of a MultiClusterService is ignored if neither the old nor the new one is of the load
  -- balancer type, or if the annotations, the spec and the mark of deletion are the same. Any other
  -- update puts the new one in the queue, once.
  pub mcs_updated_lem :
      (Ignored old new → (mcs_updated old new w).1.log ≡ w.log)
      × ((Ignored old new → ⊥) → (mcs_updated old new w).1.log ≡ queued (key_of new) ∷ w.log)
  unfolding mcs_updated
  mcs_updated_lem =
      let o = mcs_contain_lem old in
      let n = mcs_contain_lem new in
      elim (Bool-cases unbalanced) [
        | inl u ↦ (λ _. rw u refl, λ k. absurd (k (inl (ground arith, ground arith))))
        | inr b ↦ elim (Bool-cases (same_mcs old new)) [
          | inl e ↦ (λ _. rw (b, e) refl, λ k. absurd (k (inr ((same_mcs_iff old new).0 e))))
          | inr e ↦ (
            λ i. elim i [
              | inl t ↦ absurd (ground arith)
              | inr t ↦ absurd (ground (arith, (same_mcs_iff old new).1 t))
            ],
            λ _. rw (b, e) refl,
          )
        ]
      ]
