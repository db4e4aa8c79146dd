-- ===== src/IngressWatch/Relevant.antt =====
-- What an update of an ingress has left as it was when it is not reconciled.
use multicluster_cloud_provi.Prelude.{
  ◌≡◌, ◌↔◌, refl, ap, subst, ◌⊎◌, inl, inr, String, Bool, true, false, not, Option, none, some,
  List, ◌∷◌, arith, items, Bool-cases, if◌then◌else◌,
}
use multicluster_cloud_provi.Prelude.Equality.{eq_of_equal, string_eq, option_eq, list_eq}
use multicluster_cloud_provi.Api.{
  is_zero, lookup, same_map_iff, MultiClusterIngress, backend_eq, tls_eq, rule_eq,
}
use multicluster_cloud_provi.Platform.{done, World, Event, Client, queued, M, continue, pure, emit}
use multicluster_cloud_provi.Platform.Helpers.{StringSets}
use multicluster_cloud_provi.Indexes.{
  backends, build_service_ref_indexes, build_secret_ref_indexes, insert_services, insert_secrets,
}
use multicluster_cloud_provi.Util.{check_ingress_class_matched}
use multicluster_cloud_provi.Util.IngressClasses.{check_ingress_class_matched-Keeps}
use multicluster_cloud_provi.TrafficBlock.{key_of}
use multicluster_cloud_provi.IngressWatch.{same_flag, same_mci, mci_updated}

pub same_flag_iff : (a b : Bool) → (same_flag a b ≡ true) ↔ (a ≡ b)
same_flag_iff a b = ground arith

-- What reconciliation reads of an ingress.
pub record SameInputs (sets : StringSets) (old new : MultiClusterIngress) : Type 0 where
  pub services : build_service_ref_indexes sets old ≡ build_service_ref_indexes sets new
  pub secrets : build_secret_ref_indexes sets old ≡ build_secret_ref_indexes sets new
  pub class_name : old.spec.ingress_class_name ≡ new.spec.ingress_class_name
  pub annotations : (k : String) → lookup k old.annotations ≡ lookup k new.annotations
  pub lives : is_zero old.deletion_timestamp ≡ is_zero new.deletion_timestamp

module _ (sets : StringSets) (old new : MultiClusterIngress) (h : same_mci old new ≡ true) where
  backends_lem : backends old ≡ backends new
  unfolding backends
  backends_lem =
      let d : old.spec.default_backend ≡ new.spec.default_backend =
        eq_of_equal old.spec.default_backend new.spec.default_backend (ground arith) in
      let r : items old.spec.rules ≡ items new.spec.rules =
        eq_of_equal (items old.spec.rules) (items new.spec.rules) (ground arith) in
      rw (d, r) refl

  same_mci_lem : SameInputs sets old new
  unfolding build_service_ref_indexes build_secret_ref_indexes
  same_mci_lem = record {
    services =
        ap
          (λ bs. elim (insert_services sets sets.new bs) as (λ _. Option (List String)) [
            | none ↦ none
            | some s ↦ some (sets.list s)
          ])
          backends_lem;
    secrets =
        ap (λ ts. sets.list (insert_secrets sets sets.new ts))
          (eq_of_equal old.spec.tls new.spec.tls (ground arith));
    class_name = eq_of_equal old.spec.ingress_class_name new.spec.ingress_class_name (ground arith);
    annotations = λ k. (same_map_iff old.annotations new.annotations).0 (ground arith) k;
    lives = ground arith;
  }

-- The log after an update of an ingress, by whether the new one is of the class.
abbrev UpdateLogged :
    StringSets → Bool → MultiClusterIngress → MultiClusterIngress → List Event → List Event → Type 0
UpdateLogged sets true old new before after =
    (after ≡ queued (key_of new) ∷ before) ⊎ ((after ≡ before) × SameInputs sets old new)
UpdateLogged sets false old new before after = after ≡ before

module _ {C P : Type 0} (client : Client C) (sets : StringSets) (name : String)
    (old new : MultiClusterIngress) (w : World C P) where
  abbrev checked : World C P
  checked = (check_ingress_class_matched client new name w).1

  queue : Bool → M C P (Unit {0})
  queue matched =
      if not matched
      then pure tt
      else (if same_mci old new then pure tt else emit (queued (key_of new)))

  queue_lem :
      (matched : Bool) (v : World C P)
      → UpdateLogged sets matched old new v.log (queue matched v).1.log
  unfolding queue
  queue_lem false v = refl
  queue_lem true v = elim (Bool-cases (same_mci old new)) [
    | inl e ↦ rw e (inr (refl, same_mci_lem sets old new e))
    | inr n ↦ rw n (inl refl)
  ]

  -- An update of an ingress of the provider's class puts exactly the new ingress in the queue, or it
  -- puts nothing there and has left the services, the secrets, the class name, the annotations and
  -- the mark of deletion as they were. If the new ingress is not of that class nothing is queued,
  -- whatever the old one was.
  pub mci_updated_lem :
      (matched : Bool)
      → (check_ingress_class_matched client new name w).0 ≡ done matched
      → UpdateLogged sets matched old new w.log (mci_updated client name old new w).1.log
  unfolding mci_updated queue
  mci_updated_lem matched h =
      let kept = (check_ingress_class_matched-Keeps client (λ l. l ≡ w.log) new name).at w refl in
      rw (ap (λ r. (continue r queue checked).1.log) h) (
        subst (λ l. UpdateLogged sets matched old new l (queue matched checked).1.log) kept
          (queue_lem matched checked))
