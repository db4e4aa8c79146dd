-- ===== src/ServiceExportPropagation/Removed.antt =====
-- What has been done when the export and the policy of a service have been removed.
use multicluster_cloud_provi.Prelude.{
  ◌≡◌, refl, sym, ap, subst, ◌∙◌, inl, inr, Bool, true, false, List, ◌∷◌, Bool-cases, if◌then◌else◌,
}
use multicluster_cloud_provi.Api.{
  NamespacedName, not_found, not_found_lem, is_not_found, Result, ok, err, is_zero, Result-cases,
  Service, ServiceExport, PropagationPolicy,
}
use multicluster_cloud_provi.Platform.{
  done, continue, bind-done, World, M, Event, Call, Client, export_deleted, policy_deleted,
}
use multicluster_cloud_provi.Platform.Helpers.{StringSets}
use multicluster_cloud_provi.ServiceExportPropagation.{
  service_key, policy_key, need_ensure_service_export, ignore_not_found, delete_got_export,
  delete_service_export, delete_got_policy, delete_propagation_policy, ensure_service_export,
  remove_service_export, reconcile_live, reconcile_got, reconcile,
}
use multicluster_cloud_provi.ServiceExportPropagation.Needed.{needed_lem}

-- How an object came to be gone, from the server's state `c` to `d`: Get has answered that there is
-- none, or it has been deleted, by this run or by another client before it.
pub data Gone {C A : Type 0} (get : Call C A) (delete : A → Call C (Unit {0}))
    (entry : A → Result (Unit {0}) → Event) (c d : C) (before after : List Event) : Type 0 where
  absent :
      (get c).0 ≡ err not_found
      → d ≡ (get c).1
      → after ≡ before
      → Gone get delete entry c d before after
  deleted :
      (a : A)
      → (get c).0 ≡ ok a
      → delete a (get c).1 ≡ (ok tt, d)
      → after ≡ entry a (ok tt) ∷ before
      → Gone get delete entry c d before after
  raced :
      (a : A)
      → (get c).0 ≡ ok a
      → delete a (get c).1 ≡ (err not_found, d)
      → after ≡ entry a (err not_found) ∷ before
      → Gone get delete entry c d before after

abbrev ExportGone : {C : Type 0} → Client C → Service → C → C → List Event → List Event → Type 0
ExportGone client svc =
    Gone (client.get_service_export (service_key svc)) client.delete_service_export export_deleted

abbrev PolicyGone : {C : Type 0} → Client C → Service → C → C → List Event → List Event → Type 0
PolicyGone client svc =
    Gone (client.get_policy (policy_key svc)) client.delete_policy policy_deleted

-- First the export is gone, then the policy.
pub record Removed {C : Type 0} (client : Client C) (svc : Service) (c : C)
    (before after : List Event) : Type 0 where
  pub between : List Event
  pub middle : C
  end : C
  export_gone : ExportGone client svc c middle before between
  policy_gone : PolicyGone client svc middle end between after

module _ {C P : Type 0} (client : Client C) (sets : StringSets) where
  ignored_lem :
      {A : Type 0} (get : Call C A) (delete : A → Call C (Unit {0}))
      (entry : A → Result (Unit {0}) → Event) (a : A) (c : C) (before : List Event)
      (r : Result (Unit {0})) (w : World C P)
      → (get c).0 ≡ ok a
      → delete a (get c).1 ≡ (r, w.api)
      → w.log ≡ entry a r ∷ before
      → (ignore_not_found client sets r w).0 ≡ done tt
      → Gone get delete entry c
          (ignore_not_found client sets r w).1.api
          before
          (ignore_not_found client sets r w).1.log
  unfolding ignore_not_found
  ignored_lem get delete entry a c before (ok u) w g q l h = deleted a g q l
  ignored_lem get delete entry a c before (err e) w g q l h = elim (Bool-cases (is_not_found e)) [
    | inl n ↦
        let same = not_found_lem e n in
        rw n (
          raced a g (q ∙ ap (λ x. (err x, w.api)) same)
            (l ∙ ap (λ x. entry a (err x) ∷ before) same))
    | inr n ↦ absurd (cc (rw n at h))
  ]

  export_lem :
      (svc : Service) (w : World C P)
      → (delete_service_export client sets svc w).0 ≡ done tt
      → ExportGone client svc w.api
          (delete_service_export client sets svc w).1.api
          w.log
          (delete_service_export client sets svc w).1.log
  unfolding delete_service_export delete_got_export
  export_lem svc w h = elim (Result-cases got.0) [
    | inl (a, e) ↦
        let answer = client.delete_service_export a got.1 in
        let t = rw e at h in
        rw e (
          ignored_lem (client.get_service_export (service_key svc)) client.delete_service_export
            export_deleted a w.api w.log answer.0
            (record w { log = export_deleted a answer.0 ∷ w.log; api = answer.1 }) e refl refl t)
    | inr (f, e) ↦ elim (Bool-cases (is_not_found f)) [
      | inl n ↦ rw (e, n) (absent (e ∙ ap err (not_found_lem f n)) refl refl)
      | inr n ↦ absurd (cc (rw (e, n) at h))
    ]
  ]
    where
      got : Result ServiceExport × C
      got = client.get_service_export (service_key svc) w.api

  policy_lem :
      (svc : Service) (w : World C P)
      → (delete_propagation_policy client sets svc w).0 ≡ done tt
      → PolicyGone client svc w.api
          (delete_propagation_policy client sets svc w).1.api
          w.log
          (delete_propagation_policy client sets svc w).1.log
  unfolding delete_propagation_policy delete_got_policy
  policy_lem svc w h = elim (Result-cases got.0) [
    | inl (a, e) ↦
        let answer = client.delete_policy a got.1 in
        let t = rw e at h in
        rw e (
          ignored_lem (client.get_policy (policy_key svc)) client.delete_policy policy_deleted a
            w.api w.log answer.0
            (record w { log = policy_deleted a answer.0 ∷ w.log; api = answer.1 }) e refl refl t)
    | inr (f, e) ↦ elim (Bool-cases (is_not_found f)) [
      | inl n ↦ rw (e, n) (absent (e ∙ ap err (not_found_lem f n)) refl refl)
      | inr n ↦ absurd (cc (rw (e, n) at h))
    ]
  ]
    where
      got : Result PropagationPolicy × C
      got = client.get_policy (policy_key svc) w.api

  removed_lem :
      (svc : Service) (w : World C P)
      → (remove_service_export client sets svc w).0 ≡ done tt
      → Removed client svc w.api w.log (remove_service_export client sets svc w).1.log
  unfolding remove_service_export
  removed_lem svc w h =
      let (u, e, d) =
        bind-done (delete_service_export client sets svc)
          (λ _. delete_propagation_policy client sets svc) tt w h in
      let w' = (delete_service_export client sets svc w).1 in
      rw (ap (λ r. r.1.log) e) record {
        between = w'.log;
        middle = w'.api;
        end = (delete_propagation_policy client sets svc w').1.api;
        export_gone = export_lem svc w d;
        policy_gone = policy_lem svc w' (ap (λ r. r.0) (sym e) ∙ h);
      }

module _ {C P : Type 0} (client : Client C) (sets : StringSets) (req : NamespacedName)
    (svc : Service) (w : World C P) where
  abbrev found : World C P
  found = record w { api = (client.get_service req w.api).1 }

  module _ (g : (client.get_service req w.api).0 ≡ ok svc)
      (z : is_zero svc.deletion_timestamp ≡ true)
      (n : (need_ensure_service_export client sets svc found).0 ≡ done false) where
    abbrev decided : World C P
    decided = (need_ensure_service_export client sets svc found).1

    removes : reconcile client sets req w ≡ remove_service_export client sets svc decided
    unfolding reconcile reconcile_got reconcile_live
    removes =
        let branch : Bool → M C P (Unit {0}) = λ b.
          if b
          then ensure_service_export client sets svc
          else remove_service_export client sets svc in
        rw (g, z) refl ∙ ap (λ r. continue r branch decided) n

    -- When the reconciler of a live service that needs no export returns no error, first the export
    -- and then the policy of the service is gone: Get has answered that there is none, or it has been
    -- deleted, or the deletion has answered that there is none.
    pub reconcile-Removed :
        (reconcile client sets req w).0 ≡ done tt
        → Removed client svc decided.api w.log (reconcile client sets req w).1.log
    reconcile-Removed h = rw (ap (λ r. r.1.log) removes) (
        subst
          (λ l.
            Removed client svc decided.api l (remove_service_export client sets svc decided).1.log)
          (needed_lem client sets svc false found n).1
          (removed_lem client sets svc decided (ap (λ r. r.0) (sym removes) ∙ h)))
