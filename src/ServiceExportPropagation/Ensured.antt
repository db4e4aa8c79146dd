-- ===== src/ServiceExportPropagation/Ensured.antt =====
-- What has been done when a service has been ensured.
use multicluster_cloud_provi.Prelude.{
  ◌≡◌, ◌≢◌, arith, refl, sym, ap, subst, ◌∙◌, inl, inr, String, Bool, true, false, Option, none,
  some, List, [], ◌∷◌, Bool-cases, if◌then◌else◌,
}
use multicluster_cloud_provi.Prelude.Equality.{◌==◌, list_eq, string_eq, eq_of_equal, equal_refl}
use multicluster_cloud_provi.Api.{
  NamespacedName, is_not_found, not_found_lem, Result, ok, err, is_zero, Result-cases, Service,
  ServiceExport, PropagationPolicy, ResourceBinding,
}
use multicluster_cloud_provi.Platform.{
  done, continue, bind-done, ◌>>◌, check, pure, deref, World, Event, Client, export_created,
  policy_created, policy_updated, M,
}
use multicluster_cloud_provi.Platform.Helpers.{StringSets}
use multicluster_cloud_provi.Bindings.{get_cluster_results}
use multicluster_cloud_provi.ServiceExportPropagation.{
  service_key, policy_key, policy_name, create_service_export_template,
  create_propagation_policy_template, target_binding_spec, with_affinity,
  need_ensure_service_export, get_binding_cluster_results, ensure_exported, update_names, schedule,
  ensure_policy, ensure_propagated, ensure_service_export, remove_service_export, reconcile_live,
  reconcile_got, reconcile,
}
use multicluster_cloud_provi.ServiceExportPropagation.Propagated.{
  Exported, present, created, Propagated, introduced, unscheduled, settled, updated, Ensured,
}
use multicluster_cloud_provi.ServiceExportPropagation.Targets.{Schedules-target}
use multicluster_cloud_provi.ServiceExportPropagation.Needed.{needed_lem}

template_affinity :
    (svc : Service) (clusters : List String)
    → (create_propagation_policy_template (policy_name svc) svc clusters).spec.cluster_affinity
      ≡ some clusters
unfolding create_propagation_policy_template
template_affinity svc clusters = refl

module _ {C P : Type 0} (client : Client C) (sets : StringSets) (svc : Service) where
  checked_done :
      {A : Type 0} (r : Result A) (w : World C P)
      → ((check r >> pure tt) w).0 ≡ done tt
      → ((a : A) × (r ≡ ok a)) × (((check r >> pure tt) w).1 ≡ w)
  checked_done (ok a) w h = ((a, refl), refl)
  checked_done (err e) w h = absurd (cc)

  deref_done :
      {A : Type 0} (o : Option A) (a : A) (w : World C P)
      → (deref o w).0 ≡ done a
      → (o ≡ some a) × ((deref o w).1 ≡ w)
  deref_done none a w h = cc
  deref_done (some b) a w h = (cc, refl)

  exported_lem :
      (r : Result ServiceExport) (c : C) (w : World C P)
      → (client.get_service_export (service_key svc) c).0 ≡ r
      → w.api ≡ (client.get_service_export (service_key svc) c).1
      → (ensure_exported client sets svc r w).0 ≡ done tt
      → Exported client svc c
          (ensure_exported client sets svc r w).1.api
          w.log
          (ensure_exported client sets svc r w).1.log
  unfolding ensure_exported
  exported_lem (ok e) c w g a h = present e g a refl
  exported_lem (err e) c w g a h = elim (Bool-cases (is_not_found e)) [
    | inl n ↦
        let export = create_service_export_template svc in
        let answer = client.create_service_export export w.api in
        let ((x, p), same) =
          checked_done answer.0
            (record w { log = export_created export answer.0 ∷ w.log; api = answer.1 })
            (rw n at h) in
        rw n (
          created x (g ∙ ap err (not_found_lem e n))
            (ap (client.create_service_export export) (sym a)
              ∙ ap (λ y. (y, answer.1)) p
              ∙ ap (λ (v : World C P). (ok x, v.api)) (sym same))
            (ap (λ v. v.log) same ∙ ap (λ r. export_created export r ∷ w.log) p))
    | inr n ↦ absurd (cc (rw n at h))
  ]

  module _ (clusters : List String) (nonempty : clusters ≢ []) (c : C) where
    names_lem :
        (p : PropagationPolicy) (names : List String) (w : World C P)
        → (client.get_policy (policy_key svc) c).0 ≡ ok p
        → p.spec.cluster_affinity ≡ some names
        → (update_names client sets clusters p names w).0 ≡ done tt
        → Propagated client svc clusters c w.log (update_names client sets clusters p names w).1.log
    unfolding update_names
    names_lem p names w g a h = elim (Bool-cases (names == clusters)) [
      | inl e ↦ rw e (settled p g (a ∙ ap some (eq_of_equal names clusters e)) refl)
      | inr n ↦
          let changed = with_affinity clusters p in
          let answer = client.update_policy changed w.api in
          let ((q, e), same) =
            checked_done answer.0
              (record w { log = policy_updated changed answer.0 ∷ w.log; api = answer.1 })
              (rw n at h) in
          rw n (
            updated p q names nonempty g a (differs n) refl
              (ap (λ v. v.log) same ∙ ap (λ r. policy_updated changed r ∷ w.log) e))
    ]
      where
        differs : (names == clusters) ≡ false → names ≢ clusters
        differs n e = ground (arith, ap (λ l. l == clusters) e, equal_refl clusters)

    policy_lem :
        (r : Result PropagationPolicy) (w : World C P)
        → (client.get_policy (policy_key svc) c).0 ≡ r
        → (ensure_policy client sets svc clusters r w).0 ≡ done tt
        → Propagated client svc clusters c w.log (ensure_policy client sets svc clusters r w).1.log
    unfolding ensure_policy
    policy_lem (ok p) w g h =
        let (names, e, d) =
          bind-done (deref p.spec.cluster_affinity) (update_names client sets clusters p) tt w h in
        let (a, same) = deref_done p.spec.cluster_affinity names w d in
        let whole = e ∙ ap (update_names client sets clusters p names) same in
        rw (ap (λ r. r.1.log) whole) (names_lem p names w g a (ap (λ r. r.0) (sym whole) ∙ h))
    policy_lem (err e) w g h = elim (Bool-cases (is_not_found e)) [
      | inl n ↦
          let policy = create_propagation_policy_template (policy_name svc) svc clusters in
          let answer = client.create_policy policy w.api in
          let ((x, p), same) =
            checked_done answer.0
              (record w { log = policy_created policy answer.0 ∷ w.log; api = answer.1 })
              (rw n at h) in
          rw n (
            introduced x nonempty (g ∙ ap err (not_found_lem e n)) (template_affinity svc clusters)
              (ap (λ v. v.log) same ∙ ap (λ r. policy_created policy r ∷ w.log) p))
      | inr n ↦ absurd (cc (rw n at h))
    ]

  scheduled_lem :
      (clusters : List String) (w : World C P)
      → (schedule client sets svc clusters w).0 ≡ done tt
      → Propagated client svc clusters w.api w.log (schedule client sets svc clusters w).1.log
  unfolding schedule
  scheduled_lem [] w h = unscheduled refl refl
  scheduled_lem (c ∷ cs) w h =
      let got = client.get_policy (policy_key svc) w.api in
      policy_lem (c ∷ cs) (λ e. cc) w.api got.0 (record w { api = got.1 }) refl h

  results_done :
      (cs : List String) (w : World C P)
      → (get_binding_cluster_results client sets svc w).0 ≡ done cs
      → ((bs : List ResourceBinding) × ((client.list_bindings svc.namespace w.api).0 ≡ ok bs)
          × (cs ≡ get_cluster_results sets (target_binding_spec svc.name bs)))
        × ((get_binding_cluster_results client sets svc w).1
            ≡ record w { api = (client.list_bindings svc.namespace w.api).1 })
  unfolding get_binding_cluster_results
  results_done cs w h = elim (Result-cases (client.list_bindings svc.namespace w.api).0) [
    | inl (bs, e) ↦ ((bs, e, cc (rw e at h)), rw e refl)
    | inr (f, e) ↦ absurd (cc (rw e at h))
  ]

  propagated_lem :
      (c : C) (before : List Event) (w : World C P)
      → Exported client svc c w.api before w.log
      → (ensure_propagated client sets svc w).0 ≡ done tt
      → Ensured client svc c before (ensure_propagated client sets svc w).1.log
  unfolding ensure_propagated
  propagated_lem c before w x h =
      let (cs, e, d) =
        bind-done (get_binding_cluster_results client sets svc) (schedule client sets svc) tt w h in
      let ((bs, l, same), world) = results_done cs w d in
      let w' = (get_binding_cluster_results client sets svc w).1 in
      let after = (schedule client sets svc cs w').1.log in
      let q = scheduled_lem cs w' (ap (λ r. r.0) (sym e) ∙ h) in
      let listed = record w { api = (client.list_bindings svc.namespace w.api).1 } in
      rw (ap (λ r. r.1.log) e) record {
        between = w.log;
        listed_at = w.api;
        exported = x;
        bindings = bs;
        listing = l;
        clusters = get_cluster_results sets (target_binding_spec svc.name bs);
        scheduled = Schedules-target sets svc.name bs;
        propagated =
            subst (λ cs'. Propagated client svc cs' listed.api w.log after) same
              (subst (λ (v : World C P). Propagated client svc cs v.api v.log after) world q);
      }

  ensured_lem :
      (w : World C P)
      → (ensure_service_export client sets svc w).0 ≡ done tt
      → Ensured client svc w.api w.log (ensure_service_export client sets svc w).1.log
  unfolding ensure_service_export
  ensured_lem w h =
      let got = client.get_service_export (service_key svc) w.api in
      let w' = record w { api = got.1 } in
      let (u, e, d) =
        bind-done (ensure_exported client sets svc got.0) (λ _. ensure_propagated client sets svc)
          tt w' h in
      let x = exported_lem got.0 w.api w' refl refl d in
      rw (ap (λ r. r.1.log) e) (
        propagated_lem w.api w.log (ensure_exported client sets svc got.0 w').1 x
          (ap (λ r. r.0) (sym e) ∙ h))

module _ {C P : Type 0} (client : Client C) (sets : StringSets) (req : NamespacedName)
    (svc : Service) (w : World C P) where
  abbrev found : World C P
  found = record w { api = (client.get_service req w.api).1 }

  abbrev decided : World C P
  decided = (need_ensure_service_export client sets svc found).1

  -- When the reconciler of a live service returns no error, and the service has been found to need
  -- an export, then the export was there or this run has created it, from the template. After that
  -- the bindings of the namespace are listed; the clusters are those that the first one of kind
  -- "Service" with this name, or a binding that requires it, is scheduled to, in ascending order,
  -- and none if there is no such binding. If there are none, the policy is left as it is; otherwise
  -- it names exactly these clusters, or it has been created with them, or updated to them.
  pub reconcile-Ensured :
      (client.get_service req w.api).0 ≡ ok svc
      → is_zero svc.deletion_timestamp ≡ true
      → (need_ensure_service_export client sets svc found).0 ≡ done true
      → (reconcile client sets req w).0 ≡ done tt
      → Ensured client svc decided.api w.log (reconcile client sets req w).1.log
  unfolding reconcile reconcile_got reconcile_live
  reconcile-Ensured g z n h =
      let branch : Bool → M C P (Unit {0}) = λ b.
        if b
        then ensure_service_export client sets svc
        else remove_service_export client sets svc in
      let same : reconcile client sets req w ≡ ensure_service_export client sets svc decided =
        (rw (g, z) refl) ∙ ap (λ r. continue r branch decided) n in
      rw (ap (λ r. r.1.log) same) (
        subst
          (λ l.
            Ensured client svc decided.api l (ensure_service_export client sets svc decided).1.log)
          (needed_lem client sets svc true found n).1
          (ensured_lem client sets svc decided (ap (λ r. r.0) (sym same) ∙ h)))
