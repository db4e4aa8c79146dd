-- ===== src/ServiceExportPropagation/Nonempty.antt =====
-- A policy is never written without clusters.
use multicluster_cloud_provi.Prelude.{◌≡◌, refl, String, some, List, [], ◌∷◌}
use multicluster_cloud_provi.Api.{
  NamespacedName, Result, ok, err, Service, MultiClusterService, ServiceExport, PropagationPolicy,
}
use multicluster_cloud_provi.Platform.{
  World, Event, Client, policy_created, policy_updated, export_created, export_deleted,
  policy_deleted,
}
use multicluster_cloud_provi.Platform.Helpers.{StringSets}
use multicluster_cloud_provi.Platform.Keeps.{Keeps, keeps_rules}
use multicluster_cloud_provi.ServiceExportPropagation.{
  needed_by_mcs, need_ensure_service_export, get_binding_cluster_results, ensure_exported,
  update_names, ensure_policy, schedule, ensure_propagated, ensure_service_export, ignore_not_found,
  delete_got_export, delete_service_export, delete_got_policy, delete_propagation_policy,
  remove_service_export, reconcile_live, reconcile_got, reconcile,
  create_propagation_policy_template, policy_name, with_affinity,
}

-- The policy has an affinity, and it names a cluster.
abbrev NamesCluster : PropagationPolicy → Type 0
NamesCluster p = (c : String) × (cs : List String) × (p.spec.cluster_affinity ≡ some (c ∷ cs))

-- Every policy that is written names a cluster.
abbrev pub Targeted : List Event → Type 0
Targeted [] = Unit
Targeted (policy_created p r ∷ l) = NamesCluster p × Targeted l
Targeted (policy_updated p r ∷ l) = NamesCluster p × Targeted l
Targeted (e ∷ l) = Targeted l

policy_created-Targeted :
    (svc : Service) (c : String) (cs : List String) (r : Result PropagationPolicy) (l : List Event)
    → Targeted l
    → Targeted
        (policy_created (create_propagation_policy_template (policy_name svc) svc (c ∷ cs)) r ∷ l)
unfolding create_propagation_policy_template
policy_created-Targeted svc c cs r l i = ((c, cs, refl), i)

policy_updated-Targeted :
    (p : PropagationPolicy) (c : String) (cs : List String) (r : Result PropagationPolicy)
    (l : List Event)
    → Targeted l
    → Targeted (policy_updated (with_affinity (c ∷ cs) p) r ∷ l)
policy_updated-Targeted p c cs r l i = ((c, cs, refl), i)

export_created-Targeted :
    (e : ServiceExport) (r : Result ServiceExport) (l : List Event)
    → Targeted l
    → Targeted (export_created e r ∷ l)
export_created-Targeted e r l i = i

export_deleted-Targeted :
    (e : ServiceExport) (r : Result (Unit {0})) (l : List Event)
    → Targeted l
    → Targeted (export_deleted e r ∷ l)
export_deleted-Targeted e r l i = i

policy_deleted-Targeted :
    (p : PropagationPolicy) (r : Result (Unit {0})) (l : List Event)
    → Targeted l
    → Targeted (policy_deleted p r ∷ l)
policy_deleted-Targeted p r l i = i

module _ {C P : Type 0} (client : Client C) (sets : StringSets) where
  ensure_policy-Targeted :
      (svc : Service) (c : String) (cs : List String) (r : Result PropagationPolicy)
      → Keeps {C = C} {P = P} Targeted (ensure_policy client sets svc (c ∷ cs) r)
  unfolding ensure_policy update_names
  ensure_policy-Targeted svc c cs (ok p) = search (keeps_rules, policy_updated-Targeted) depth 9
  ensure_policy-Targeted svc c cs (err e) = search (keeps_rules, policy_created-Targeted) depth 9

  schedule-Targeted :
      (svc : Service) (clusters : List String)
      → Keeps {C = C} {P = P} Targeted (schedule client sets svc clusters)
  unfolding schedule
  schedule-Targeted svc [] = search (keeps_rules)
  schedule-Targeted svc (c ∷ cs) = search (keeps_rules, ensure_policy-Targeted) depth 9

  ensure_exported-Targeted :
      (svc : Service) (r : Result ServiceExport)
      → Keeps {C = C} {P = P} Targeted (ensure_exported client sets svc r)
  unfolding ensure_exported
  ensure_exported-Targeted svc (ok e) = search (keeps_rules)
  ensure_exported-Targeted svc (err e) = search (keeps_rules, export_created-Targeted) depth 9

  ensure_service_export-Targeted :
      (svc : Service) → Keeps {C = C} {P = P} Targeted (ensure_service_export client sets svc)
  unfolding ensure_service_export ensure_propagated get_binding_cluster_results
  ensure_service_export-Targeted svc =
      search (keeps_rules, ensure_exported-Targeted, schedule-Targeted) depth 12

  ignore_not_found-Targeted :
      (r : Result (Unit {0})) → Keeps {C = C} {P = P} Targeted (ignore_not_found client sets r)
  unfolding ignore_not_found
  ignore_not_found-Targeted (ok u) = search (keeps_rules)
  ignore_not_found-Targeted (err e) = search (keeps_rules)

  delete_got_export-Targeted :
      (r : Result ServiceExport) → Keeps {C = C} {P = P} Targeted (delete_got_export client sets r)
  unfolding delete_got_export
  delete_got_export-Targeted (ok e) =
      search (keeps_rules, export_deleted-Targeted, ignore_not_found-Targeted) depth 9
  delete_got_export-Targeted (err e) = search (keeps_rules)

  delete_got_policy-Targeted :
      (r : Result PropagationPolicy)
      → Keeps {C = C} {P = P} Targeted (delete_got_policy client sets r)
  unfolding delete_got_policy
  delete_got_policy-Targeted (ok e) =
      search (keeps_rules, policy_deleted-Targeted, ignore_not_found-Targeted) depth 9
  delete_got_policy-Targeted (err e) = search (keeps_rules)

  remove_service_export-Targeted :
      (svc : Service) → Keeps {C = C} {P = P} Targeted (remove_service_export client sets svc)
  unfolding remove_service_export delete_service_export delete_propagation_policy
  remove_service_export-Targeted svc =
      search (keeps_rules, delete_got_export-Targeted, delete_got_policy-Targeted) depth 9

  needed_by_mcs-Targeted :
      (r : Result MultiClusterService)
      → Keeps {C = C} {P = P} Targeted (needed_by_mcs client sets r)
  unfolding needed_by_mcs
  needed_by_mcs-Targeted (ok m) = search (keeps_rules)
  needed_by_mcs-Targeted (err e) = search (keeps_rules)

  reconcile_got-Targeted :
      (r : Result Service) → Keeps {C = C} {P = P} Targeted (reconcile_got client sets r)
  unfolding reconcile_got reconcile_live need_ensure_service_export
  reconcile_got-Targeted (ok svc) =
      search
        (
          keeps_rules, ensure_service_export-Targeted, remove_service_export-Targeted,
          needed_by_mcs-Targeted,
        )
        depth 12
  reconcile_got-Targeted (err e) = search (keeps_rules)

  -- In every run of the reconciler, whatever the API server answers, a policy that is created or
  -- updated has an affinity that names at least one cluster.
  pub reconcile-Targeted :
      (req : NamespacedName) (w : World C P)
      → Targeted w.log
      → Targeted (reconcile client sets req w).1.log
  unfolding reconcile
  reconcile-Targeted req w h =
      let got = client.get_service req w.api in
      (reconcile_got-Targeted got.0).at (record w { api = got.1 }) h
