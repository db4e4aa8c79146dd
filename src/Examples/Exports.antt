-- ===== src/Examples/Exports.antt =====
-- The propagation of service exports at concrete inputs.
use multicluster_cloud_provi.Prelude.{ℕ, ◌≡◌, refl, true, false, [], ◌∷◌}
use multicluster_cloud_provi.Prelude.Texts.{sort_strings}
use multicluster_cloud_provi.Api.{ok, err, not_found}
use multicluster_cloud_provi.Platform.{done, Client}
use multicluster_cloud_provi.Bindings.{get_cluster_results}
use multicluster_cloud_provi.ServiceExportPropagation.{
  need_ensure_service_export, reconcile, create_service_export_template,
  create_propagation_policy_template, policy_name,
}
use multicluster_cloud_provi.ServiceExportPropagation.Ensured.{reconcile-Ensured}
use multicluster_cloud_provi.ServiceExportPropagation.Propagated.{Ensured}
use multicluster_cloud_provi.ServiceExportPropagation.Removed.{Removed, reconcile-Removed}
use multicluster_cloud_provi.ServiceExportPropagation.Nonempty.{Targeted, reconcile-Targeted}
use multicluster_cloud_provi.Examples.Fixtures.{
  client, string_sets, key, start, shop_service, usual,
}

abbrev needing : Client ℕ
needing = client usual

-- Nothing uses the service any more, and the export and the policy are there.
abbrev unused : Client ℕ
unused = client (record usual {
  ingresses = [];
  service_mcs = err not_found;
  export = ok (create_service_export_template shop_service);
  policy =
      ok (create_propagation_policy_template (policy_name shop_service) shop_service ("east" ∷ []));
})

needs : (need_ensure_service_export needing string_sets shop_service start).0 ≡ done true
unfolding need_ensure_service_export
needs = refl

ensures : (reconcile needing string_sets key start).0 ≡ done tt
unfolding reconcile get_cluster_results sort_strings
ensures = refl

reconcile-Ensured_example :
    Ensured needing shop_service 0 [] (reconcile needing string_sets key start).1.log
unfolding need_ensure_service_export
reconcile-Ensured_example =
    reconcile-Ensured needing string_sets key shop_service start refl refl needs ensures

needs_none : (need_ensure_service_export unused string_sets shop_service start).0 ≡ done false
unfolding need_ensure_service_export
needs_none = refl

removes : (reconcile unused string_sets key start).0 ≡ done tt
unfolding reconcile
removes = refl

reconcile-Removed_example :
    Removed unused shop_service 0 [] (reconcile unused string_sets key start).1.log
unfolding need_ensure_service_export
reconcile-Removed_example =
    reconcile-Removed unused string_sets key shop_service start refl refl needs_none removes

reconcile-Targeted_example : Targeted (reconcile needing string_sets key start).1.log
reconcile-Targeted_example = reconcile-Targeted needing string_sets key start tt
