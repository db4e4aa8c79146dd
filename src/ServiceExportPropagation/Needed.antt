-- ===== src/ServiceExportPropagation/Needed.antt =====
-- When a service needs an export.
use multicluster_cloud_provi.Prelude.{
  ◌≡◌, refl, inl, inr, Bool, false, not, ◌||◌, List, [], ◌∷◌, is_empty, Bool-cases,
}
use multicluster_cloud_provi.Prelude.Equality.{list_eq, string_eq}
use multicluster_cloud_provi.Api.{
  is_not_found, Result, ok, err, Result-cases, Service, MultiClusterIngress, MultiClusterService,
}
use multicluster_cloud_provi.Platform.{done, World, Client}
use multicluster_cloud_provi.Platform.Helpers.{StringSets}
use multicluster_cloud_provi.Indexes.{index_key_service_ref_name}
use multicluster_cloud_provi.Util.{mcs_contain_load_balance_type}
use multicluster_cloud_provi.ServiceExportPropagation.{
  service_key, need_ensure_service_export, needed_by_mcs,
}

-- The MultiClusterService of that name is there and of the load balancer type.
abbrev is_exposed : Result MultiClusterService → Bool
is_exposed (ok mcs) = mcs_contain_load_balance_type mcs
is_exposed (err e) = false

module _ {C P : Type 0} (client : Client C) (sets : StringSets) (svc : Service) where
  exposed_lem :
      (r : Result MultiClusterService) (w : World C P) (b : Bool)
      → (needed_by_mcs client sets r w).0 ≡ done b
      → (b ≡ is_exposed r) × ((needed_by_mcs client sets r w).1.log ≡ w.log)
  unfolding needed_by_mcs
  exposed_lem (ok mcs) w b h = (cc, refl)
  exposed_lem (err e) w b h = elim (Bool-cases (is_not_found e)) [
    | inl n ↦ (cc (rw n at h), rw n refl)
    | inr n ↦ absurd (cc (rw n at h))
  ]

  -- When it is decided without error whether a service needs an export, it needs one exactly if the
  -- index of the ingresses by service gives one in its namespace, or else the MultiClusterService of
  -- the same name exists and has the load balancer type; and nothing has been written.
  pub needed_lem :
      (b : Bool) (w : World C P)
      → (need_ensure_service_export client sets svc w).0 ≡ done b
      → ((mcis : List MultiClusterIngress) × ((client.list_mcis_by_index svc.namespace
              index_key_service_ref_name svc.name w.api).0
            ≡ ok mcis)
          × (b ≡ (
              not (is_empty mcis)
              || is_exposed
                  (client.get_mcs
                    (service_key svc)
                    (client.list_mcis_by_index svc.namespace index_key_service_ref_name svc.name
                      w.api).1).0)))
        × ((need_ensure_service_export client sets svc w).1.log ≡ w.log)
  unfolding need_ensure_service_export needed_by_mcs
  needed_lem b w h = elim (Result-cases listed.0) [
    | inl ([], e) ↦
        let got = client.get_mcs (service_key svc) listed.1 in
        let (same, log) = exposed_lem got.0 (record w { api = got.1 }) b (rw e at h) in
        (([], e, same), rw e log)
    | inl (m ∷ ms, e) ↦ ((m ∷ ms, e, cc (rw e at h)), rw e refl)
    | inr (f, e) ↦ absurd (cc (rw e at h))
  ]
    where
      listed : Result (List MultiClusterIngress) × C
      listed = client.list_mcis_by_index svc.namespace index_key_service_ref_name svc.name w.api
