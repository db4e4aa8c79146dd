-- ===== src/Examples/Lookups.antt =====
-- The indexes, the classes and the types at concrete inputs.
use multicluster_cloud_provi.Prelude.{◌≡◌, ◌↔◌, String, true, List, none, some, contains}
use multicluster_cloud_provi.Prelude.Texts.{IsSorted}
use multicluster_cloud_provi.Api.{IngressBackend}
use multicluster_cloud_provi.Platform.{done}
use multicluster_cloud_provi.Indexes.{build_service_ref_indexes}
use multicluster_cloud_provi.Indexes.Backends.{BackendOf}
use multicluster_cloud_provi.Indexes.References.{RefersTo, service_index_lem}
use multicluster_cloud_provi.Util.{check_ingress_class_matched}
use multicluster_cloud_provi.Util.IngressClasses.{Matched, check_ingress_class_matched_lem}
use multicluster_cloud_provi.Examples.Fixtures.{client, string_sets, start, shop, usual}

check_ingress_class_matched_lem_example :
    ((check_ingress_class_matched (client usual) shop "cloud" start).0 ≡ done true)
    ↔ Matched (client usual) 0 shop "cloud"
check_ingress_class_matched_lem_example =
    check_ingress_class_matched_lem (client usual) shop "cloud" start

service_index_lem_example :
    ((build_service_ref_indexes string_sets shop ≡ none)
      ↔ ((b : IngressBackend) × BackendOf shop b × (b.service ≡ none)))
    × ((names : List String)
        → build_service_ref_indexes string_sets shop ≡ some names
        → ((name : String) → (contains names name ≡ true) ↔ RefersTo shop name) × IsSorted names)
service_index_lem_example = service_index_lem string_sets shop
