-- ===== src/Examples/Locations.antt =====
-- The service locations at concrete inputs.
use multicluster_cloud_provi.Prelude.{
  ℕ, zero, suc, ◌≡◌, ◌↔◌, refl, String, Bool, true, false, none, some, List, [], ◌∷◌, contains,
  items, Slice,
}
use multicluster_cloud_provi.Prelude.Equality.{◌==◌, option_eq, string_eq, list_eq}
use multicluster_cloud_provi.Prelude.Texts.{IsSorted, sort_strings}
use multicluster_cloud_provi.Api.{
  Result, ok, err, conflict, other, MultiClusterIngress, ServiceLocation, location_eq,
}
use multicluster_cloud_provi.Platform.{World, done, mci_got, mci_status_updated}
use multicluster_cloud_provi.Platform.Runtime.{Runtime}
use multicluster_cloud_provi.Platform.StatusSync.{sync}
use multicluster_cloud_provi.Platform.StatusSync.Saved.{Saved}
use multicluster_cloud_provi.Indexes.{build_service_ref_indexes}
use multicluster_cloud_provi.Indexes.References.{RefersTo}
use multicluster_cloud_provi.Bindings.{obtain_binding_clusters}
use multicluster_cloud_provi.ServiceLocations.{
  with_locations, calculate_service_locations, reconcile,
}
use multicluster_cloud_provi.ServiceLocations.Coverage.{Locates, located_names}
use multicluster_cloud_provi.ServiceLocations.Located.{calculate_service_locations_lem}
use multicluster_cloud_provi.ServiceLocations.Sync.{locations-Synced, locations_lost}
use multicluster_cloud_provi.Examples.Fixtures.{
  runtime, string_sets, key, start, shop, shop_binding, usual, unlucky,
}

abbrev generate : String → String → String
generate kind name = name

abbrev rt : Runtime ℕ
rt = runtime usual

abbrev got : World ℕ Bool
got = record start { log = mci_got key (ok shop) ∷ [] }

abbrev locations : Slice ServiceLocation
locations = some (
    record { name = "shop"; clusters = some (obtain_binding_clusters string_sets shop_binding) }
    ∷ [])

calculates : (calculate_service_locations rt generate shop got).0 ≡ done locations
unfolding calculate_service_locations build_service_ref_indexes sort_strings
calculates = refl

calculate_service_locations_lem_example :
    (names : List String) × ((name : String) → (contains names name ≡ true) ↔ RefersTo shop name)
    × Locates rt generate "default" start.api names (items locations)
    × IsSorted (located_names (items locations))
    × ((calculate_service_locations rt generate shop got).1.log ≡ mci_got key (ok shop) ∷ [])
calculate_service_locations_lem_example =
    calculate_service_locations_lem rt generate shop locations got calculates

-- An ingress without locations.
abbrev unplaced : MultiClusterIngress
unplaced = let s = shop.status in record shop { status = record s { service_locations = none } }

abbrev first_got : World ℕ Bool
first_got = record start { log = mci_got key (ok unplaced) ∷ [] }

abbrev placing : Runtime ℕ
placing = runtime (record usual { ingress = λ n. ok unplaced })

places : (calculate_service_locations placing generate unplaced first_got).0 ≡ done locations
unfolding calculate_service_locations build_service_ref_indexes sort_strings
places = refl

-- The locations are stored.
runs : (reconcile placing generate key start).0 ≡ done tt
unfolding reconcile build_service_ref_indexes sort_strings sync obtain_binding_clusters
runs = refl

locations-Synced_example :
    Saved placing.client key
      (λ x. x.status.service_locations ≡ locations)
      (with_locations locations)
      unplaced
      (mci_got key (ok unplaced) ∷ [])
      (reconcile placing generate key start).1.log
locations-Synced_example =
    locations-Synced placing generate key unplaced start locations refl places runs

-- An API server that answers with the ingress only once.
abbrev once : ℕ → Result MultiClusterIngress
once zero = ok unplaced
once (suc n) = err (other "timeout")

abbrev losing : Runtime ℕ
losing = runtime (record unlucky { ingress = once })

loses : (calculate_service_locations losing generate unplaced first_got).0 ≡ done locations
unfolding calculate_service_locations build_service_ref_indexes sort_strings
loses = refl

differs : (locations == unplaced.status.service_locations) ≡ false
unfolding obtain_binding_clusters
differs = refl

refused :
    (losing.client.update_mci_status
      (with_locations locations unplaced)
      (calculate_service_locations losing generate unplaced first_got).1.api).0
    ≡ err conflict
unfolding calculate_service_locations build_service_ref_indexes sort_strings
refused = refl

timed_out :
    (losing.client.get_mci key
      (losing.client.update_mci_status
        (with_locations locations unplaced)
        (calculate_service_locations losing generate unplaced first_got).1.api).1).0
    ≡ err (other "timeout")
unfolding calculate_service_locations build_service_ref_indexes sort_strings
timed_out = refl

locations_lost_example :
    ((reconcile losing generate key start).0 ≡ done tt)
    × ((reconcile losing generate key start).1.log
        ≡ mci_got key (err (other "timeout"))
          ∷ mci_status_updated (with_locations locations unplaced) (err conflict)
          ∷ mci_got key (ok unplaced)
          ∷ [])
locations_lost_example =
    locations_lost losing generate key unplaced start locations refl loses (other "timeout") differs
      refused timed_out
