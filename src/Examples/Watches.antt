-- ===== src/Examples/Watches.antt =====
-- The event handlers at concrete inputs.
use multicluster_cloud_provi.Prelude.{
  ℕ, ◌≡◌, ◌⊎◌, inl, inr, In, refl, true, none, some, [], ◌∷◌, ◌++◌, contains, items,
}
use multicluster_cloud_provi.Prelude.Texts.{sort_strings}
use multicluster_cloud_provi.Api.{MultiClusterIngress}
use multicluster_cloud_provi.Platform.{done, Client, queued, mci_signalled}
use multicluster_cloud_provi.Indexes.{build_service_ref_indexes}
use multicluster_cloud_provi.Util.{check_ingress_class_matched}
use multicluster_cloud_provi.TrafficBlock.{key_of, has_traffic_control, traffic_block_clusters}
use multicluster_cloud_provi.IngressWatch
use multicluster_cloud_provi.IngressWatch.{cluster_updated}
use multicluster_cloud_provi.IngressWatch.Relevant.{SameInputs, mci_updated_lem}
use multicluster_cloud_provi.IngressWatch.Clusters.{cluster_updated_lem, unsignalled_lem}
use multicluster_cloud_provi.ExportWatch
use multicluster_cloud_provi.ExportWatch.Refs.{Signalled, refs_lem}
use multicluster_cloud_provi.Examples.Fixtures.{
  client, string_sets, start, shop, east, calm_east, usual,
}

abbrev api : Client ℕ
api = client usual

-- The same ingress with another service.
abbrev store : MultiClusterIngress
store =
    let s = shop.spec in
    record shop {
      spec = record s {
        default_backend =
            some
              (record { service = some (record { name = "store"; port = 80 }); resource = none });
      };
    }

matches : (check_ingress_class_matched api store "cloud" start).0 ≡ done true
unfolding check_ingress_class_matched
matches = refl

mci_updated_lem_example :
    ((IngressWatch.mci_updated api "cloud" shop store start).1.log ≡ queued (key_of store) ∷ [])
    ⊎ (((IngressWatch.mci_updated api "cloud" shop store start).1.log ≡ [])
        × SameInputs string_sets shop store)
mci_updated_lem_example = mci_updated_lem api string_sets "cloud" shop store start true matches

cluster_updated_lem_example :
    ((cluster_updated api calm_east east start).0 ≡ done tt)
    × ((cluster_updated api calm_east east start).1.log ≡ mci_signalled shop ∷ [])
cluster_updated_lem_example =
    cluster_updated_lem api calm_east east start (shop ∷ []) (λ e. cc) refl

-- An ingress that no location puts anywhere.
abbrev nowhere : MultiClusterIngress
nowhere = let s = shop.status in record shop { status = record s { service_locations = none } }

abbrev lists : Client ℕ
lists = client (record usual { ingresses = nowhere ∷ shop ∷ [] })

unheard : ¬ In (mci_signalled nowhere) (cluster_updated lists calm_east east start).1.log
unfolding cluster_updated has_traffic_control
unheard (inl e) = cc
unheard (inr i) = absurd i

unsignalled_lem_example :
    contains (items (traffic_block_clusters string_sets nowhere ([] ++ calm_east ∷ []))) "east"
    ≡ contains (items (traffic_block_clusters string_sets nowhere ([] ++ east ∷ []))) "east"
unsignalled_lem_example =
    unsignalled_lem lists calm_east east start string_sets (nowhere ∷ shop ∷ []) nowhere [] [] refl
      refl (inl refl) unheard "east"

builds : build_service_ref_indexes string_sets shop ≡ some ("shop" ∷ [])
unfolding build_service_ref_indexes sort_strings
builds = refl

builds_store : build_service_ref_indexes string_sets store ≡ some ("store" ∷ [])
unfolding build_service_ref_indexes sort_strings
builds_store = refl

refs_lem_example :
    Signalled "default"
      ("shop" ∷ [])
      ("store" ∷ [])
      []
      (ExportWatch.mci_updated api string_sets "cloud" shop store start).1.log
refs_lem_example =
    refs_lem api string_sets "cloud" shop store start ("shop" ∷ []) ("store" ∷ []) matches builds
      builds_store
