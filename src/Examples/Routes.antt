-- ===== src/Examples/Routes.antt =====
-- The watches, and the way of an event to the queue, at concrete inputs.
use multicluster_cloud_provi.Prelude.{
  ℕ, zero, suc, ◌≡◌, ◌≢◌, ◌↔◌, refl, sym, ap, ◌∙◌, inl, inr, Bool, true, none, some, List, [], ◌∷◌,
  In,
}
use multicluster_cloud_provi.Prelude.Texts.{sort_strings}
use multicluster_cloud_provi.Api.{
  NamespacedName, named, ok, MultiClusterIngress, MultiClusterService, EndpointSlice,
  ResourceBinding,
}
use multicluster_cloud_provi.Platform.{
  done, World, queued, mci_signalled, mcs_signalled, service_signalled,
}
use multicluster_cloud_provi.Platform.Watching.{
  created, sent, updated, kind, channel, deliver, Watch, mci_handlers, mcs_handlers,
  service_handlers, slice_handlers, binding_handlers, Manager, Managed, set_up, watch_all,
}
use multicluster_cloud_provi.Indexes.{build_service_ref_indexes}
use multicluster_cloud_provi.Indexes.References.{RefersTo}
use multicluster_cloud_provi.Indexes.Cached.{Indexed}
use multicluster_cloud_provi.Util.{check_ingress_class_matched}
use multicluster_cloud_provi.TrafficBlock.{key_of}
use multicluster_cloud_provi.Bindings.{obtain_binding_clusters}
use multicluster_cloud_provi.LocationWatch.{binding_requests}
use multicluster_cloud_provi.LocationWatch.Routes.{at_listing, binding_requests_ingresses}
use multicluster_cloud_provi.IngressWatch.{service_named}
use multicluster_cloud_provi.IngressWatch.Setup as IngressSetup
use multicluster_cloud_provi.IngressWatch.Routes.{service_reaches_ingresses}
use multicluster_cloud_provi.McsWatch
use multicluster_cloud_provi.McsWatch.{mcs_named, mcs_updated}
use multicluster_cloud_provi.McsWatch.Relevant.{Ignored, mcs_updated_lem}
use multicluster_cloud_provi.McsWatch.Routes.{slice_reaches_queue}
use multicluster_cloud_provi.McsController as McsController
use multicluster_cloud_provi.ExportWatch.Setup as ExportSetup
use multicluster_cloud_provi.ExportWatch.Routes.{binding_reaches_service}
use multicluster_cloud_provi.Examples.Fixtures.{
  client, string_sets, key, start, shop, shop_mcs, shop_service, shop_binding, usual,
}

-- A manager that accepts everything, and counts.
abbrev mgr : Manager ℕ ℕ Bool
mgr = record { new_controller = λ name n. (ok tt, suc n); watch = λ w n. (ok tt, suc n) }

abbrev fresh : Managed ℕ ℕ Bool
fresh = record { state = zero; watches = [] }

abbrev internal : MultiClusterService
internal =
    let s = shop_mcs.spec in record shop_mcs { spec = record s { types = "CrossCluster" ∷ [] } }

mcs_updated_lem_example :
    (Ignored internal shop_mcs → (mcs_updated internal shop_mcs start).1.log ≡ [])
    × ((Ignored internal shop_mcs → ⊥)
        → (mcs_updated internal shop_mcs start).1.log ≡ queued (McsController.key_of shop_mcs) ∷ [])
mcs_updated_lem_example = mcs_updated_lem internal shop_mcs start

abbrev shop_slice : EndpointSlice
shop_slice = record {
  meta =
      let m = named "default" "derived-shop-x7" in
      record m { labels = ("kubernetes.io/service-name", "derived-shop") ∷ [] };
}

mcs_set_up : (McsWatch.setup_with_manager mgr fresh).0 ≡ done tt
unfolding McsWatch.setup_with_manager McsWatch.mcs_watches set_up watch_all
mcs_set_up = refl

slice_reaches_queue_example :
    let watches = (McsWatch.setup_with_manager mgr fresh).1.watches in
    (deliver (slice_handlers kind watches) (created shop_slice) start
      ≡ (done tt, record start { log = service_signalled (service_named "default" "shop") ∷ [] }))
    × (deliver (service_handlers channel watches) (sent (service_named "default" "shop")) start
        ≡ (done tt, record start { log = mcs_signalled (mcs_named "default" "shop") ∷ [] }))
    × (deliver (mcs_handlers channel watches) (sent (mcs_named "default" "shop")) start
        ≡ (done tt, record start { log = queued key ∷ [] }))
slice_reaches_queue_example =
    slice_reaches_queue mgr fresh (created shop_slice) shop_slice "derived-shop" "shop" start start
      start refl mcs_set_up refl refl (inl refl)

mci_set_up : (IngressSetup.setup_with_manager (client usual) "cloud" mgr fresh).0 ≡ done tt
unfolding IngressSetup.setup_with_manager IngressSetup.mci_watches set_up watch_all
mci_set_up = refl

builds : build_service_ref_indexes string_sets shop ≡ some ("shop" ∷ [])
unfolding build_service_ref_indexes sort_strings
builds = refl

only : {m : MultiClusterIngress} → In m (shop ∷ []) → shop ≡ m
only (inl e) = e
only (inr h) = elim h [ ]

indexed : Indexed string_sets (shop ∷ []) "default" "shop" (shop ∷ [])
indexed = record {
  built = λ m i. ("shop" ∷ [], ap (build_service_ref_indexes string_sets) (sym (only i)) ∙ builds);
  selected = λ m. (
    λ i. (
      i,
      ap (λ x. x.namespace) (sym (only i)),
      ("shop" ∷ [], ap (build_service_ref_indexes string_sets) (sym (only i)) ∙ builds, refl),
    ),
    λ (i, n, r). i,
  );
}

abbrev watches : List (Watch ℕ Bool)
watches = (IngressSetup.setup_with_manager (client usual) "cloud" mgr fresh).1.watches

service_reaches_ingresses_example :
    ((deliver (service_handlers kind watches) (created shop_service) start).0 ≡ done tt)
    × ((deliver (service_handlers kind watches) (created shop_service) start).1.log
        ≡ mci_signalled shop ∷ [])
    × ((m : MultiClusterIngress)
        → In m (shop ∷ []) ↔ (In m (shop ∷ []) × (m.namespace ≡ "default") × RefersTo m "shop"))
    × ((m : MultiClusterIngress) (v : World ℕ Bool)
        → (check_ingress_class_matched (client usual) m "cloud" v).0 ≡ done true
        → (deliver (mci_handlers channel watches) (sent m) v).1.log ≡ queued (key_of m) ∷ v.log)
service_reaches_ingresses_example =
    service_reaches_ingresses (client usual) string_sets "cloud" mgr fresh shop_service
      (created shop_service) (shop ∷ []) (shop ∷ []) start refl mci_set_up refl refl indexed

-- The same binding, scheduled to no cluster.
abbrev unscheduled : ResourceBinding
unscheduled =
    let s = shop_binding.spec in record shop_binding { spec = record s { clusters = none } }

export_set_up :
    (ExportSetup.setup_with_manager (client usual) string_sets "cloud" mgr fresh).0 ≡ done tt
unfolding ExportSetup.setup_with_manager ExportSetup.export_watches set_up watch_all
export_set_up = refl

binding_reaches_service_example :
    let watches =
      (ExportSetup.setup_with_manager (client usual) string_sets "cloud" mgr fresh).1.watches in
    (deliver (binding_handlers kind watches) (updated unscheduled shop_binding) start
      ≡ (done tt, record start { log = service_signalled (service_named "default" "shop") ∷ [] }))
    × (deliver (service_handlers channel watches) (sent (service_named "default" "shop")) start
        ≡ (done tt, record start { log = queued key ∷ [] }))
binding_reaches_service_example =
    binding_reaches_service (client usual) string_sets "cloud" mgr fresh unscheduled shop_binding
      "east" start start refl export_set_up refl (λ e. cc)

-- The update that schedules the service of the ingress.
scheduled :
    obtain_binding_clusters string_sets unscheduled
    ≢ obtain_binding_clusters string_sets shop_binding
unfolding obtain_binding_clusters sort_strings
scheduled e = absurd (cc)

lists :
    ((client usual).list_mcis_by_index "default" "mci.serviceRef.name" "shop"
      (at_listing (client usual) (updated unscheduled shop_binding) start).api).0
    ≡ ok (shop ∷ [])
lists = refl

binding_requests_ingresses_example :
    (rs : List NamespacedName) × ((binding_requests
        (client usual)
        (updated unscheduled shop_binding)
        start).0
      ≡ done rs)
    × ((m : MultiClusterIngress)
        → In m (shop ∷ [])
        → m.namespace ≡ "default"
        → RefersTo m "shop"
        → In (key_of m) rs)
binding_requests_ingresses_example =
    binding_requests_ingresses (client usual) string_sets start (updated unscheduled shop_binding)
      shop_binding (shop ∷ []) (shop ∷ []) (refl, scheduled) refl lists indexed
