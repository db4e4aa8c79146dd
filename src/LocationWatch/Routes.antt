-- ===== src/LocationWatch/Routes.antt =====
-- Which events have the locations of an ingress computed again.
use multicluster_cloud_provi.Prelude.{
  ◌≡◌, ◌≢◌, refl, ap, ◌∙◌, inl, inr, true, none, List, [], ◌∷◌, ◌++◌, In, Bool-cases,
}
use multicluster_cloud_provi.Api.{NamespacedName, ok, MultiClusterIngress, ResourceBinding}
use multicluster_cloud_provi.Platform.{done, World, Client}
use multicluster_cloud_provi.Platform.Helpers.{StringSets}
use multicluster_cloud_provi.Platform.Watching.{Incoming, created, deleted, sent, updated}
use multicluster_cloud_provi.Indexes.{index_key_service_ref_name, build_service_ref_indexes}
use multicluster_cloud_provi.Indexes.References.{RefersTo}
use multicluster_cloud_provi.Indexes.Cached.{Indexed, indexed_lem}
use multicluster_cloud_provi.Bindings.{obtain_binding_clusters}
use multicluster_cloud_provi.TrafficBlock.{key_of}
use multicluster_cloud_provi.LocationWatch.{
  mci_update_passes, is_service_binding, binding_update_passes, requests, requests_of, map_binding,
  mci_requests, binding_requests, dropped_ingress_lem, dropped_binding_lem,
}

In-append_right : {A : Type 0} (a : A) (xs ys : List A) → In a ys → In a (xs ++ ys)
In-append_right a [] ys h = h
In-append_right a (x ∷ xs) ys h = inr (In-append_right a xs ys h)

In-requests :
    (m : MultiClusterIngress) (ms : List MultiClusterIngress)
    → In m ms
    → In (key_of m) (requests ms)
unfolding requests
In-requests m (x ∷ xs) (inl e) = inl (ap key_of e)
In-requests m (x ∷ xs) (inr h) = inr (In-requests m xs h)
In-requests m [] h = elim h [ ]

-- The event may change the clusters that the binding of a service schedules to.
abbrev Reschedules : StringSets → Incoming ResourceBinding → ResourceBinding → Type 0
Reschedules sets (created rb) new = rb ≡ new
Reschedules sets (deleted rb) new = rb ≡ new
Reschedules sets (sent rb) new = ⊥
Reschedules sets (updated old rb) new =
    (rb ≡ new) × (obtain_binding_clusters sets old ≢ obtain_binding_clusters sets rb)

module _ {C P : Type 0} (client : Client C) where
  -- The world in which the ingresses of the new object are listed.
  abbrev pub at_listing : Incoming ResourceBinding → World C P → World C P
  at_listing (updated old rb) w = (map_binding client old w).1
  at_listing _ w = w

  map_lem :
      (rb : ResourceBinding) (w : World C P) (ms : List MultiClusterIngress)
      → is_service_binding rb ≡ true
      → (client.list_mcis_by_index rb.namespace index_key_service_ref_name rb.spec.resource.name
          w.api).0
        ≡ ok ms
      → (map_binding client rb w).0 ≡ done (requests ms)
  unfolding map_binding requests_of
  map_lem rb w ms s l = rw (s, l) refl

  map_done :
      (rb : ResourceBinding) (w : World C P)
      → (l : List NamespacedName) × ((map_binding client rb w).0 ≡ done l)
  unfolding map_binding
  map_done rb w = elim (Bool-cases (is_service_binding rb)) [
    | inl s ↦ (
      requests_of
          (client.list_mcis_by_index rb.namespace index_key_service_ref_name rb.spec.resource.name
            w.api).0,
      rw s refl,
    )
    | inr n ↦ ([], rw n refl)
  ]

  module _ (sets : StringSets) (w : World C P) (ms : List MultiClusterIngress) where
    -- The requests of an event are known, and have these names among them.
    abbrev Requests : Incoming ResourceBinding → Type 0
    Requests i =
        (rs : List NamespacedName) × ((binding_requests client i w).0 ≡ done rs)
        × ((k : NamespacedName) → In k (requests ms) → In k rs)

    rescheduled :
        (i : Incoming ResourceBinding) (rb : ResourceBinding)
        → Reschedules sets i rb
        → is_service_binding rb ≡ true
        → (client.list_mcis_by_index rb.namespace index_key_service_ref_name rb.spec.resource.name
            (at_listing i w).api).0
          ≡ ok ms
        → Requests i
    unfolding binding_requests
    rescheduled (created x) rb e s l = (requests ms, rw (e, s) (map_lem rb w ms s l), λ k h. h)
    rescheduled (deleted x) rb e s l = (requests ms, rw (e, s) (map_lem rb w ms s l), λ k h. h)
    rescheduled (sent x) rb e s l = absurd e
    rescheduled (updated old x) rb (e, d) s l = elim (Bool-cases (binding_update_passes old x)) [
      | inr n ↦ absurd (d (dropped_binding_lem sets old x (ap is_service_binding e ∙ s) n))
      | inl p ↦
          let (before, m) = map_done old w in
          (
            before ++ requests ms,
            rw (p, m) (rw e (rw (map_lem rb (map_binding client old w).1 ms s l) refl)),
            λ k h. In-append_right k before (requests ms) h,
          )
    ]

module _ {C P : Type 0} (client : Client C) (sets : StringSets) (w : World C P) where
  -- An event about the binding of a service that creates it, deletes it, or changes the clusters
  -- that it schedules to, requests every cached ingress of its namespace that refers to the service,
  -- if the API client answers by its index when it lists the ingresses of the new binding.
  pub binding_requests_ingresses :
      (i : Incoming ResourceBinding) (rb : ResourceBinding) (cache ms : List MultiClusterIngress)
      → Reschedules sets i rb
      → is_service_binding rb ≡ true
      → (client.list_mcis_by_index rb.namespace index_key_service_ref_name rb.spec.resource.name
          (at_listing client i w).api).0
        ≡ ok ms
      → Indexed sets cache rb.namespace rb.spec.resource.name ms
      → (rs : List NamespacedName) × ((binding_requests client i w).0 ≡ done rs)
        × ((m : MultiClusterIngress)
            → In m cache
            → m.namespace ≡ rb.namespace
            → RefersTo m rb.spec.resource.name
            → In (key_of m) rs)
  binding_requests_ingresses i rb cache ms r s l x =
      let (rs, e, all) = rescheduled client sets w ms i rb r s l in
      (
        rs,
        e,
        λ m inside ns refers.
            let listed =
              (indexed_lem sets cache rb.namespace rb.spec.resource.name ms x m).1
                (inside, ns, refers) in
            all (key_of m) (In-requests m ms listed),
      )

-- An update of an ingress after which its indexed services are others requests this ingress.
ingress_requests_itself :
    (sets : StringSets) (old new : MultiClusterIngress)
    → build_service_ref_indexes sets old ≢ none
    → build_service_ref_indexes sets new ≢ none
    → build_service_ref_indexes sets old ≢ build_service_ref_indexes sets new
    → mci_requests (updated old new) ≡ key_of new ∷ []
unfolding mci_requests
ingress_requests_itself sets old new p q d = elim (Bool-cases (mci_update_passes old new)) [
  | inl h ↦ rw h refl
  | inr h ↦ absurd (d (dropped_ingress_lem sets old new h p q))
]
