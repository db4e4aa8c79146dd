-- ===== src/LocationWatch.antt =====
-- pkg/controllers/mciservicelocations/mci_service_locations.go, SetupWithManager: the predicates and
-- the map function that decide which events recompute the locations of which ingresses.
pub mod Routes
use multicluster_cloud_provi.Prelude.{
  ◌≡◌, ◌≢◌, sym, ap, ◌∙◌, ◌⊎◌, inl, inr, String, Bool, true, false, not, ◌&&◌, ◌||◌, Option, none,
  some, List, [], ◌∷◌, ◌++◌, arith, if◌then◌else◌, str_eq, Option-cases,
}
use multicluster_cloud_provi.Prelude.Equality.{◌==◌, eq_of_equal, option_eq, list_eq}
use multicluster_cloud_provi.Api.{
  NamespacedName, Result, ok, err, MultiClusterIngress, IngressBackend, ResourceBinding, backend_eq,
  rule_eq, target_eq, snapshot_eq,
}
use multicluster_cloud_provi.Platform.{◌>>=◌, pure, M, read, Client}
use multicluster_cloud_provi.Platform.Helpers.{StringSets}
use multicluster_cloud_provi.Platform.Watching.{
  Predicate, Incoming, created, deleted, sent, updated, passes, subject,
}
use multicluster_cloud_provi.Indexes.{
  index_key_service_ref_name, backends, insert_services, build_service_ref_indexes,
}
use multicluster_cloud_provi.Bindings.{obtain_binding_clusters, same_results_lem}
use multicluster_cloud_provi.Indexes.References.{build_service_ref_indexes_panics}
use multicluster_cloud_provi.Indexes.Backends.{BackendOf, same_backends}
use multicluster_cloud_provi.TrafficBlock.{key_of}

-- var backend; if p != nil { backend = *p }
abbrev default_backend_of : MultiClusterIngress → IngressBackend
default_backend_of mci = elim mci.spec.default_backend [
  | none ↦ record { service = none; resource = none }
  | some b ↦ b
]

-- The UpdateFunc of the ingresses. reflect.DeepEqual tells a nil slice of rules from an empty one.
unfoldable pub mci_update_passes : MultiClusterIngress → MultiClusterIngress → Bool
mci_update_passes old new =
    not (default_backend_of old == default_backend_of new) || not (old.spec.rules == new.spec.rules)

abbrev pub is_service_binding : ResourceBinding → Bool
is_service_binding rb =
    str_eq rb.spec.resource.api_version "v1" && str_eq rb.spec.resource.kind "Service"

-- The UpdateFunc of the bindings.
unfoldable pub binding_update_passes : ResourceBinding → ResourceBinding → Bool
binding_update_passes old new =
    if not (is_service_binding new)
    then false
    else not (old.spec.clusters == new.spec.clusters)
      || not (old.spec.required_by == new.spec.required_by)

requests : List MultiClusterIngress → List NamespacedName
requests [] = []
requests (m ∷ ms) = key_of m ∷ requests ms

requests_of : Result (List MultiClusterIngress) → List NamespacedName
unfolding requests
requests_of (err e) = []
requests_of (ok ms) = requests ms

-- rbMapFunc
unfoldable pub map_binding :
    {C P : Type 0} → Client C → ResourceBinding → M C P (List NamespacedName)
unfolding requests_of
map_binding client rb = if not (is_service_binding rb) then pure [] else do
  listed ←
      read (client.list_mcis_by_index rb.namespace index_key_service_ref_name rb.spec.resource.name)
  pure (requests_of listed)

-- mciPredicateFuncs. The missing GenericFunc lets all pass.
mci_predicate_funcs : Predicate MultiClusterIngress
unfolding mci_update_passes
mci_predicate_funcs = record {
  on_create = λ _. true;
  on_update = mci_update_passes;
  on_delete = λ _. false;
  on_generic = λ _. true;
}

-- rbPredicateFuncs
rb_predicate_funcs : Predicate ResourceBinding
unfolding binding_update_passes
rb_predicate_funcs = record {
  on_create = is_service_binding;
  on_update = binding_update_passes;
  on_delete = is_service_binding;
  on_generic = λ _. true;
}

-- For(&MultiClusterIngress{}, ...): the requests that an event adds to the queue.
unfoldable pub mci_requests : Incoming MultiClusterIngress → List NamespacedName
unfolding mci_predicate_funcs
mci_requests i = if passes mci_predicate_funcs i then key_of (subject i) ∷ [] else []

-- EnqueueRequestsFromMapFunc maps the old and the new object of an update. A request that comes
-- twice is queued once.
abbrev enqueued : {C P : Type 0} → Client C → Incoming ResourceBinding → M C P (List NamespacedName)
enqueued client (created rb) = map_binding client rb
enqueued client (deleted rb) = map_binding client rb
enqueued client (sent rb) = map_binding client rb
enqueued client (updated old new) = do
  before ← map_binding client old
  after ← map_binding client new
  pure (before ++ after)

-- Watches(&ResourceBinding{}, ...)
unfoldable pub binding_requests :
    {C P : Type 0} → Client C → Incoming ResourceBinding → M C P (List NamespacedName)
unfolding rb_predicate_funcs
binding_requests client i = if passes rb_predicate_funcs i then enqueued client i else pure []

-- The backends are the same, or the default backend of one is the empty one.
same_backends_lem :
    (old new : MultiClusterIngress)
    → default_backend_of old ≡ default_backend_of new
    → old.spec.rules ≡ new.spec.rules
    → (backends old ≡ backends new)
      ⊎ ((b : IngressBackend) × (b.service ≡ none)
          × ((old.spec.default_backend ≡ some b) ⊎ (new.spec.default_backend ≡ some b)))
same_backends_lem old new d r = elim (Option-cases old.spec.default_backend) [
  | inl m ↦ elim (Option-cases new.spec.default_backend) [
    | inl n ↦ inl (same_backends old new (m ∙ sym n) r)
    | inr (b, n) ↦ inr (b, ap (λ (x : IngressBackend). x.service) (sym (rw (m, n) at d)), inr n)
  ]
  | inr (a, m) ↦ elim (Option-cases new.spec.default_backend) [
    | inl n ↦ inr (a, ap (λ (x : IngressBackend). x.service) (rw (m, n) at d), inl m)
    | inr (b, n) ↦ inl (same_backends old new (m ∙ ap some (rw (m, n) at d) ∙ sym n) r)
  ]
]

module _ (sets : StringSets) (old new : MultiClusterIngress) where
  -- When an update of an ingress does not pass, the index of its services is the same before and
  -- after, provided that it can be built for both.
  pub dropped_ingress_lem :
      mci_update_passes old new ≡ false
      → build_service_ref_indexes sets old ≢ none
      → build_service_ref_indexes sets new ≢ none
      → build_service_ref_indexes sets old ≡ build_service_ref_indexes sets new
  unfolding mci_update_passes build_service_ref_indexes
  dropped_ingress_lem h p q =
      elim (same_backends_lem old new
        (eq_of_equal (default_backend_of old) (default_backend_of new) (ground arith))
        (eq_of_equal old.spec.rules new.spec.rules (ground arith))) [
          | inl e ↦
              ap
                (λ bs. elim (insert_services sets sets.new bs) as (λ _. Option (List String)) [
                  | none ↦ none
                  | some s ↦ some (sets.list s)
                ])
                e
          | inr (b, s, inl o) ↦
              absurd (p ((build_service_ref_indexes_panics sets old).1 (b, BackendOf.default o, s)))
          | inr (b, s, inr n) ↦
              absurd (q ((build_service_ref_indexes_panics sets new).1 (b, BackendOf.default n, s)))
        ]

-- When an update of a binding of a service does not pass, the clusters that it schedules to are the
-- same.
pub dropped_binding_lem :
    (sets : StringSets) (old new : ResourceBinding)
    → is_service_binding new ≡ true
    → binding_update_passes old new ≡ false
    → obtain_binding_clusters sets old ≡ obtain_binding_clusters sets new
unfolding binding_update_passes
dropped_binding_lem sets old new s h =
    same_results_lem sets old new (eq_of_equal old.spec.clusters new.spec.clusters (ground arith))
      (eq_of_equal old.spec.required_by new.spec.required_by (ground arith))
