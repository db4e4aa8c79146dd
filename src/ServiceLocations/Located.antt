-- ===== src/ServiceLocations/Located.antt =====
-- Which locations are computed.
use mathlib.Core.List.{append_assoc, append-nil}
use multicluster_cloud_provi.Prelude.{
  ◌≡◌, refl, sym, ap, subst, ◌∙◌, ◌↔◌, inl, inr, String, true, none, some, List, [], ◌∷◌, ◌++◌,
  arith, str_eq, eq_refl, eq_iff, contains, All, Slice, items, push, Bool-cases, Option-cases,
}
use multicluster_cloud_provi.Prelude.Texts.{
  IsSorted, leb, sort_strings, contains-sort_strings, sort_strings-IsSorted,
}
use multicluster_cloud_provi.Api.{
  not_found, not_found_lem, is_not_found, Result, ok, err, Result-cases, MultiClusterIngress,
  ServiceLocation, ResourceBinding,
}
use multicluster_cloud_provi.Platform.{done, World}
use multicluster_cloud_provi.Platform.Runtime.{Runtime}
use multicluster_cloud_provi.Indexes.{build_service_ref_indexes}
use multicluster_cloud_provi.Indexes.References.{RefersTo, build_service_ref_indexes_lem}
use multicluster_cloud_provi.Bindings.{
  obtain_binding_clusters, obtain_binding_clusters_lem, get_cluster_results_lem,
}
use multicluster_cloud_provi.ServiceLocations.Coverage.{
  located_names, Reached, begun, after, Locates,
}
use multicluster_cloud_provi.ServiceLocations.{
  binding_key, locate, location_loop, calculate_service_locations,
}

All-located :
    (x : String) (names : List String) (ls : List ServiceLocation)
    → All (λ y. leb x y ≡ true) names
    → ((a : String) → contains (located_names ls) a ≡ true → contains names a ≡ true)
    → All (λ y. leb x y ≡ true) (located_names ls)
All-located x names [] h k = tt
All-located x names (l ∷ ls) h k = (
  All_contains names l.name h (k l.name (ground (arith, eq_refl l.name))),
  All-located x names ls h (λ a m. k a (ground (arith, m))),
)
  where
    All_contains :
        (ys : List String) (y : String)
        → All (λ z. leb x z ≡ true) ys
        → contains ys y ≡ true
        → leb x y ≡ true
    All_contains [] y h c = cc
    All_contains (z ∷ zs) y h c = elim (Bool-cases (str_eq z y)) [
      | inl e ↦ ap (leb x) (sym ((eq_iff z y).0 e)) ∙ h.0
      | inr n ↦ All_contains zs y h.1 (ground (arith, c))
    ]

abbrev location_of : {C : Type 0} → Runtime C → String → ResourceBinding → ServiceLocation
location_of rt name b = record { name = name; clusters = some (obtain_binding_clusters rt.sets b) }

module _ {C : Type 0} (rt : Runtime C) (generate : String → String → String) (namespace : String)
    (start : C) where
  bound_Locates :
      (name : String) (names : List String) (b : ResourceBinding) (c : C)
      (ls : List ServiceLocation)
      → Reached rt generate namespace start c
      → (rt.client.get_binding (binding_key generate namespace name) c).0 ≡ ok b
      → Locates rt generate namespace start names ls
      → Locates rt generate namespace start (name ∷ names) (location_of rt name b ∷ ls)
  bound_Locates name names b c ls o g k = record {
    backed = (
      record {
        binding = b;
        got_at = c;
        reached = o;
        got = g;
        clusters = obtain_binding_clusters rt.sets b;
        is_list = refl;
        names = λ a.
            ap (λ cs. contains cs a) (obtain_binding_clusters_lem rt.sets b)
            ∙ (get_cluster_results_lem rt.sets b.spec).0 a;
        sorted =
            subst IsSorted (sym (obtain_binding_clusters_lem rt.sets b))
              (get_cluster_results_lem rt.sets b.spec).1;
      },
      k.backed,
    );
    is_named = λ a h. ground (arith, k.is_named a);
    complete = λ a h. elim (Bool-cases (str_eq name a)) [
      | inl e ↦ inl (ground arith)
      | inr n ↦ elim (k.complete a (ground arith)) [ inl l ↦ inl (ground arith) | inr u ↦ inr u ]
    ];
    sorted = λ h. (All-located name names ls h.0 k.is_named, k.sorted h.1);
  }

  unbound_Locates :
      (name : String) (names : List String) (c : C) (ls : List ServiceLocation)
      → Reached rt generate namespace start c
      → (rt.client.get_binding (binding_key generate namespace name) c).0 ≡ err not_found
      → Locates rt generate namespace start names ls
      → Locates rt generate namespace start (name ∷ names) ls
  unbound_Locates name names c ls o g k = record {
    backed = k.backed;
    is_named = λ a h. ground (arith, k.is_named a);
    complete = λ a h. elim (Bool-cases (str_eq name a)) [
      | inl e ↦ inr (
        c,
        o,
        ap (λ x. (rt.client.get_binding (binding_key generate namespace x) c).0)
              (sym ((eq_iff name a).0 e))
            ∙ g,
      )
      | inr n ↦ k.complete a (ground arith)
    ];
    sorted = λ h. k.sorted h.1;
  }

  abbrev Step : List String → Slice ServiceLocation → Slice ServiceLocation → Type 0
  Step names acc r =
      (new : List ServiceLocation) × Locates rt generate namespace start names new
      × (items r ≡ items acc ++ new)

done_injective : {A : Type 0} {a b : A} → done a ≡ done b → b ≡ a
done_injective h = cc

module _ {C P : Type 0} (rt : Runtime C) (generate : String → String → String) where
  loop_lem :
      (namespace : String) (start : C) (names : List String) (acc r : Slice ServiceLocation)
      (w : World C P)
      → Reached rt generate namespace start w.api
      → (location_loop rt generate namespace acc names w).0 ≡ done r
      → Step rt generate namespace start names acc r
        × ((location_loop rt generate namespace acc names w).1.log ≡ w.log)
  unfolding location_loop locate
  loop_lem namespace start [] acc r w o h = (
    (
      [],
      record { backed = tt; is_named = λ a c. c; complete = λ a c. inl c; sorted = λ s. s },
      ap items (done_injective h) ∙ sym (append-nil (items acc)),
    ),
    refl,
  )
  loop_lem namespace start (name ∷ names) acc r w o h = elim (Result-cases got.0) [
    | inl (b, e) ↦
        let l = location_of rt name b in
        let ((new, k, p), log) =
          loop_lem namespace start names (push acc l) r (record w { api = got.1 }) (after name o)
            (rw e at h) in
        (
          (
            l ∷ new,
            bound_Locates rt generate namespace start name names b w.api new o e k,
            p ∙ append_assoc (items acc) (l ∷ []) new,
          ),
          rw e log,
        )
    | inr (f, e) ↦ elim (Bool-cases (is_not_found f)) [
      | inl n ↦
          let ((new, k, p), log) =
            loop_lem namespace start names acc r (record w { api = got.1 }) (after name o)
              (rw (e, n) at h) in
          (
            (
              new,
              unbound_Locates rt generate namespace start name names w.api new o
                  (e ∙ ap err (not_found_lem f n)) k,
              p,
            ),
            rw (e, n) log,
          )
      | inr n ↦ absurd (cc (rw (e, n) at h))
    ]
  ]
    where
      got : Result ResourceBinding × C
      got = rt.client.get_binding (binding_key generate namespace name) w.api

  -- When the locations of an ingress are computed without error, each is backed by a binding that
  -- Get returns, in a state of the API server that reading bindings reaches from the start, and names
  -- exactly the clusters that this binding schedules to; each is of a service that the ingress
  -- refers to; each such service has a location unless Get answers, in such a state, that it has
  -- no binding; the locations are in ascending order of their names; and nothing is written.
  pub calculate_service_locations_lem :
      (mci : MultiClusterIngress) (r : Slice ServiceLocation) (w : World C P)
      → (calculate_service_locations rt generate mci w).0 ≡ done r
      → (names : List String) × ((name : String) → (contains names name ≡ true) ↔ RefersTo mci name)
        × Locates rt generate mci.namespace w.api names (items r)
        × IsSorted (located_names (items r))
        × ((calculate_service_locations rt generate mci w).1.log ≡ w.log)
  unfolding calculate_service_locations
  calculate_service_locations_lem mci r w h =
      elim (Option-cases (build_service_ref_indexes rt.sets mci)) [
        | inl e ↦ absurd (cc (rw e at h))
        | inr (names, e) ↦
            let ((new, k, p), log) =
              loop_lem mci.namespace w.api (sort_strings names) none r w begun (rw e at h) in
            let k' =
              subst (Locates rt generate mci.namespace w.api (sort_strings names)) (sym p) k in
            (
              sort_strings names,
              λ name.
                  let same = contains-sort_strings names name in
                  let (to, from) = (build_service_ref_indexes_lem rt.sets mci names e).0 name in
                  (λ c. to (sym same ∙ c), λ t. same ∙ from t),
              k',
              k'.sorted (sort_strings-IsSorted names),
              rw e log,
            )
      ]
