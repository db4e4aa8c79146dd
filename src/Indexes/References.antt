-- ===== src/Indexes/References.antt =====
-- The index names exactly the services and secrets that the ingress refers to.
use multicluster_cloud_provi.Prelude.{
  ◌≡◌, refl, sym, ap, ◌∙◌, ◌↔◌, inl, inr, String, Bool, true, false, ◌||◌, none, some, List, [],
  ◌∷◌, arith, str_eq, eq_iff, any, In, contains, any_iff, Option-cases,
}
use multicluster_cloud_provi.Prelude.Texts.{IsSorted}
use multicluster_cloud_provi.Api.{
  MultiClusterIngress, IngressBackend, IngressServiceBackend, IngressTls,
}
use multicluster_cloud_provi.Platform.Helpers.{StringSets}
use multicluster_cloud_provi.Indexes.Backends.{BackendOf, In-backends}
use multicluster_cloud_provi.Indexes.{
  backends, insert_services, build_service_ref_indexes, insert_secrets, build_secret_ref_indexes,
}

-- The ingress refers to the service.
pub record RefersTo (mci : MultiClusterIngress) (name : String) : Type 0 where
  pub backend : IngressBackend
  pub service : IngressServiceBackend
  backend_of : BackendOf mci backend
  pub is_service : backend.service ≡ some service
  pub named : service.name ≡ name

names_service : String → IngressBackend → Bool
names_service name b = elim b.service [ none ↦ false | some s ↦ str_eq s.name name ]

module _ (sets : StringSets) where
  has-insert_services :
      (s t : sets.StringSet) (bs : List IngressBackend) (name : String)
      → insert_services sets s bs ≡ some t
      → sets.has t name ≡ (any (names_service name) bs || sets.has s name)
  unfolding insert_services names_service
  has-insert_services s t [] name h = ground arith
  has-insert_services s t (b ∷ bs) name h = elim (Option-cases b.service) [
    | inl e ↦ ground arith
    | inr (svc, e) ↦ ground (
      arith,
      has-insert_services (sets.insert s svc.name) t bs name,
      sets.has-insert s svc.name name,
    )
  ]

  insert_services_crashes :
      (s : sets.StringSet) (bs : List IngressBackend)
      → insert_services sets s bs ≡ none
      → (b : IngressBackend) × In b bs × (b.service ≡ none)
  unfolding insert_services
  insert_services_crashes s [] h = cc
  insert_services_crashes s (b ∷ bs) h = elim (Option-cases b.service) [
    | inl e ↦ (b, inl refl, e)
    | inr (svc, e) ↦
        let (c, i, q) = insert_services_crashes (sets.insert s svc.name) bs (ground arith) in
        (c, inr i, q)
  ]

  crashes-insert_services :
      (s : sets.StringSet) (b : IngressBackend) (bs : List IngressBackend)
      → In b bs
      → b.service ≡ none
      → insert_services sets s bs ≡ none
  unfolding insert_services
  crashes-insert_services s b [] i e = elim i [ ]
  crashes-insert_services s b (c ∷ bs) (inl p) e =
      rw (ap (λ (x : IngressBackend). x.service) p ∙ e, insert_services)
  crashes-insert_services s b (c ∷ bs) (inr i) e = elim (Option-cases c.service) [
    | inl q ↦ rw (q, insert_services)
    | inr (svc, q) ↦
        rw (q, insert_services) (crashes-insert_services (sets.insert s svc.name) b bs i e)
  ]

  names_service_lem :
      (name : String) (b : IngressBackend)
      → (names_service name b ≡ true)
        ↔ ((svc : IngressServiceBackend) × (b.service ≡ some svc) × (svc.name ≡ name))
  unfolding names_service
  names_service_lem name b = elim (Option-cases b.service) [
    | inl e ↦ (λ h. absurd (ground arith), λ (svc, p, q). cc)
    | inr (svc, e) ↦ (
      λ h. (svc, e, ground (arith, eq_iff svc.name name)),
      λ (svc', p, q). ground (arith, eq_iff svc.name name),
    )
  ]

  any-names_service :
      (mci : MultiClusterIngress) (name : String)
      → (any (names_service name) (backends mci) ≡ true) ↔ RefersTo mci name
  any-names_service mci name = (to, from)
    where
      to : any (names_service name) (backends mci) ≡ true → RefersTo mci name
      to h =
          let (b, i, n) = (any_iff (names_service name) (backends mci)).0 h in
          let (svc, p, q) = (names_service_lem name b).0 n in
          record {
            backend = b;
            service = svc;
            backend_of = (In-backends mci b).0 i;
            is_service = p;
            named = q;
          }

      from : RefersTo mci name → any (names_service name) (backends mci) ≡ true
      from r = (any_iff (names_service name) (backends mci)).1 (
        r.backend,
        (In-backends mci r.backend).1 r.backend_of,
        (names_service_lem name r.backend).1 (r.service, r.is_service, r.named),
      )

  build_lem :
      (mci : MultiClusterIngress) (names : List String)
      → build_service_ref_indexes sets mci ≡ some names
      → (t : sets.StringSet) × (insert_services sets sets.new (backends mci) ≡ some t)
        × (sets.list t ≡ names)
  unfolding build_service_ref_indexes
  build_lem mci names h = elim (Option-cases (insert_services sets sets.new (backends mci))) [
    | inl e ↦ absurd (ground arith)
    | inr (t, e) ↦ (t, e, ground arith)
  ]

  -- When the service index of an ingress is built, it holds a name exactly when the default
  -- backend or a path of a rule refers to the service of that name, and it is in ascending order.
  pub build_service_ref_indexes_lem :
      (mci : MultiClusterIngress) (names : List String)
      → build_service_ref_indexes sets mci ≡ some names
      → ((name : String) → (contains names name ≡ true) ↔ RefersTo mci name) × IsSorted names
  build_service_ref_indexes_lem mci names h =
      let (t, e, l) = build_lem mci names h in
      (
        λ name.
            let has : contains names name ≡ any (names_service name) (backends mci) = ground (
              arith,
              has-insert_services sets.new t (backends mci) name e,
              sets.has-new name,
              sets.contains-list t name,
            ) in
            (
              λ k. (any-names_service mci name).0 (sym has ∙ k),
              λ r. has ∙ (any-names_service mci name).1 r,
            ),
        rw (← l) (sets.list-IsSorted t),
      )

  -- Building the service index panics exactly when some backend of the ingress is no service: the
  -- code reads the name of a nil service.
  pub build_service_ref_indexes_panics :
      (mci : MultiClusterIngress)
      → (build_service_ref_indexes sets mci ≡ none)
        ↔ ((b : IngressBackend) × BackendOf mci b × (b.service ≡ none))
  unfolding build_service_ref_indexes
  build_service_ref_indexes_panics mci = (
    λ h.
        let (b, i, e) = insert_services_crashes sets.new (backends mci) (ground arith) in
        (b, (In-backends mci b).0 i, e),
    λ (b, k, e). rw (
      crashes-insert_services sets.new b (backends mci) ((In-backends mci b).1 k) e,
      build_service_ref_indexes,
    ),
  )

  -- Building the service index panics exactly when some backend of the ingress is no service: the
  -- code reads the name of a nil service. Otherwise the index holds exactly the names of the services
  -- that a backend of the ingress refers to, in ascending order.
  pub service_index_lem :
      (mci : MultiClusterIngress)
      → ((build_service_ref_indexes sets mci ≡ none)
          ↔ ((b : IngressBackend) × BackendOf mci b × (b.service ≡ none)))
        × ((names : List String)
            → build_service_ref_indexes sets mci ≡ some names
            → ((name : String) → (contains names name ≡ true) ↔ RefersTo mci name) × IsSorted names)
  service_index_lem mci = (build_service_ref_indexes_panics mci, build_service_ref_indexes_lem mci)

  has-insert_secrets :
      (s : sets.StringSet) (ts : List IngressTls) (name : String)
      → sets.has (insert_secrets sets s ts) name
        ≡ (any (λ t. str_eq t.secret_name name) ts || sets.has s name)
  unfolding insert_secrets
  has-insert_secrets s [] name = refl
  has-insert_secrets s (t ∷ ts) name = ground (
    arith,
    has-insert_secrets (sets.insert s t.secret_name) ts name,
    sets.has-insert s t.secret_name name,
  )

  -- The secret index of an ingress holds a name exactly when an entry of its TLS section has that
  -- secret name, and it is in ascending order.
  build_secret_ref_indexes_lem :
      (mci : MultiClusterIngress)
      → ((name : String)
          → contains (build_secret_ref_indexes sets mci) name
            ≡ any (λ t. str_eq t.secret_name name) mci.spec.tls)
        × IsSorted (build_secret_ref_indexes sets mci)
  unfolding build_secret_ref_indexes
  build_secret_ref_indexes_lem mci = (
    λ name. ground (
      arith,
      has-insert_secrets sets.new mci.spec.tls name,
      sets.has-new name,
      sets.contains-list (insert_secrets sets sets.new mci.spec.tls) name,
    ),
    sets.list-IsSorted (insert_secrets sets sets.new mci.spec.tls),
  )
