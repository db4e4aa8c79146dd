-- ===== src/Process/Registry/Provided.antt =====
-- The provider that the process runs with is the one whose factory was registered under the name.
use multicluster_cloud_provi.Prelude.{
  ◌≡◌, ◌≢◌, ◌⊎◌, ◌↔◌, refl, sym, ap, ◌∙◌, inl, inr, String, false, Option, none, some, List, [],
  str_eq, eq_iff, Bool-cases, Option-cases,
}
use multicluster_cloud_provi.Api.{Error, Result, ok, err, Result-cases, lookup}
use multicluster_cloud_provi.Process.Effects.{returns, exits}
use multicluster_cloud_provi.Process.Registry.{
  Factory, Registry, Files, init_answer, create_multi_cluster_provider, accept, cloud_initializer,
}
use multicluster_cloud_provi.Process.Registry.Registered.{
  or_else, or_else-none, register_all, lookup_lem,
}

module _ {S F I : Type 0} (files : Files S F) where
  -- With this factory and this path of a configuration file, or "", the provider is made.
  abbrev Makes : Factory S F I → String → S → I → Type 0
  Makes f path s p =
      ((path ≡ "") × ((f none s).0 ≡ ok (some p)))
      ⊎ ((path ≢ "")
          × ((file : F) × ((files.open_file path s).0 ≡ ok file)
              × ((f (some file) (files.open_file path s).1).0 ≡ ok (some p))))

  abbrev Answers : Option F → Registry S F I → String → I → Type 0
  Answers config r name p =
      (f : Factory S F I) × (lookup name r.providers ≡ some f)
      × ((f config r.state).0 ≡ ok (some p))

  created_lem :
      (config : Option F) (r : Registry S F I) (name : String) (p : I)
      → ((create_multi_cluster_provider name config r).0 ≡ ok (some p)) ↔ Answers config r name p
  unfolding create_multi_cluster_provider
  created_lem config r name p = elim (Option-cases (lookup name r.providers)) [
    | inl e ↦ (λ h. absurd (cc (rw e at h)), λ (f, k, h). absurd (cc))
    | inr (g, e) ↦ (
      λ h. (g, e, rw e at h),
      λ (f, k, h). let same : f ≡ g = cc in rw e (ap (λ x. (x config r.state).0) (sym same) ∙ h),
    )
  ]

  module _ (name path : String) (p : I) where
    accept_lem :
        (answer : Result (Option I)) (r : Registry S F I)
        → ((accept files (init_answer name answer) r).0 ≡ returns p) ↔ (answer ≡ ok (some p))
    unfolding accept
    accept_lem (ok none) r = (λ h. cc, λ h. cc)
    accept_lem (ok (some q)) r = (λ h. cc, λ h. cc)
    accept_lem (err e) r = (λ h. cc, λ h. cc)

    unnamed : (r : Registry S F I) → name ≡ "" → (cloud_initializer files name path r).0 ≡ exits
    unfolding cloud_initializer
    unnamed r e = rw e refl

    module _ (r : Registry S F I) (named : name ≢ "") where
      named_test : str_eq name "" ≡ false
      named_test = elim (Bool-cases (str_eq name "")) [
        | inl e ↦ absurd (named ((eq_iff name "").0 e))
        | inr n ↦ n
      ]

      without_config :
          path ≡ ""
          → ((cloud_initializer files name path r).0 ≡ returns p)
            ↔ ((create_multi_cluster_provider name none r).0 ≡ ok (some p))
      unfolding cloud_initializer
      without_config e =
          rw (named_test, e)
            (accept_lem (create_multi_cluster_provider name none r).0
              (create_multi_cluster_provider name none r).1)

      path_test : path ≢ "" → str_eq path "" ≡ false
      path_test n = elim (Bool-cases (str_eq path "")) [
        | inl e ↦ absurd (n ((eq_iff path "").0 e))
        | inr e ↦ e
      ]

      abbrev at_open : Registry S F I
      at_open = record r { state = (files.open_file path r.state).1 }

      closed : F → Registry S F I → Registry S F I
      closed file r' = record r' { state = files.close file r'.state }

      unopened :
          (e : Error)
          → path ≢ ""
          → (files.open_file path r.state).0 ≡ err e
          → (cloud_initializer files name path r).0 ≡ exits
      unfolding cloud_initializer
      unopened e n h = rw (named_test, path_test n, h) refl

      opened_lem :
          (file : F)
          → path ≢ ""
          → (files.open_file path r.state).0 ≡ ok file
          → ((cloud_initializer files name path r).0 ≡ returns p)
            ↔ ((create_multi_cluster_provider name (some file) at_open).0 ≡ ok (some p))
      unfolding cloud_initializer closed
      opened_lem file n h =
          let made = create_multi_cluster_provider name (some file) at_open in
          rw (named_test, path_test n, h) (accept_lem made.0 (closed file made.1))

  module _ (fs : List (String × Factory S F I)) (r : Registry S F I) where
    -- The registrations that have a factory under this name, which makes the provider.
    pub record Provides (name path : String) (s : S) (p : I) : Type 0 where
      pub named : name ≢ ""
      pub factory : Factory S F I
      pub registered : lookup name fs ≡ some factory
      pub made : Makes factory path s p

    -- After registrations of which none ended the process, in an empty registry, the initializer
    -- returns a provider exactly if the name is not empty, a factory was registered under it, the
    -- configuration file can be opened if a path is given, and that factory, given this file or nil,
    -- answers with this provider and no error.
    pub initialized_lem :
        (name path : String) (p : I)
        → r.providers ≡ []
        → (register_all fs r).0 ≡ returns tt
        → ((cloud_initializer files name path (register_all fs r).1).0 ≡ returns p)
          ↔ Provides name path (register_all fs r).1.state p
    initialized_lem name path p e h =
        let q = (register_all fs r).1 in
        let same : lookup name q.providers ≡ lookup name fs =
          lookup_lem name fs r h
          ∙ ap (λ ps. or_else (lookup name fs) (lookup name ps)) e
          ∙ or_else-none (lookup name fs) in
        (to q same, from q same)
      where
        to :
            (q : Registry S F I)
            → lookup name q.providers ≡ lookup name fs
            → (cloud_initializer files name path q).0 ≡ returns p
            → Provides name path q.state p
        to q same k = elim (Bool-cases (str_eq name "")) [
          | inl n ↦ absurd (cc (unnamed name path p q ((eq_iff name "").0 n)))
          | inr n ↦
              let named : name ≢ "" = λ w. absurd (cc (rw ((eq_iff name "").1 w) at n)) in
              elim (Bool-cases (str_eq path "")) [
                | inl c ↦
                    let blank = (eq_iff path "").0 c in
                    let (f, l, m) =
                      (created_lem none q name p).0
                        ((without_config name path p q named blank).0 k) in
                    record {
                      named = named;
                      factory = f;
                      registered = sym same ∙ l;
                      made = inl (blank, m);
                    }
                | inr c ↦
                    let given : path ≢ "" = λ w. absurd (cc (rw ((eq_iff path "").1 w) at c)) in
                    elim (Result-cases (files.open_file path q.state).0) [
                      | inl (file, o) ↦
                          let (f, l, m) =
                            (created_lem (some file) (at_open name path p q named) name p).0
                              ((opened_lem name path p q named file given o).0 k) in
                          record {
                            named = named;
                            factory = f;
                            registered = sym same ∙ l;
                            made = inr (given, (file, o, m));
                          }
                      | inr (x, o) ↦ absurd (cc (unopened name path p q named x given o))
                    ]
              ]
        ]

        from :
            (q : Registry S F I)
            → lookup name q.providers ≡ lookup name fs
            → Provides name path q.state p
            → (cloud_initializer files name path q).0 ≡ returns p
        from q same k = elim k.made [
          | inl (blank, m) ↦
              (without_config name path p q k.named blank).1
                ((created_lem none q name p).1 (k.factory, same ∙ k.registered, m))
          | inr (given, (file, o, m)) ↦ (opened_lem name path p q k.named file given o).1 (
              (created_lem (some file) (at_open name path p q k.named) name p).1
                (k.factory, same ∙ k.registered, m))
        ]
