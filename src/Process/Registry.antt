-- ===== src/Process/Registry.antt =====
-- plugins.go: the providers that are registered by name, and cloudInitializer of
-- cmd/controller-manager/controller-manager.go. The mutex is left out: the factories do not come
-- back to the registry.
pub mod Registered
pub mod Provided
use multicluster_cloud_provi.Prelude.{
  String, Bool, Option, none, some, List, [], ◌∷◌, ◌++◌, if◌then◌else◌, str_eq,
}
use multicluster_cloud_provi.Api.{Error, Result, ok, err, lookup}
use multicluster_cloud_provi.Process.Effects.{
  Proc, return, fatal, require, call, ◌>>=◌, ◌>>◌, proceed, returns,
}

-- Factory. It takes the open configuration file, or nil, and answers with a provider, which may be
-- nil, or with an error. `S` is the state of the process, `F` an open file, `I` the Interface.
abbrev pub Factory : Type 0 → Type 0 → Type 0 → Type 0
Factory S F I = Option F → S → Result (Option I) × S

-- The map `providers`, and the state of the process.
pub record Registry (S F I : Type 0) : Type 0 where
  pub providers : List (String × Factory S F I)
  pub state : S

-- The answers of InitMultiClusterProvider: a provider or nil with no error, and its two errors.
pub data InitAnswer (I : Type 0) : Type 0 where
  provider : Option I → InitAnswer I
  could_not_init : String → Error → InitAnswer I
  unknown : String → InitAnswer I

-- os.Open and Close
pub record Files (S F : Type 0) : Type 0 where
  pub open_file : String → S → Result F × S
  pub close : F → S → S

-- What InitMultiClusterProvider makes of the answer.
abbrev pub init_answer : {I : Type 0} → String → Result (Option I) → InitAnswer I
init_answer name (err e) = could_not_init name e
init_answer name (ok none) = unknown name
init_answer name (ok (some p)) = provider (some p)

module _ {S F I : Type 0} where
  -- RegisterMultiClusterProvider
  unfoldable pub register_multi_cluster_provider :
      String → Factory S F I → Proc (Registry S F I) (Unit {0})
  register_multi_cluster_provider name factory r = elim (lookup name r.providers) [
    | some _ ↦ fatal r
    | none ↦ return tt (record r { providers = (name, factory) ∷ r.providers })
  ]

  run_factory :
      Option (Factory S F I) → Option F → Registry S F I → Result (Option I) × Registry S F I
  run_factory none config r = (ok none, r)
  run_factory (some f) config r =
      let (answer, s) = f config r.state in (answer, record r { state = s })

  -- createMultiClusterProvider
  unfoldable pub create_multi_cluster_provider :
      String → Option F → Registry S F I → Result (Option I) × Registry S F I
  unfolding run_factory
  create_multi_cluster_provider name config r = run_factory (lookup name r.providers) config r

  module _ (files : Files S F) where
    opened : String → Result F → Proc (Registry S F I) (Result (Option I))
    unfolding create_multi_cluster_provider
    opened name (err e) r = fatal r
    opened name (ok file) r =
        let (answer, r') = create_multi_cluster_provider name (some file) r in
        (returns answer, record r' { state = files.close file r'.state })

    open_config : String → Proc (Registry S F I) (Result F)
    open_config path r =
        let (answer, s) = files.open_file path r.state in (returns answer, record r { state = s })

    with_config : String → String → Proc (Registry S F I) (Result (Option I))
    unfolding opened open_config
    with_config name path =
        if str_eq path ""
        then call (create_multi_cluster_provider name none)
        else do file ← open_config path; opened name file

    -- InitMultiClusterProvider
    init_multi_cluster_provider : String → String → Proc (Registry S F I) (InitAnswer I)
    unfolding with_config
    init_multi_cluster_provider name path =
        if str_eq name ""
        then return (provider none)
        else do answer ← with_config name path; return (init_answer name answer)

    accept : InitAnswer I → Proc (Registry S F I) I
    accept (provider (some p)) = return p
    accept (provider none) = fatal
    accept (could_not_init name e) = fatal
    accept (unknown name) = fatal

    -- cloudInitializer
    unfoldable pub cloud_initializer : String → String → Proc (Registry S F I) I
    unfolding init_multi_cluster_provider accept
    cloud_initializer name path = do answer ← init_multi_cluster_provider name path; accept answer
