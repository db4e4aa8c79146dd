-- ===== src/Indexes.antt =====
-- pkg/controllers/indexes/reference_indexer.go: the names under which a MultiClusterIngress is
-- indexed, those of its services and of its secrets.
pub mod Backends
pub mod References
pub mod Cached
use multicluster_cloud_provi.Prelude.{String, Option, none, some, List, [], ◌∷◌, ◌++◌, items}
use multicluster_cloud_provi.Api.{
  MultiClusterIngress, IngressBackend, IngressRule, HttpIngressPath, IngressTls,
}
use multicluster_cloud_provi.Platform.{Call}
use multicluster_cloud_provi.Platform.Helpers.{StringSets}

abbrev pub index_key_service_ref_name : String
index_key_service_ref_name = "mci.serviceRef.name"

abbrev pub index_key_secret_ref_name : String
index_key_secret_ref_name = "mci.secretRef.name"

path_backends : List HttpIngressPath → List IngressBackend
path_backends [] = []
path_backends (p ∷ ps) = p.backend ∷ path_backends ps

rule_backends : List IngressRule → List IngressBackend
unfolding path_backends
rule_backends [] = []
rule_backends (r ∷ rs) = elim r.http [
  | none ↦ rule_backends rs
  | some paths ↦ path_backends paths ++ rule_backends rs
]

default_backends : Option IngressBackend → List IngressBackend
default_backends none = []
default_backends (some b) = b ∷ []

unfoldable pub backends : MultiClusterIngress → List IngressBackend
unfolding default_backends rule_backends
backends mci = default_backends mci.spec.default_backend ++ rule_backends (items mci.spec.rules)

module _ (sets : StringSets) where
  -- `none` is the panic of `backend.Service.Name` at a backend that is no service.
  unfoldable pub insert_services : sets.StringSet → List IngressBackend → Option sets.StringSet
  insert_services s [] = some s
  insert_services s (b ∷ bs) = elim b.service [
    | none ↦ none
    | some svc ↦ insert_services (sets.insert s svc.name) bs
  ]

  -- BuildServiceRefIndexes
  unfoldable pub build_service_ref_indexes : MultiClusterIngress → Option (List String)
  unfolding insert_services backends
  build_service_ref_indexes mci = elim (insert_services sets.new (backends mci)) [
    | none ↦ none
    | some s ↦ some (sets.list s)
  ]

  unfoldable pub insert_secrets : sets.StringSet → List IngressTls → sets.StringSet
  insert_secrets s [] = s
  insert_secrets s (t ∷ ts) = insert_secrets (sets.insert s t.secret_name) ts

  -- BuildSecretRefIndexes
  unfoldable pub build_secret_ref_indexes : MultiClusterIngress → List String
  unfolding insert_secrets
  build_secret_ref_indexes mci = sets.list (insert_secrets sets.new mci.spec.tls)

-- IndexField of a client.FieldIndexer: the key, and the function, which may panic.
abbrev pub IndexField : Type 0 → Type 0
IndexField S = String → (MultiClusterIngress → Option (List String)) → Call S (Unit {0})

module _ (sets : StringSets) {S : Type 0} (index_field : IndexField S) where
  -- SetupServiceIndexesForMCI
  unfoldable pub setup_service_indexes_for_mci : Call S (Unit {0})
  unfolding build_service_ref_indexes
  setup_service_indexes_for_mci =
      index_field index_key_service_ref_name (build_service_ref_indexes sets)

  -- SetupSecretIndexesForMCI
  unfoldable pub setup_secret_indexes_for_mci : Call S (Unit {0})
  unfolding build_secret_ref_indexes
  setup_secret_indexes_for_mci =
      index_field index_key_secret_ref_name (λ mci. some (build_secret_ref_indexes sets mci))
