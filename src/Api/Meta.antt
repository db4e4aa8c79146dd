-- ===== src/Api/Meta.antt =====
-- Names, metadata, errors of the API server.
use multicluster_cloud_provi.Prelude.{
  ◌≡◌, refl, ◌⊎◌, inl, inr, ℕ, String, Bool, true, false, Option, none, some, List, [], ◌∷◌, str_eq,
  if◌then◌else◌,
}

pub record NamespacedName : Type 0 where
  pub namespace : String
  pub name : String

-- A map from strings to strings, as an association list.
abbrev pub StringMap : Type 0
StringMap = List (String × String)

-- v, ok := m[k]
abbrev pub lookup {ℓ} : {A : Type ℓ} → String → List (String × A) → Option A
lookup k [] = none
lookup k ((j, v) ∷ m) = if str_eq j k then some v else lookup k m

-- m[k], which is "" for a missing key
abbrev pub index : StringMap → String → String
index m k = elim (lookup k m) [ none ↦ "" | some v ↦ v ]

pub record OwnerReference : Type 0 where
  pub kind : String
  pub owner : String
  pub controller : Bool

pub record ObjectMeta : Type 0 where
  pub namespace : String
  pub name : String
  pub annotations : StringMap
  pub labels : StringMap
  pub finalizers : List String
  pub owner_references : List OwnerReference
  pub deletion_timestamp : Option ℕ
  pub resource_version : String

-- The metadata of a literal that gives a namespace and a name.
abbrev pub named : String → String → ObjectMeta
named ns n = record {
  namespace = ns;
  name = n;
  annotations = [];
  labels = [];
  finalizers = [];
  owner_references = [];
  deletion_timestamp = none;
  resource_version = "";
}

-- DeletionTimestamp.IsZero()
abbrev pub is_zero : Option ℕ → Bool
is_zero none = true
is_zero (some t) = false

-- The reasons that the code tells apart, by apierrors.IsNotFound and in retry.RetryOnConflict.
pub data Error : Type 0 where
  not_found conflict : Error
  other : String → Error

abbrev pub is_not_found : Error → Bool
is_not_found not_found = true
is_not_found _ = false

-- The error that the test takes.
pub not_found_lem : (e : Error) → is_not_found e ≡ true → e ≡ not_found
not_found_lem not_found h = refl
not_found_lem conflict h = cc
not_found_lem (other t) h = cc

-- A Go result (T, error).
pub data Result {ℓ} (A : Type ℓ) : Type ℓ where
  ok : A → Result A
  err : Error → Result A

-- To split on an answer and keep the equation.
pub Result-cases {ℓ} :
    {A : Type ℓ} (r : Result A) → ((a : A) × (r ≡ ok a)) ⊎ ((e : Error) × (r ≡ err e))
Result-cases (ok a) = inl (a, refl)
Result-cases (err e) = inr (e, refl)
