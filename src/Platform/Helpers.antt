-- ===== src/Platform/Helpers.antt =====
-- Helpers of the Kubernetes libraries: sets.String, the finalizer functions of controllerutil.
use multicluster_cloud_provi.Prelude.{
  ◌≡◌, refl, arith, String, Bool, false, not, ◌&&◌, ◌||◌, List, [], ◌∷◌, str_eq, contains,
}
use multicluster_cloud_provi.Prelude.Texts.{IsSorted}

-- k8s.io/apimachinery/pkg/util/sets.String
pub record StringSets : Type 1 where
  pub StringSet : Type 0
  pub new : StringSet
  pub insert : StringSet → String → StringSet
  pub has : StringSet → String → Bool
  pub list : StringSet → List String
  pub has-new : (a : String) → has new a ≡ false
  pub has-insert : (s : StringSet) (a b : String) → has (insert s a) b ≡ (str_eq a b || has s b)
  pub contains-list : (s : StringSet) (a : String) → contains (list s) a ≡ has s a
  pub list-IsSorted : (s : StringSet) → IsSorted (list s)

-- Insert(items...)
abbrev pub insert_all : (sets : StringSets) → sets.StringSet → List String → sets.StringSet
insert_all sets s [] = s
insert_all sets s (x ∷ xs) = insert_all sets (sets.insert s x) xs

pub has-insert_all :
    (sets : StringSets) (s : sets.StringSet) (xs : List String) (a : String)
    → sets.has (insert_all sets s xs) a ≡ (contains xs a || sets.has s a)
has-insert_all sets s [] a = refl
has-insert_all sets s (x ∷ xs) a =
    ground (arith, has-insert_all sets (sets.insert s x) xs a, sets.has-insert s x a)

-- sigs.k8s.io/controller-runtime/pkg/controller/controllerutil, on the list of finalizers
pub record Finalizers : Type 0 where
  pub contains_finalizer : List String → String → Bool
  -- the new list, and whether it differs
  pub add : List String → String → List String × Bool
  pub remove : List String → String → List String × Bool
  pub contains_finalizer_iff :
      (fs : List String) (f : String) → contains_finalizer fs f ≡ contains fs f
  pub add_changes : (fs : List String) (f : String) → (add fs f).1 ≡ not (contains fs f)
  pub contains-add :
      (fs : List String) (f g : String) → contains (add fs f).0 g ≡ (str_eq f g || contains fs g)
  pub remove_changes : (fs : List String) (f : String) → (remove fs f).1 ≡ contains fs f
  pub contains-remove :
      (fs : List String) (f g : String)
      → contains (remove fs f).0 g ≡ (not (str_eq f g) && contains fs g)
