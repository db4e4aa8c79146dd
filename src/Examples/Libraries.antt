-- ===== src/Examples/Libraries.antt =====
-- Concrete libraries: sets of strings, finalizers and retries.
use multicluster_cloud_provi.Prelude.{
  ◌≡◌, refl, sym, ap, subst, inl, inr, ℕ, zero, suc, String, Bool, true, false, not, ◌&&◌, ◌||◌,
  List, [], ◌∷◌, ◌++◌, arith, str_eq, eq_iff, contains, contains-append, Bool-cases, if◌then◌else◌,
}
use multicluster_cloud_provi.Prelude.Texts.{
  sort_strings, contains-sort_strings, sort_strings-IsSorted,
}
use multicluster_cloud_provi.Api.{not_found, conflict, other}
use multicluster_cloud_provi.Platform.{Exit, done, fail, panic, Action}
use multicluster_cloud_provi.Platform.Retry.{Retry, Attempts, last, again}
use multicluster_cloud_provi.Platform.Helpers.{StringSets, Finalizers}

abbrev insert_once : List String → String → List String
insert_once s a = if contains s a then s else a ∷ s

pub contains-insert_once :
    (s : List String) (a b : String) → contains (insert_once s a) b ≡ (str_eq a b || contains s b)
contains-insert_once s a b = elim (Bool-cases (contains s a)) [
  | inl e ↦ rw e (ground (arith, eq_iff a b, λ (p : a ≡ b). same s a b p))
  | inr n ↦ rw n refl
]
  where
    same : (s : List String) (a b : String) → a ≡ b → contains s a ≡ contains s b
    same s a b p = rw p refl

abbrev pub string_sets : StringSets
string_sets = record {
  StringSet = List String;
  new = [];
  insert = insert_once;
  has = contains;
  list = sort_strings;
  has-new = λ a. refl;
  has-insert = contains-insert_once;
  contains-list = contains-sort_strings;
  list-IsSorted = sort_strings-IsSorted;
}

abbrev pub without : List String → String → List String
without [] f = []
without (x ∷ xs) f = let rest = without xs f in if str_eq x f then rest else x ∷ rest

pub contains-without :
    (fs : List String) (f g : String)
    → contains (without fs f) g ≡ (not (str_eq f g) && contains fs g)
contains-without [] f g = ground arith
contains-without (x ∷ xs) f g =
    ground (arith, contains-without xs f g, eq_iff x f, eq_iff x g, eq_iff f g)

abbrev with : List String → String → List String × Bool
with fs f = if contains fs f then (fs, false) else (fs ++ f ∷ [], true)

pub contains-with :
    (fs : List String) (f g : String) → contains (with fs f).0 g ≡ (str_eq f g || contains fs g)
contains-with fs f g = elim (Bool-cases (contains fs f)) [
  | inl e ↦ rw e (ground (arith, eq_iff f g, λ (p : f ≡ g). ap (contains fs) p))
  | inr n ↦ rw n (ground (arith, contains-append fs (f ∷ []) g))
]

pub with_changes : (fs : List String) (f : String) → (with fs f).1 ≡ not (contains fs f)
with_changes fs f = ground arith

abbrev pub finalizers : Finalizers
finalizers = record {
  contains_finalizer = contains;
  add = with;
  remove = λ fs f. (without fs f, contains fs f);
  contains_finalizer_iff = λ fs f. refl;
  add_changes = with_changes;
  contains-add = contains-with;
  remove_changes = λ fs f. refl;
  contains-remove = contains-without;
}

module _ (S : Type 0) (fn : Action S (Unit {0})) where
  -- The function again on the state after a conflict, `n` times at most.
  abbrev retry_after : ℕ → Exit (Unit {0}) × S → Exit (Unit {0}) × S
  retry_after zero r = r
  retry_after (suc n) (fail conflict, s) = retry_after n (fn s)
  retry_after (suc n) r = r

  pub attempts_lem :
      (n : ℕ) (s : S) (r : Exit (Unit {0}) × S) → r ≡ fn s → Attempts fn s (retry_after n r)
  attempts_lem zero s r h = last h
  attempts_lem (suc n) s (fail conflict, t) h = again (ap (λ x. x.0) (sym h)) (
      subst (λ x. Attempts fn x (retry_after n (fn t))) (ap (λ x. x.1) h)
        (attempts_lem n t (fn t) refl))
  attempts_lem (suc n) s (fail not_found, t) h = last h
  attempts_lem (suc n) s (fail (other e), t) h = last h
  attempts_lem (suc n) s (done u, t) h = last h
  attempts_lem (suc n) s (panic, t) h = last h

  pub retries_lem : (s : S) → (fn s).0 ≡ fail conflict → Attempts fn (fn s).1 (retry_after 4 (fn s))
  retries_lem s h =
      subst (λ x. Attempts fn (fn s).1 (retry_after 4 x)) (pair h)
        (attempts_lem 3 (fn s).1 (fn (fn s).1) refl)
    where
      pair : (fn s).0 ≡ fail conflict → (fail conflict, (fn s).1) ≡ fn s
      pair h = ap (λ e. (e, (fn s).1)) (sym h)

abbrev pub default_retry : Retry
default_retry = record {
  on_conflict = λ S fn s. retry_after S fn 4 (fn s);
  attempts = λ S fn s. attempts_lem S fn 4 s (fn s) refl;
  retries = retries_lem;
}
