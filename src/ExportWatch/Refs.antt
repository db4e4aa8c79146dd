-- ===== src/ExportWatch/Refs.antt =====
-- Which services the update of an ingress signals.
use multicluster_cloud_provi.Prelude.{
  ◌≡◌, refl, ap, subst, ◌∙◌, inl, inr, String, Bool, true, not, ◌&&◌, ◌||◌, Option, some, List, [],
  ◌∷◌, ◌++◌, arith, str_eq, eq_iff, contains, contains-append, Bool-cases, if◌then◌else◌,
}
use multicluster_cloud_provi.Prelude.Equality.{◌==◌, list_eq, string_eq, eq_of_equal}
use multicluster_cloud_provi.Api.{MultiClusterIngress}
use multicluster_cloud_provi.Platform.{
  done, continue, deref, pure, World, Event, Client, service_signalled, M, ◌>>=◌,
}
use multicluster_cloud_provi.Platform.Helpers.{StringSets}
use multicluster_cloud_provi.Indexes.{build_service_ref_indexes}
use multicluster_cloud_provi.Util.{check_ingress_class_matched}
use multicluster_cloud_provi.Util.IngressClasses.{check_ingress_class_matched-Keeps}
use multicluster_cloud_provi.IngressWatch.{service_named}
use multicluster_cloud_provi.ExportWatch.{
  missing_loop, target_refs, signal_services, refs_changed, refs_updated, mci_updated,
}

contains_same :
    (xs : List String) (a b : String) → str_eq a b ≡ true → contains xs a ≡ contains xs b
contains_same xs a b h = ap (contains xs) ((eq_iff a b).0 h)

contains-missing_loop :
    (acc xs ys : List String) (name : String)
    → contains (missing_loop acc xs ys) name
      ≡ (contains acc name || (contains xs name && not (contains ys name)))
unfolding missing_loop
contains-missing_loop acc [] ys name = ground arith
contains-missing_loop acc (x ∷ xs) ys name = elim (Bool-cases (contains ys x)) [
  | inl e ↦ rw e (
      ground (
        arith,
        contains-missing_loop acc xs ys name,
        λ (p : str_eq x name ≡ true). contains_same ys x name p,
      ))
  | inr n ↦ rw n (
      ground (
        arith,
        contains-missing_loop (acc ++ x ∷ []) xs ys name,
        contains-append acc (x ∷ []) name,
        λ (p : str_eq x name ≡ true). contains_same ys x name p,
      ))
]

-- The name is in exactly one of the lists.
abbrev in_one : List String → List String → String → Bool
in_one old new name =
    (contains old name && not (contains new name)) || (contains new name && not (contains old name))

contains-target_refs :
    (old new : List String) (name : String)
    → contains (target_refs old new) name ≡ in_one old new name
unfolding target_refs
contains-target_refs old new name = ground (
  arith,
  contains-missing_loop (missing_loop [] old new) new old name,
  contains-missing_loop [] old new name,
)

-- The entries that signal these services, the last one first, on an older log.
abbrev pub signals : String → List String → List Event → List Event
signals namespace [] l = l
signals namespace (n ∷ ns) l =
    signals namespace ns (service_signalled (service_named namespace n) ∷ l)

module _ {C P : Type 0} where
  signal_lem :
      (namespace : String) (names : List String) (w : World C P)
      → ((signal_services namespace names w).0 ≡ done tt)
        × ((signal_services namespace names w).1.log ≡ signals namespace names w.log)
  unfolding signal_services
  signal_lem namespace [] w = (refl, refl)
  signal_lem namespace (n ∷ ns) w =
      signal_lem namespace ns
        (record w { log = service_signalled (service_named namespace n) ∷ w.log })

-- What has been signalled: the services of exactly one of the lists.
pub record Signalled (namespace : String) (old new : List String) (before after : List Event)
    : Type 0 where
  pub services : List String
  pub logged : after ≡ signals namespace services before
  exactly : (name : String) → contains services name ≡ in_one old new name

module _ {C P : Type 0} (client : Client C) (sets : StringSets) (class_name : String)
    (old new : MultiClusterIngress) (w : World C P) (xs ys : List String) where
  changed_lem :
      (v : World C P)
      → Signalled new.namespace xs ys v.log (refs_changed client sets new xs ys v).1.log
  unfolding refs_changed
  changed_lem v = elim (Bool-cases (xs == ys)) [
    | inl e ↦ rw e record {
      services = [];
      logged = refl;
      exactly = λ name. ground (arith, ap (λ l. contains l name) (eq_of_equal xs ys e));
    }
    | inr n ↦ rw n record {
      services = target_refs xs ys;
      logged = (signal_lem new.namespace (target_refs xs ys) v).1;
      exactly = contains-target_refs xs ys;
    }
  ]

  -- After an update of an ingress of the provider's class whose index of services can be built
  -- before and after, exactly those services are signalled that one of the two refers to and the
  -- other does not.
  pub refs_lem :
      (check_ingress_class_matched client new class_name w).0 ≡ done true
      → build_service_ref_indexes sets old ≡ some xs
      → build_service_ref_indexes sets new ≡ some ys
      → Signalled new.namespace xs ys w.log (mci_updated client sets class_name old new w).1.log
  unfolding mci_updated refs_updated
  refs_lem h p q =
      let checked = (check_ingress_class_matched client new class_name w).1 in
      let kept =
        (check_ingress_class_matched-Keeps client (λ l. l ≡ w.log) new class_name).at w refl in
      let branch : Bool → M C P (Unit {0}) =
        λ b. if not b then pure tt else refs_updated client sets old new in
      let updated = λ (a b : Option (List String)).
        (deref a >>= λ x. deref b >>= λ y. refs_changed client sets new x y) checked in
      let whole =
        ap (λ r. continue r branch checked) h
        ∙ ap (λ a. updated a (build_service_ref_indexes sets new)) p
        ∙ ap (updated (some xs)) q in
      rw (ap (λ r. r.1.log) whole) (
        subst
          (λ l. Signalled new.namespace xs ys l (refs_changed client sets new xs ys checked).1.log)
          kept (changed_lem checked))
