-- ===== src/Util/IngressClasses.antt =====
-- Which MultiClusterIngresses belong to a provider's class.
use multicluster_cloud_provi.Prelude.{
  ◌≡◌, refl, ◌≢◌, ◌↔◌, inl, inr, String, true, Option, none, some, List, arith, eq_iff, str_eq,
  Bool-cases, Option-cases, ap, sym, ◌∙◌,
}
use multicluster_cloud_provi.Api.{
  NamespacedName, Result, ok, err, MultiClusterIngress, IngressClass, Result-cases,
}
use multicluster_cloud_provi.Platform.Keeps.{Keeps, keeps_rules}
use multicluster_cloud_provi.Platform.{Event, done, World, Client}
use multicluster_cloud_provi.Util.{
  default_of_list, get_default_ingress_class, matches, class_matched, default_matched,
  class_name_matched, check_ingress_class_matched,
}
use multicluster_cloud_provi.Util.DefaultClass.{defaults, only_name, default_of_list_lem}

-- The class that an ingress belongs to, with the client's state when it is looked up: the one that
-- the ingress names, or the only default one.
pub data Belongs {C : Type 0} (client : Client C) (before : C) (m : MultiClusterIngress)
    (name : String) (after : C) : Type 0 where
  names :
      m.spec.ingress_class_name ≡ some name → after ≡ before → Belongs client before m name after
  by_default :
      (cs : List IngressClass)
      → m.spec.ingress_class_name ≡ none
      → client.list_ingress_classes before ≡ (ok cs, after)
      → only_name (defaults cs) ≡ ok name
      → name ≢ ""
      → Belongs client before m name after

abbrev class_key : String → NamespacedName
class_key name = record { namespace = ""; name = name }

-- The ingress belongs to a class whose controller has the name.
pub record Matched {C : Type 0} (client : Client C) (before : C) (m : MultiClusterIngress)
    (controller : String) : Type 0 where
  pub name : String
  pub state : C
  class_of : IngressClass
  belongs : Belongs client before m name state
  pub got : (client.get_ingress_class (class_key name) state).0 ≡ ok class_of
  controls : class_of.controller ≡ controller

module _ {C P : Type 0} (client : Client C) (m : MultiClusterIngress) (controller : String) where
  class_matched_lem :
      (name : String) (w : World C P)
      → (class_matched client name controller w).0 ≡ done true
      → (c : IngressClass) × ((client.get_ingress_class (class_key name) w.api).0 ≡ ok c)
        × (c.controller ≡ controller)
  unfolding class_matched matches
  class_matched_lem name w h =
      elim (Result-cases (client.get_ingress_class (class_key name) w.api).0) [
        | inl (c, e) ↦ (c, e, ground (arith, eq_iff c.controller controller))
        | inr (x, e) ↦ absurd (ground arith)
      ]

  matched_class :
      (name : String) (c : IngressClass) (w : World C P)
      → (client.get_ingress_class (class_key name) w.api).0 ≡ ok c
      → c.controller ≡ controller
      → (class_matched client name controller w).0 ≡ done true
  unfolding class_matched matches
  matched_class name c w e k = ground (arith, eq_iff c.controller controller)

  default_lem :
      (w : World C P) (r : Result (List IngressClass))
      → m.spec.ingress_class_name ≡ none
      → (client.list_ingress_classes w.api).0 ≡ r
      → let w' = record w { api = (client.list_ingress_classes w.api).1 } in
        check_ingress_class_matched client m controller w
        ≡ default_matched client (default_of_list r) controller w'
  unfolding check_ingress_class_matched
  default_lem w r n e = rw (n, e, class_name_matched, get_default_ingress_class)

  named_default :
      (w : World C P) (r : Result String)
      → (default_matched client r controller w).0 ≡ done true
      → (name : String) × (r ≡ ok name)
        × (name ≢ "")
        × ((class_matched client name controller w).0 ≡ done true)
  unfolding default_matched
  named_default w (err e) h = absurd (cc)
  named_default w (ok name) h = elim (Bool-cases (str_eq name "")) [
    | inl e ↦ absurd (ground arith)
    | inr e ↦ (name, refl, λ p. ground (arith, eq_iff name ""), rw e at h)
  ]

  default_named :
      (w : World C P) (name : String)
      → name ≢ ""
      → default_matched client (ok name) controller w ≡ class_matched client name controller w
  unfolding default_matched
  default_named w name n = elim (Bool-cases (str_eq name "")) [
    | inl e ↦ absurd (n ((eq_iff name "").0 e))
    | inr e ↦ rw e
  ]

  explicit_lem :
      (w : World C P) (name : String)
      → m.spec.ingress_class_name ≡ some name
      → check_ingress_class_matched client m controller w ≡ class_matched client name controller w
  unfolding check_ingress_class_matched
  explicit_lem w name n = rw (n, class_name_matched)

  match_sound :
      (w : World C P)
      → (check_ingress_class_matched client m controller w).0 ≡ done true
      → Matched client w.api m controller
  unfolding default_of_list
  match_sound w h = elim (Option-cases m.spec.ingress_class_name) [
    | inr (name, n) ↦
        let (c, g, k) =
          class_matched_lem name w (ap (λ r. r.0) (sym (explicit_lem w name n)) ∙ h) in
        record {
          name = name;
          state = w.api;
          class_of = c;
          belongs = names n refl;
          got = g;
          controls = k;
        }
    | inl n ↦ elim (Result-cases (client.list_ingress_classes w.api).0) [
      | inr (e, l) ↦ absurd (
          ground (
            arith,
            named_default (record w { api = (client.list_ingress_classes w.api).1 }) (err e)
                (ap (λ r. r.0) (sym (default_lem w (err e) n l)) ∙ h),
          ))
      | inl (cs, l) ↦
          let w' = record w { api = (client.list_ingress_classes w.api).1 } in
          let (name, d, ne, k) =
            named_default w' (default_of_list (ok cs))
              (ap (λ r. r.0) (sym (default_lem w (ok cs) n l)) ∙ h) in
          let (c, g, q) = class_matched_lem name w' k in
          record {
            name = name;
            state = w'.api;
            class_of = c;
            belongs = by_default cs n (ground (arith, l)) (sym (default_of_list_lem cs) ∙ d) ne;
            got = g;
            controls = q;
          }
    ]
  ]

  complete_by :
      (w : World C P) (name : String) (after : C) (c : IngressClass)
      → Belongs client w.api m name after
      → (client.get_ingress_class (class_key name) after).0 ≡ ok c
      → c.controller ≡ controller
      → (check_ingress_class_matched client m controller w).0 ≡ done true
  complete_by w name after c (names n e) g k =
      ap (λ r. r.0) (explicit_lem w name n) ∙ matched_class name c w (rw e at g) k
  complete_by w name after c (by_default cs n l d ne) g k =
      let w' = record w { api = (client.list_ingress_classes w.api).1 } in
      ap (λ r. r.0) (default_lem w (ok cs) n (ap (λ r. r.0) l))
      ∙ ap (λ r. (default_matched client r controller w').0) (default_of_list_lem cs ∙ d)
      ∙ ap (λ r. r.0) (default_named w' name ne)
      ∙ matched_class name c w' (rw (← (ap (λ r. r.1) l)) at g) k

  -- An ingress is taken as one of this provider's exactly when it belongs to an ingress class, by
  -- its name or as the only default class, that the API server has and whose controller is the
  -- provider's class name.
  pub check_ingress_class_matched_lem :
      (w : World C P)
      → ((check_ingress_class_matched client m controller w).0 ≡ done true)
        ↔ Matched client w.api m controller
  check_ingress_class_matched_lem w =
      (match_sound w, λ k. complete_by w k.name k.state k.class_of k.belongs k.got k.controls)

-- The check writes nothing.
module _ {C P : Type 0} (client : Client C) (I : List Event → Type 0) where
  class_matched-Keeps :
      (name controller : String) → Keeps {C = C} {P = P} I (class_matched client name controller)
  unfolding class_matched
  class_matched-Keeps name controller = search (keeps_rules)

  default_matched-Keeps :
      (r : Result String) (controller : String)
      → Keeps {C = C} {P = P} I (default_matched client r controller)
  unfolding default_matched
  default_matched-Keeps (ok name) controller = search (keeps_rules, class_matched-Keeps)
  default_matched-Keeps (err e) controller = search (keeps_rules)

  class_name_matched-Keeps :
      (o : Option String) (controller : String)
      → Keeps {C = C} {P = P} I (class_name_matched client o controller)
  unfolding class_name_matched get_default_ingress_class
  class_name_matched-Keeps (some name) controller = class_matched-Keeps name controller
  class_name_matched-Keeps none controller = search (keeps_rules, default_matched-Keeps) depth 9

  pub check_ingress_class_matched-Keeps :
      (m : MultiClusterIngress) (controller : String)
      → Keeps {C = C} {P = P} I (check_ingress_class_matched client m controller)
  unfolding check_ingress_class_matched
  check_ingress_class_matched-Keeps m controller =
      class_name_matched-Keeps m.spec.ingress_class_name controller
