-- ===== src/IngressWatch/Clusters.antt =====
-- When a cluster's traffic control changes, the ingresses that it serves are reconciled.
use multicluster_cloud_provi.Prelude.{
  ◌≡◌, ◌≢◌, ◌⊎◌, refl, sym, ap, ◌∙◌, inl, inr, String, Bool, true, false, ◌&&◌, ◌||◌, List, [], ◌∷◌,
  ◌++◌, arith, str_eq, eq_iff, items, any, any-append, In, contains, Bool-cases,
}
use multicluster_cloud_provi.Api.{ok, MultiClusterIngress, ServiceLocation, Cluster}
use multicluster_cloud_provi.Platform.{done, World, Event, Client, mci_signalled}
use multicluster_cloud_provi.Platform.Helpers.{StringSets}
use multicluster_cloud_provi.TrafficBlock.{
  traffic_control, has_traffic_control, traffic_block_clusters,
}
use multicluster_cloud_provi.TrafficBlock.Blocked.{
  is_located, is_controlled, has_traffic_control_lem, traffic_block_clusters_lem,
}
use multicluster_cloud_provi.IngressWatch.{
  same_flag, location_contains, locations_contain, mci_svc_locations_contains_cluster,
  signal_located, cluster_listed, cluster_updated,
}

location_contains_lem :
    (cs : List String) (name : String) → location_contains cs name ≡ contains cs name
unfolding location_contains
location_contains_lem [] name = refl
location_contains_lem (c ∷ cs) name = ground (arith, location_contains_lem cs name)

locations_contain_lem :
    (ls : List ServiceLocation) (name : String)
    → locations_contain ls name ≡ any (λ l. contains (items l.clusters) name) ls
unfolding locations_contain
locations_contain_lem [] name = refl
locations_contain_lem (l ∷ ls) name =
    ground (arith, location_contains_lem (items l.clusters) name, locations_contain_lem ls name)

located_lem :
    (m : MultiClusterIngress) (c : Cluster)
    → mci_svc_locations_contains_cluster m c ≡ is_located m c.name
unfolding mci_svc_locations_contains_cluster
located_lem m c = locations_contain_lem (items m.status.service_locations) c.name

-- The entries of those ingresses that the cluster serves, the last one first, on an older log.
abbrev pub signals : List MultiClusterIngress → String → List Event → List Event
signals [] name l = l
signals (m ∷ ms) name l =
    signals ms name (elim (is_located m name) [ true ↦ mci_signalled m ∷ l | false ↦ l ])

abbrev is_under_control : Cluster → Bool
is_under_control c = contains c.remedy_actions traffic_control

module _ {C P : Type 0} where
  signal_lem :
      (ms : List MultiClusterIngress) (c : Cluster) (w : World C P)
      → ((signal_located ms c w).0 ≡ done tt)
        × ((signal_located ms c w).1.log ≡ signals ms c.name w.log)
  unfolding signal_located
  signal_lem [] c w = (refl, refl)
  signal_lem (m ∷ ms) c w = elim (Bool-cases (is_located m c.name)) [
    | inl e ↦
        let (x, y) = signal_lem ms c (record w { log = mci_signalled m ∷ w.log }) in
        (rw (located_lem m c ∙ e) x, rw (located_lem m c ∙ e) (rw (e, signals) y))
    | inr n ↦
        let (x, y) = signal_lem ms c w in
        (rw (located_lem m c ∙ n) x, rw (located_lem m c ∙ n) (rw (n, signals) y))
  ]

same_flag_lem : (a b : Bool) → same_flag a b ≡ true → a ≡ b
same_flag_lem a b h = ground arith

differs : (a b : Bool) → a ≢ b → same_flag a b ≡ false
differs a b h = ground arith

module _ {C P : Type 0} (client : Client C) (old new : Cluster) (w : World C P) where
  -- When the traffic control of a cluster is switched on or off, exactly those listed ingresses are
  -- signalled, in their order, that a service location puts on this cluster.
  pub cluster_updated_lem :
      (ms : List MultiClusterIngress)
      → is_under_control old ≢ is_under_control new
      → (client.list_mcis w.api).0 ≡ ok ms
      → ((cluster_updated client old new w).0 ≡ done tt)
        × ((cluster_updated client old new w).1.log ≡ signals ms new.name w.log)
  unfolding cluster_updated cluster_listed
  cluster_updated_lem ms d l =
      let n =
        differs (has_traffic_control old.remedy_actions) (has_traffic_control new.remedy_actions)
          (λ e. d (
            sym (has_traffic_control_lem old.remedy_actions)
            ∙ e
            ∙ has_traffic_control_lem new.remedy_actions)) in
      let (x, y) = signal_lem ms new (record w { api = (client.list_mcis w.api).1 }) in
      (rw (n, l) x, rw (n, l) y)

In-signals_older :
    (ms : List MultiClusterIngress) (name : String) (e : Event) (l : List Event)
    → In e l
    → In e (signals ms name l)
In-signals_older [] name e l i = i
In-signals_older (m ∷ ms) name e l i = elim (Bool-cases (is_located m name)) [
  | inl p ↦ rw (p, signals) (In-signals_older ms name e (mci_signalled m ∷ l) (inr i))
  | inr n ↦ rw (n, signals) (In-signals_older ms name e l i)
]

-- Each ingress that the cluster serves has its entry.
In-signals :
    (ms : List MultiClusterIngress) (name : String) (m : MultiClusterIngress) (l : List Event)
    → In m ms
    → is_located m name ≡ true
    → In (mci_signalled m) (signals ms name l)
In-signals [] name m l i p = absurd i
In-signals (x ∷ ms) name m l (inl e) p =
    rw (ap (λ x. is_located x name) e ∙ p, signals)
      (In-signals_older ms name (mci_signalled m) (mci_signalled x ∷ l) (inl (ap mci_signalled e)))
In-signals (x ∷ ms) name m l (inr i) p =
    In-signals ms name m (elim (is_located x name) [ true ↦ mci_signalled x ∷ l | false ↦ l ]) i p

-- The control of the cluster is as it was, or the cluster does not serve the ingress.
abbrev Unaffected : MultiClusterIngress → Cluster → Cluster → Type 0
Unaffected m old new =
    (is_under_control old ≡ is_under_control new) ⊎ (is_located m new.name ≡ false)

unaffected_lem :
    (sets : StringSets) (m : MultiClusterIngress) (old new : Cluster) (before after : List Cluster)
    → old.name ≡ new.name
    → Unaffected m old new
    → (name : String)
    → contains (items (traffic_block_clusters sets m (before ++ old ∷ after))) name
      ≡ contains (items (traffic_block_clusters sets m (before ++ new ∷ after))) name
unaffected_lem sets m old new before after same u name =
    (traffic_block_clusters_lem sets m (before ++ old ∷ after)).0 name
    ∙ ap (λ b. is_located m name && b) (any-append (is_controlled name) before (old ∷ after))
    ∙ middle u
    ∙ ap (λ b. is_located m name && b) (sym (any-append (is_controlled name) before (new ∷ after)))
    ∙ sym ((traffic_block_clusters_lem sets m (before ++ new ∷ after)).0 name)
  where
    middle :
        Unaffected m old new
        → (is_located m name
            && (any (is_controlled name) before || any (is_controlled name) (old ∷ after)))
          ≡ (is_located m name
              && (any (is_controlled name) before || any (is_controlled name) (new ∷ after)))
    middle (inl e) = rw (same, e) refl
    middle (inr n) = elim (Bool-cases (str_eq new.name name)) [
      | inl p ↦ rw (ap (is_located m) (sym ((eq_iff new.name name).0 p)) ∙ n) refl
      | inr q ↦ rw (same, q) refl
    ]

module _ {C P : Type 0} (client : Client C) (old new : Cluster) (w : World C P) where
  unsignalled-Unaffected :
      (ms : List MultiClusterIngress) (m : MultiClusterIngress)
      → (client.list_mcis w.api).0 ≡ ok ms
      → In m ms
      → ¬ In (mci_signalled m) (cluster_updated client old new w).1.log
      → Unaffected m old new
  unsignalled-Unaffected ms m l i n = elim (Bool-cases (is_located m new.name)) [
    | inr f ↦ inr f
    | inl p ↦ elim (Bool-cases (same_flag (is_under_control old) (is_under_control new))) [
      | inl s ↦ inl (same_flag_lem (is_under_control old) (is_under_control new) s)
      | inr d ↦
          let different : is_under_control old ≢ is_under_control new = λ e. ground (arith) in
          let signalled = (cluster_updated_lem client old new w ms different l).1 in
          absurd (n (rw signalled (In-signals ms new.name m w.log i p)))
    ]
  ]

  -- If the handler of an update of a cluster has listed the ingresses, and has signalled nothing for
  -- one of them (and the log had no such entry before), then that ingress needs no signal: the update
  -- leaves the same names in its traffic block list, whatever other clusters there are.
  pub unsignalled_lem :
      (sets : StringSets) (ms : List MultiClusterIngress) (m : MultiClusterIngress)
      (before after : List Cluster)
      → old.name ≡ new.name
      → (client.list_mcis w.api).0 ≡ ok ms
      → In m ms
      → ¬ In (mci_signalled m) (cluster_updated client old new w).1.log
      → (name : String)
      → contains (items (traffic_block_clusters sets m (before ++ old ∷ after))) name
        ≡ contains (items (traffic_block_clusters sets m (before ++ new ∷ after))) name
  unsignalled_lem sets ms m before after same l i n =
      unaffected_lem sets m old new before after same (unsignalled-Unaffected ms m l i n)
