-- ===== src/IngressWatch/Routes.antt =====
-- How the change of a service travels to the ingresses that refer to it, and up to the queue.
use multicluster_cloud_provi.Prelude.{
  ◌≡◌, refl, ap, ◌↔◌, inl, inr, String, true, List, [], ◌∷◌, arith, eq_iff, In, Bool-cases,
}
use multicluster_cloud_provi.Api.{ok, is_zero, lookup, same_map_iff, MultiClusterIngress, Service}
use multicluster_cloud_provi.Platform.{
  done, World, Event, queued, mci_signalled, pure, ◌>>◌, Client,
}
use multicluster_cloud_provi.Platform.Helpers.{StringSets}
use multicluster_cloud_provi.Platform.Watching.{
  Incoming, created, deleted, sent, updated, kind, channel, deliver, service_handlers, mci_handlers,
  Manager, Managed, set_up_lem,
}
use multicluster_cloud_provi.Indexes.{index_key_service_ref_name}
use multicluster_cloud_provi.Indexes.References.{RefersTo}
use multicluster_cloud_provi.Indexes.Cached.{Indexed, indexed_lem}
use multicluster_cloud_provi.Util.{check_ingress_class_matched}
use multicluster_cloud_provi.Util.IngressClasses.{check_ingress_class_matched-Keeps}
use multicluster_cloud_provi.TrafficBlock.{key_of}
use multicluster_cloud_provi.IngressWatch.{
  same_service, signal_all, service_impacts, service_changed, service_updated, mci_created,
}
use multicluster_cloud_provi.IngressWatch.Relevant.{same_flag_iff}
use multicluster_cloud_provi.IngressWatch.Setup.{mci_watches, setup_with_manager, controller_name}

pub record SameService (old new : Service) : Type 0 where
  pub annotations : (k : String) → lookup k old.annotations ≡ lookup k new.annotations
  pub spec : old.spec ≡ new.spec
  pub lives : is_zero old.deletion_timestamp ≡ is_zero new.deletion_timestamp

same_service_lem : (old new : Service) → same_service old new ≡ true → SameService old new
same_service_lem old new h = record {
  annotations = (same_map_iff old.annotations new.annotations).0 (ground arith);
  spec = (eq_iff old.spec new.spec).0 (ground arith);
  lives =
      (same_flag_iff (is_zero old.deletion_timestamp) (is_zero new.deletion_timestamp)).0
        (ground arith);
}

-- The event is about the service, and an update is one that counts.
abbrev Concerns : Incoming Service → Service → Type 0
Concerns (created s) svc = s ≡ svc
Concerns (deleted s) svc = s ≡ svc
Concerns (sent s) svc = s ≡ svc
Concerns (updated old new) svc = (new ≡ svc) × (SameService old new → ⊥)

-- The entries that signal the ingresses, the last one first, on an older log.
abbrev pub signals : List MultiClusterIngress → List Event → List Event
signals [] l = l
signals (m ∷ ms) l = signals ms (mci_signalled m ∷ l)

module _ {C P : Type 0} where
  signal_all_lem :
      (ms : List MultiClusterIngress) (w : World C P)
      → signal_all ms w ≡ (done tt, record w { log = signals ms w.log })
  unfolding signal_all
  signal_all_lem [] w = refl
  signal_all_lem (m ∷ ms) w = signal_all_lem ms (record w { log = mci_signalled m ∷ w.log })

module _ {C P : Type 0} (client : Client C) (svc : Service) (w : World C P)
    (ms : List MultiClusterIngress)
    (listed : (client.list_mcis_by_index svc.namespace index_key_service_ref_name svc.name w.api).0
      ≡ ok ms) where
  abbrev after : World C P
  after = record w {
    log = signals ms w.log;
    api = (client.list_mcis_by_index svc.namespace index_key_service_ref_name svc.name w.api).1;
  }

  impacts_lem : (service_impacts client svc.namespace svc.name >> pure tt) w ≡ (done tt, after)
  unfolding service_impacts
  impacts_lem =
      let v : World C P = record w {
        api = (client.list_mcis_by_index svc.namespace index_key_service_ref_name svc.name w.api).1;
      } in
      rw (listed, signal_all_lem ms v) refl

  changed_lem : (s : Service) → s ≡ svc → (service_changed client s >> pure tt) w ≡ (done tt, after)
  unfolding service_changed
  changed_lem s e = rw e impacts_lem

  service_route :
      (class_name : String) (i : Incoming Service)
      → Concerns i svc
      → deliver (service_handlers kind (mci_watches client class_name)) i w ≡ (done tt, after)
  unfolding mci_watches service_updated
  service_route class_name (created s) c = changed_lem s c
  service_route class_name (deleted s) c = changed_lem s c
  service_route class_name (sent s) c = changed_lem s c
  service_route class_name (updated old new) (e, d) = elim (Bool-cases (same_service old new)) [
    | inl h ↦ absurd (d (same_service_lem old new h))
    | inr h ↦ rw h (rw e impacts_lem)
  ]

module _ {C P : Type 0} (client : Client C) (class_name : String) (m : MultiClusterIngress)
    (v : World C P) where
  mci_route :
      (check_ingress_class_matched client m class_name v).0 ≡ done true
      → (deliver (mci_handlers channel (mci_watches client class_name)) (sent m) v).1.log
        ≡ queued (key_of m) ∷ v.log
  unfolding mci_watches mci_created
  mci_route h =
      let kept =
        (check_ingress_class_matched-Keeps client (λ l. l ≡ v.log) m class_name).at v refl in
      rw h (ap (λ l. queued (key_of m) ∷ l) kept)

module _ {S C P : Type 0} (client : Client C) (sets : StringSets) (class_name : String)
    (mgr : Manager S C P) (managed : Managed S C P) where
  -- After setup, an event about a service, other than an update that changes nothing of its
  -- annotations, its spec and its mark of deletion, signals the listed ingresses one by one, and
  -- logs nothing else. If the API client answers by its index, these are exactly the cached
  -- ingresses of the namespace that refer to the service. The signal of an ingress of the provider's
  -- class puts it in the queue.
  pub service_reaches_ingresses :
      (svc : Service) (i : Incoming Service) (cache ms : List MultiClusterIngress) (w : World C P)
      → managed.watches ≡ []
      → (setup_with_manager client class_name mgr managed).0 ≡ done tt
      → Concerns i svc
      → (client.list_mcis_by_index svc.namespace index_key_service_ref_name svc.name w.api).0
        ≡ ok ms
      → Indexed sets cache svc.namespace svc.name ms
      → let watches = (setup_with_manager client class_name mgr managed).1.watches in
        ((deliver (service_handlers kind watches) i w).0 ≡ done tt)
        × ((deliver (service_handlers kind watches) i w).1.log ≡ signals ms w.log)
        × ((m : MultiClusterIngress)
            → In m ms ↔ (In m cache × (m.namespace ≡ svc.namespace) × RefersTo m svc.name))
        × ((m : MultiClusterIngress) (v : World C P)
            → (check_ingress_class_matched client m class_name v).0 ≡ done true
            → (deliver (mci_handlers channel watches) (sent m) v).1.log ≡ queued (key_of m) ∷ v.log)
  unfolding setup_with_manager
  service_reaches_ingresses svc i cache ms w e h c l x =
      rw (set_up_lem mgr controller_name (mci_watches client class_name) managed e h) (
        ap (λ r. r.0) (service_route client svc w ms l class_name i c),
        ap (λ r. r.1.log) (service_route client svc w ms l class_name i c),
        indexed_lem sets cache svc.namespace svc.name ms x,
        mci_route client class_name,
      )
