-- ===== src/McsWatch/Routes.antt =====
-- How an event travels through the channels between the handlers, up to the queue.
use Prim.Native.String.{◌++◌ as str_append, len, slice}
use text.Mathlib.Text.{starts_with}
use text.Mathlib.TextPositions.{len-append, slice-append_right, starts_with-append}
use multicluster_cloud_provi.Prelude.{
  ◌≡◌, refl, ap, ◌∙◌, ◌⊎◌, inl, inr, String, false, Option, none, some, [], ◌∷◌,
}
use multicluster_cloud_provi.Api.{NamespacedName, lookup, MultiClusterService, EndpointSlice}
use multicluster_cloud_provi.Platform.{
  done, World, Event, queued, mcs_signalled, service_signalled, pure, ◌>>◌,
}
use multicluster_cloud_provi.Platform.Watching.{
  Incoming, created, deleted, sent, updated, kind, channel, deliver, slice_handlers,
  service_handlers, mcs_handlers, Manager, Managed, set_up_lem,
}
use multicluster_cloud_provi.IngressWatch.{label_service_name, trim_prefix, service_named}
use multicluster_cloud_provi.McsController.{key_of}
use multicluster_cloud_provi.McsWatch.{
  derived_service_prefix, mcs_named, mcs_watches, mcs_generic, service_changed,
  enqueue_impacted_svc, setup_with_manager, controller_name,
}

-- The label of a slice names the service, or the service that is derived from it.
abbrev pub Names : String → String → Type 0
Names label name =
    (label ≡ str_append derived_service_prefix name)
    ⊎ ((label ≡ name) × (starts_with name derived_service_prefix ≡ false))

trim_prefix-append : (p s : String) → trim_prefix (str_append p s) p ≡ s
trim_prefix-append p s =
    rw (starts_with-append p s)
      (ap (λ n. slice (str_append p s) (len p) n) (len-append p s) ∙ slice-append_right p s)

trim_lem :
    (label name : String) → Names label name → trim_prefix label derived_service_prefix ≡ name
trim_lem label name (inl e) = rw e (trim_prefix-append derived_service_prefix name)
trim_lem label name (inr (e, n)) = rw (e, n) refl

-- The slice that a handler of slices acts on; it ignores generic events.
abbrev concerned : Incoming EndpointSlice → Option EndpointSlice
concerned (created s) = some s
concerned (deleted s) = some s
concerned (updated old new) = some new
concerned (sent s) = none

module _ {C P : Type 0} (w : World C P) where
  -- The world after one more entry of the log.
  abbrev with_entry : Event → World C P
  with_entry e = record w { log = e ∷ w.log }

  slice_signals :
      (eps : EndpointSlice) (label name : String)
      → lookup label_service_name eps.labels ≡ some label
      → Names label name
      → (enqueue_impacted_svc eps >> pure tt) w
        ≡ (done tt, with_entry (service_signalled (service_named eps.namespace name)))
  unfolding enqueue_impacted_svc
  slice_signals eps label name l n = rw (enqueue_impacted_svc, l, trim_lem label name n) refl

  slice_route :
      (i : Incoming EndpointSlice) (eps : EndpointSlice) (label name : String)
      → concerned i ≡ some eps
      → lookup label_service_name eps.labels ≡ some label
      → Names label name
      → deliver (slice_handlers kind mcs_watches) i w
        ≡ (done tt, with_entry (service_signalled (service_named eps.namespace name)))
  unfolding mcs_watches
  slice_route (created s) eps label name c l n =
      let same : eps ≡ s = cc in rw same (slice_signals s label name (rw same at l) n)
  slice_route (deleted s) eps label name c l n =
      let same : eps ≡ s = cc in rw same (slice_signals s label name (rw same at l) n)
  slice_route (updated old s) eps label name c l n =
      let same : eps ≡ s = cc in rw same (slice_signals s label name (rw same at l) n)
  slice_route (sent s) eps label name c l n = absurd (cc)

  service_route :
      (namespace name : String)
      → deliver (service_handlers channel mcs_watches) (sent (service_named namespace name)) w
        ≡ (done tt, with_entry (mcs_signalled (mcs_named namespace name)))
  unfolding mcs_watches service_changed
  service_route namespace name = refl

  mcs_route :
      (mcs : MultiClusterService)
      → deliver (mcs_handlers channel mcs_watches) (sent mcs) w
        ≡ (done tt, with_entry (queued (key_of mcs)))
  unfolding mcs_watches mcs_generic
  mcs_route mcs = refl

module _ {S C P : Type 0} (mgr : Manager S C P) (m : Managed S C P) where
  -- After setup, each source of the controller leads to the queue: an event about an endpoint slice
  -- that is labelled with the name of a service, or with the name of the service derived from it,
  -- signals that service; the signal of a service signals the MultiClusterService of its name; and
  -- that signal puts this name, in the namespace of the slice, in the queue. Each step adds just
  -- that one entry.
  pub slice_reaches_queue :
      (i : Incoming EndpointSlice) (eps : EndpointSlice) (label name : String) (u v w : World C P)
      → m.watches ≡ []
      → (setup_with_manager mgr m).0 ≡ done tt
      → concerned i ≡ some eps
      → lookup label_service_name eps.labels ≡ some label
      → Names label name
      → let watches = (setup_with_manager mgr m).1.watches in
        let svc = service_named eps.namespace name in
        let mcs = mcs_named eps.namespace name in
        let key : NamespacedName = record { namespace = eps.namespace; name = name } in
        (deliver (slice_handlers kind watches) i u
          ≡ (done tt, with_entry u (service_signalled svc)))
        × (deliver (service_handlers channel watches) (sent svc) v
            ≡ (done tt, with_entry v (mcs_signalled mcs)))
        × (deliver (mcs_handlers channel watches) (sent mcs) w
            ≡ (done tt, with_entry w (queued key)))
  unfolding setup_with_manager
  slice_reaches_queue i eps label name u v w e h c l n =
      rw (set_up_lem mgr controller_name mcs_watches m e h) (
        slice_route u i eps label name c l n,
        service_route v eps.namespace name,
        mcs_route w (mcs_named eps.namespace name),
      )
