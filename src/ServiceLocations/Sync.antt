-- ===== src/ServiceLocations/Sync.antt =====
-- Whether the locations reach the API server.
use multicluster_cloud_provi.Prelude.{◌≡◌, refl, sym, ap, ◌∙◌, String, false, ◌∷◌, Slice}
use multicluster_cloud_provi.Prelude.Equality.{◌==◌, eq_of_equal, equal_refl, option_eq, list_eq}
use multicluster_cloud_provi.Api.{
  NamespacedName, Error, conflict, ok, err, MultiClusterIngress, ServiceLocation, location_eq,
}
use multicluster_cloud_provi.Platform.{
  done, Action, discarded-done, pure, continue, ◌>>=◌, World, M, mci_got, mci_status_updated,
}
use multicluster_cloud_provi.Platform.Runtime.{Runtime}
use multicluster_cloud_provi.Platform.StatusSync.{sync}
use multicluster_cloud_provi.Platform.StatusSync.Outcome.{sync-Synced}
use multicluster_cloud_provi.Platform.StatusSync.Attempt.{sync-lost}
use multicluster_cloud_provi.Platform.StatusSync.Saved.{Saved, Saved-Synced}
use multicluster_cloud_provi.ServiceLocations.Located.{calculate_service_locations_lem}
use multicluster_cloud_provi.ServiceLocations.{
  with_locations, location_write, calculate_service_locations, reconcile_mci, reconcile_got,
  reconcile,
}

discarded :
    {W A : Type 0} {a : A} (m : Action W A) (w : W)
    → (m w).0 ≡ done a
    → (((m >>= λ _. pure tt) w).0 ≡ done tt) × (((m >>= λ _. pure tt) w).1 ≡ (m w).1)
discarded m w h = (rw h refl, rw h refl)

module _ {C P : Type 0} (rt : Runtime C) (generate : String → String → String)
    (req : NamespacedName) (m : MultiClusterIngress) (w : World C P)
    (locations : Slice ServiceLocation) where
  abbrev found : World C P
  found = record w {
    log = mci_got req (rt.client.get_mci req w.api).0 ∷ w.log;
    api = (rt.client.get_mci req w.api).1;
  }

  module _ (g : (rt.client.get_mci req w.api).0 ≡ ok m)
      (calculated : (calculate_service_locations rt generate m found).0 ≡ done locations) where
    abbrev located : World C P
    located = (calculate_service_locations rt generate m found).1

    abbrev write : M C P MultiClusterIngress
    write = sync (location_write rt.client req locations) rt.retry m

    syncs : reconcile rt generate req w ≡ (write >>= λ _. pure tt) located
    unfolding reconcile reconcile_got reconcile_mci
    syncs =
        ap (λ r. reconcile_got rt generate req r found) g
        ∙ ap
            (λ r.
              continue r (λ l. sync (location_write rt.client req l) rt.retry m >>= λ _. pure tt)
                located)
            calculated

    unread : located.log ≡ mci_got req (ok m) ∷ w.log
    unread =
        let (names, i, k, s, same) =
          calculate_service_locations_lem rt generate m locations found calculated in
        same ∙ ap (λ r. mci_got req r ∷ w.log) g

    abbrev Holds : MultiClusterIngress → Type 0
    Holds x = x.status.service_locations ≡ locations

    abbrev change : MultiClusterIngress → MultiClusterIngress
    change x =
        let status = x.status in
        record x { status = record status { service_locations = locations } }

    -- When the reconciler has computed the locations of an ingress and returns no error, the status
    -- of the ingress has these locations and nothing is written; or the last call has stored this
    -- ingress, as it was first got or got again under the same key, with them and nothing else
    -- changed; or after a conflict the ingress that is got again has them; or after a conflict the
    -- refetch has failed.
    pub locations-Synced :
        (reconcile rt generate req w).0 ≡ done tt
        → Saved rt.client req Holds change m
            (mci_got req (ok m) ∷ w.log)
            (reconcile rt generate req w).1.log
    locations-Synced h =
        let ((o, finished), same) = discarded-done write located (ap (λ r. r.0) (sym syncs) ∙ h) in
        rw (ap (λ r. r.1.log) syncs ∙ ap (λ (x : World C P). x.log) same) (
          rw (← unread) (
            Saved-Synced rt.client req Holds change (λ x. locations == x.status.service_locations)
              (λ x e. sym (eq_of_equal locations x.status.service_locations e))
              (sync-Synced (location_write rt.client req locations) (λ x. refl) rt.retry m o located
                finished)))

    -- The locations are lost, with no error, when the first write of the status meets a conflict and
    -- the refetch fails: the retry compares them with the unsaved assignment.
    pub locations_lost :
        (e : Error)
        → (locations == m.status.service_locations) ≡ false
        → (rt.client.update_mci_status (with_locations locations m) located.api).0 ≡ err conflict
        → (rt.client.get_mci req
            (rt.client.update_mci_status (with_locations locations m) located.api).1).0
          ≡ err e
        → ((reconcile rt generate req w).0 ≡ done tt)
          × ((reconcile rt generate req w).1.log
              ≡ mci_got req (err e)
                ∷ mci_status_updated (with_locations locations m) (err conflict)
                ∷ mci_got req (ok m)
                ∷ w.log)
    locations_lost e n c k =
        let (exit, log) =
          sync-lost (location_write rt.client req locations) rt.retry m e located n
            (equal_refl locations) c k in
        let (done', same) = discarded write located exit in
        (
          ap (λ r. r.0) syncs ∙ done',
          ap (λ r. r.1.log) syncs
              ∙ ap (λ (x : World C P). x.log) same
              ∙ log
              ∙ ap
                  (λ l.
                    mci_got req (err e)
                    ∷ mci_status_updated (with_locations locations m) (err conflict)
                    ∷ l)
                  unread,
        )
