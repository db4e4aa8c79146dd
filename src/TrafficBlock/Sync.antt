-- ===== src/TrafficBlock/Sync.antt =====
-- Whether the traffic block list reaches the API server.
use multicluster_cloud_provi.Prelude.{◌≡◌, refl, sym, String, false, List, ◌∷◌, Slice}
use multicluster_cloud_provi.Prelude.Equality.{
  ◌==◌, eq_of_equal, equal_refl, option_eq, list_eq, string_eq,
}
use multicluster_cloud_provi.Api.{Error, conflict, ok, err, MultiClusterIngress, Cluster}
use multicluster_cloud_provi.Platform.{done, World, mci_got, mci_status_updated}
use multicluster_cloud_provi.Platform.Runtime.{Runtime}
use multicluster_cloud_provi.Platform.StatusSync.{StatusWrite, sync}
use multicluster_cloud_provi.Platform.StatusSync.Outcome.{sync-Synced}
use multicluster_cloud_provi.Platform.StatusSync.Attempt.{sync-lost}
use multicluster_cloud_provi.Platform.StatusSync.Saved.{Saved, Saved-Synced}
use multicluster_cloud_provi.TrafficBlock.{
  key_of, traffic_block_clusters, with_blocked, blocked_write, update_mci_traffic_block_clusters,
}

module _ {C P : Type 0} (rt : Runtime C) (m : MultiClusterIngress) (cs : List Cluster)
    (w : World C P) (listed : (rt.client.list_clusters w.api).0 ≡ ok cs) where
  abbrev blocked : Slice String
  blocked = traffic_block_clusters rt.sets m cs

  abbrev blocked_sync : StatusWrite C MultiClusterIngress
  blocked_sync = blocked_write rt.client (key_of m) blocked

  abbrev after_list : World C P
  after_list = record w { api = (rt.client.list_clusters w.api).1 }

  traffic_lem : update_mci_traffic_block_clusters rt m w ≡ sync blocked_sync rt.retry m after_list
  unfolding update_mci_traffic_block_clusters
  traffic_lem = rw listed

  abbrev Holds : MultiClusterIngress → Type 0
  Holds x = x.status.traffic_block_clusters ≡ blocked

  abbrev change : MultiClusterIngress → MultiClusterIngress
  change x =
      let status = x.status in
      record x { status = record status { traffic_block_clusters = blocked } }

  -- When the update of the traffic block list returns no error, the status of the ingress is the list
  -- that is computed from the clusters and nothing is written; or the last call has stored this
  -- ingress, as it was given or got again under its key, with that list and nothing else changed; or
  -- after a conflict the ingress that is got again has that list; or after a conflict the refetch
  -- has failed.
  pub traffic-Synced :
      (m' : MultiClusterIngress)
      → (update_mci_traffic_block_clusters rt m w).0 ≡ done m'
      → Saved rt.client
          (key_of m)
          Holds
          change
          m
          w.log
          (update_mci_traffic_block_clusters rt m w).1.log
  traffic-Synced m' h = rw traffic_lem (
      Saved-Synced rt.client (key_of m) Holds change (blocked_sync.settled)
        (λ x e. sym (eq_of_equal blocked x.status.traffic_block_clusters e))
        (sync-Synced blocked_sync (λ x. refl) rt.retry m m' after_list (rw traffic_lem at h)))

  -- The update of the traffic block list is lost, with no error, when its first write meets a
  -- conflict and the refetch fails: the retry compares the list with the unsaved assignment.
  pub traffic_lost :
      (e : Error)
      → (blocked == m.status.traffic_block_clusters) ≡ false
      → (rt.client.update_mci_status (with_blocked blocked m) after_list.api).0 ≡ err conflict
      → (rt.client.get_mci
          (key_of m)
          (rt.client.update_mci_status (with_blocked blocked m) after_list.api).1).0
        ≡ err e
      → let r = update_mci_traffic_block_clusters rt m w in
        (r.0 ≡ done (with_blocked blocked m))
        × (r.1.log
            ≡ mci_got (key_of m) (err e)
              ∷ mci_status_updated (with_blocked blocked m) (err conflict)
              ∷ w.log)
  traffic_lost e n c g =
      rw traffic_lem (sync-lost blocked_sync rt.retry m e after_list n (equal_refl blocked) c g)
