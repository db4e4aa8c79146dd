-- ===== src/Platform/StatusSync/Saved.antt =====
-- Whether the list that a reconciler has computed for the status of an ingress reaches the API server.
use multicluster_cloud_provi.Prelude.{◌≡◌, Bool, true, List, ◌∷◌}
use multicluster_cloud_provi.Api.{NamespacedName, Error, conflict, ok, err, MultiClusterIngress}
use multicluster_cloud_provi.Platform.Components.{Event, Client, mci_got, mci_status_updated}
use multicluster_cloud_provi.Platform.StatusSync.{StatusWrite}
use multicluster_cloud_provi.Platform.StatusSync.Outcome.{
  Provenance, Synced, unchanged, written, superseded, lost,
}

module _ {C : Type 0} (client : Client C) (key : NamespacedName)
    (Holds : MultiClusterIngress → Type 0)
    (change : MultiClusterIngress → MultiClusterIngress) where
  -- How the status of this ingress came to hold the list, or why it does not.
  pub data Saved (m : MultiClusterIngress) (before after : List Event) : Type 0 where
    -- the status holds it, and nothing is written
    held : Holds m → after ≡ before → Saved m before after
    -- the last call has stored the ingress, as it was given or got under its key, with the list
    stored :
        (x y : MultiClusterIngress) (c : C) (l : List Event)
        → Provenance (client.get_mci key) (mci_got key) m x l
        → (client.update_mci_status (change x) c).0 ≡ ok y
        → after ≡ mci_status_updated (change x) (ok y) ∷ l
        → Saved m before after
    -- after a conflict the ingress that is got under its key holds the list
    overtaken :
        (x y : MultiClusterIngress) (c : C) (l : List Event)
        → Provenance (client.get_mci key) (mci_got key) m x l
        → (client.get_mci key c).0 ≡ ok y
        → Holds y
        → after ≡ mci_got key (ok y) ∷ mci_status_updated (change x) (err conflict) ∷ l
        → Saved m before after
    -- after a conflict the refetch has failed
    unsaved :
        (x : MultiClusterIngress) (e : Error) (l : List Event)
        → Provenance (client.get_mci key) (mci_got key) m x l
        → after ≡ mci_got key (err e) ∷ mci_status_updated (change x) (err conflict) ∷ l
        → Saved m before after

  -- The closure whose test finds the list, and that assigns it.
  abbrev pub writing : (settled : MultiClusterIngress → Bool) → StatusWrite C MultiClusterIngress
  writing settled = record {
    settled = settled;
    assigned = change;
    update = client.update_mci_status;
    updated = mci_status_updated;
    get = client.get_mci key;
    got = mci_got key;
  }

  pub Saved-Synced :
      (settled : MultiClusterIngress → Bool)
      → ((x : MultiClusterIngress) → settled x ≡ true → Holds x)
      → {m : MultiClusterIngress} {before after : List Event}
      → Synced (writing settled) m before after
      → Saved m before after
  Saved-Synced settled holds (unchanged e p) = held (holds _ e) p
  Saved-Synced settled holds (written x y c l o u p) = stored x y c l o u p
  Saved-Synced settled holds (superseded x y c l o g e p) = overtaken x y c l o g (holds y e) p
  Saved-Synced settled holds (lost x e l o q p) = unsaved x e l o p
