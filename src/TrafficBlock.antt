-- ===== src/TrafficBlock.antt =====
-- pkg/controllers/multiclusteringress/mci_controller.go, updateMCITrafficBlockClusters: the
-- clusters that serve an ingress and are under traffic control go to its status.
pub mod Blocked
pub mod Sync
use multicluster_cloud_provi.Prelude.{
  String, Bool, true, false, ◌&&◌, Option, none, some, List, [], ◌∷◌, if◌then◌else◌, str_eq, Slice,
  items, push, any,
}
use multicluster_cloud_provi.Prelude.Equality.{◌==◌, DeepEqual, string_eq, list_eq, option_eq}
use multicluster_cloud_provi.Prelude.Texts.{sort_strings}
use multicluster_cloud_provi.Api.{
  NamespacedName, Error, Result, ok, err, MultiClusterIngress, ServiceLocation, Cluster,
}
use multicluster_cloud_provi.Platform.{
  Action, ◌>>=◌, ◌>>◌, pure, throw, check, M, read, mci_got, mci_status_updated, Client,
}
use multicluster_cloud_provi.Platform.Helpers.{StringSets, insert_all}
use multicluster_cloud_provi.Platform.Runtime.{Runtime}
use multicluster_cloud_provi.Platform.StatusSync.{StatusWrite, sync}

abbrev pub traffic_control : String
traffic_control = "TrafficControl"

-- The loop over the remedy actions, which `break`s at the first that fits.
unfoldable pub has_traffic_control : List String → Bool
has_traffic_control [] = false
has_traffic_control (a ∷ as') =
    let rest = has_traffic_control as' in if str_eq a traffic_control then true else rest

-- sort.Strings leaves a nil slice nil.
abbrev pub sort_slice : Slice String → Slice String
sort_slice none = none
sort_slice (some xs) = some (sort_strings xs)

abbrev pub key_of : MultiClusterIngress → NamespacedName
key_of mci = record { namespace = mci.namespace; name = mci.name }

module _ (sets : StringSets) where
  unfoldable pub located_clusters : sets.StringSet → List ServiceLocation → sets.StringSet
  located_clusters s [] = s
  located_clusters s (l ∷ ls) = located_clusters (insert_all sets s (items l.clusters)) ls

  unfoldable pub block_loop : sets.StringSet → Slice String → List Cluster → Slice String
  unfolding has_traffic_control
  block_loop located acc [] = acc
  block_loop located acc (c ∷ cs) =
      block_loop located
        (if sets.has located c.name && has_traffic_control c.remedy_actions
          then push acc c.name
          else acc)
        cs

  unfoldable pub traffic_block_clusters : MultiClusterIngress → List Cluster → Slice String
  unfolding located_clusters block_loop
  traffic_block_clusters mci clusters =
      sort_slice
        (block_loop (located_clusters sets.new (items mci.status.service_locations)) none clusters)

abbrev pub with_blocked : Slice String → MultiClusterIngress → MultiClusterIngress
with_blocked blocked mci =
    let status = mci.status in
    record mci { status = record status { traffic_block_clusters = blocked } }

-- The closure: it skips the write if the status holds the clusters already.
abbrev pub blocked_write :
    {C : Type 0} → Client C → NamespacedName → Slice String → StatusWrite C MultiClusterIngress
blocked_write client key blocked = record {
  settled = λ m. blocked == m.status.traffic_block_clusters;
  assigned = with_blocked blocked;
  update = client.update_mci_status;
  updated = mci_status_updated;
  get = client.get_mci key;
  got = mci_got key;
}

-- The caller goes on with its own object, as the closure leaves it.
unfoldable pub update_mci_traffic_block_clusters :
    {C P : Type 0} → Runtime C → MultiClusterIngress → M C P MultiClusterIngress
update_mci_traffic_block_clusters rt mci = do
  listed ← read rt.client.list_clusters
  clusters ← check listed
  let blocked = traffic_block_clusters rt.sets mci clusters
  sync (blocked_write rt.client (key_of mci) blocked) rt.retry mci
