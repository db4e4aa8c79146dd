-- ===== src/ServiceLocations.antt =====
-- pkg/controllers/mciservicelocations/mci_service_locations.go: the status of an ingress says in
-- which clusters each of its services is.
pub mod Coverage
pub mod Located
pub mod Sync
use multicluster_cloud_provi.Prelude.{
  String, Bool, true, false, not, ◌||◌, ◌&&◌, Option, none, some, List, [], ◌∷◌, if◌then◌else◌,
  str_eq, Slice, push,
}
use multicluster_cloud_provi.Prelude.Equality.{◌==◌, list_eq, option_eq}
use multicluster_cloud_provi.Prelude.Texts.{sort_strings}
use multicluster_cloud_provi.Api.{
  NamespacedName, Error, is_not_found, Result, ok, err, MultiClusterIngress, ServiceLocation,
  ResourceBinding, location_eq,
}
use multicluster_cloud_provi.Platform.{
  ◌>>=◌, ◌>>◌, pure, throw, check, deref, M, read, logged, mci_got, mci_status_updated, Client,
}
use multicluster_cloud_provi.Platform.Runtime.{Runtime}
use multicluster_cloud_provi.Platform.StatusSync.{StatusWrite, sync}
use multicluster_cloud_provi.Indexes.{build_service_ref_indexes}
use multicluster_cloud_provi.Bindings.{obtain_binding_clusters}

abbrev pub with_locations : Slice ServiceLocation → MultiClusterIngress → MultiClusterIngress
with_locations locations mci =
    let status = mci.status in
    record mci { status = record status { service_locations = locations } }

-- The closure of Reconcile.
abbrev pub location_write :
    {C : Type 0}
    → Client C
    → NamespacedName
    → Slice ServiceLocation
    → StatusWrite C MultiClusterIngress
location_write client req locations = record {
  settled = λ m. locations == m.status.service_locations;
  assigned = with_locations locations;
  update = client.update_mci_status;
  updated = mci_status_updated;
  get = client.get_mci req;
  got = mci_got req;
}

abbrev pub binding_key : (String → String → String) → String → String → NamespacedName
binding_key generate_binding_name namespace name = record {
  namespace = namespace;
  name = generate_binding_name "Service" name;
}

-- `generate_binding_name` is names.GenerateBindingName, which takes the kind and the name.
module _ {C P : Type 0} (rt : Runtime C) (generate_binding_name : String → String → String) where
  -- What one turn of the loop does with the answer of Get: `svcLocations` after it.
  locate : String → Slice ServiceLocation → Result ResourceBinding → M C P (Slice ServiceLocation)
  locate name acc (ok binding) =
      pure (
        push acc
          (record { name = name; clusters = some (obtain_binding_clusters rt.sets binding) }))
  locate name acc (err e) = if is_not_found e then pure acc else throw e

  location_loop : String → Slice ServiceLocation → List String → M C P (Slice ServiceLocation)
  unfolding locate
  location_loop namespace acc [] = pure acc
  location_loop namespace acc (name ∷ names) = do
    got ← read (rt.client.get_binding (binding_key generate_binding_name namespace name))
    acc' ← locate name acc got
    location_loop namespace acc' names

  -- calculateServiceLocations. BuildServiceRefIndexes may panic.
  unfoldable pub calculate_service_locations : MultiClusterIngress → M C P (Slice ServiceLocation)
  unfolding location_loop
  calculate_service_locations mci = do
    names ← deref (build_service_ref_indexes rt.sets mci)
    location_loop mci.namespace none (sort_strings names)

  reconcile_mci : NamespacedName → MultiClusterIngress → M C P (Unit {0})
  unfolding calculate_service_locations
  reconcile_mci req mci = do
    locations ← calculate_service_locations mci
    sync (location_write rt.client req locations) rt.retry mci
    pure tt

  reconcile_got : NamespacedName → Result MultiClusterIngress → M C P (Unit {0})
  unfolding reconcile_mci
  reconcile_got req (ok mci) = reconcile_mci req mci
  reconcile_got req (err e) = if is_not_found e then pure tt else throw e

  -- Reconcile
  unfoldable pub reconcile : NamespacedName → M C P (Unit {0})
  unfolding reconcile_got
  reconcile req = do got ← logged (mci_got req) (rt.client.get_mci req); reconcile_got req got
