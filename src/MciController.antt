-- ===== src/MciController.antt =====
-- pkg/controllers/multiclusteringress/mci_controller.go: the reconciler of MultiClusterIngress.
-- A returned `controllerruntime.Result{}` is `tt`; a nil error is `done`.
pub mod Keeps
pub mod Order
pub mod Deletion
pub mod Provisioning
pub mod Finalizing
pub mod Balanced
pub mod Converges
use multicluster_cloud_provi.Prelude.{
  String, Bool, true, false, Option, none, some, List, [], ◌∷◌, if◌then◌else◌, not,
}
use multicluster_cloud_provi.Prelude.Equality.{◌==◌, string_eq, list_eq, option_eq}
use multicluster_cloud_provi.Api.{
  NamespacedName, Error, is_not_found, Result, ok, err, is_zero, MultiClusterIngress,
  LoadBalancerStatus, status_eq,
}
use multicluster_cloud_provi.Platform.{
  ◌>>=◌, ◌>>◌, pure, throw, check, deref, M, logged, ask, mci_got, mci_updated, mci_patched,
  mci_status_updated, lb_got, lb_ensured, lb_updated, lb_deleted, Client, LoadBalancer,
}
use multicluster_cloud_provi.Platform.Runtime.{Runtime}
use multicluster_cloud_provi.Platform.StatusSync.{StatusWrite, sync}
use multicluster_cloud_provi.TrafficBlock.{key_of, update_mci_traffic_block_clusters}

abbrev pub mci_controller_finalizer : String
mci_controller_finalizer = "karmada.io/multi-cluster-ingress-controller"

abbrev pub with_finalizers : List String → MultiClusterIngress → MultiClusterIngress
with_finalizers fs mci =
    let meta = mci.meta in record mci { meta = record meta { finalizers = fs } }

abbrev pub with_load_balancer : LoadBalancerStatus → MultiClusterIngress → MultiClusterIngress
with_load_balancer lb mci =
    let status = mci.status in record mci { status = record status { load_balancer = lb } }

-- The closure of updateMCIStatus, which writes each time.
abbrev pub load_balancer_write :
    {C : Type 0}
    → Client C
    → NamespacedName
    → LoadBalancerStatus
    → StatusWrite C MultiClusterIngress
load_balancer_write client key new_status = record {
  settled = λ _. false;
  assigned = with_load_balancer new_status;
  update = client.update_mci_status;
  updated = mci_status_updated;
  get = client.get_mci key;
  got = mci_got key;
}

module _ {C P : Type 0} (rt : Runtime C) (lb : LoadBalancer P) where
  -- `*newStatus` panics at a nil status. What the write leaves in the object is not used again.
  unfoldable pub update_mci_status :
      MultiClusterIngress → Option LoadBalancerStatus → M C P (Unit {0})
  update_mci_status mci new_status = do
    status ← deref new_status
    if mci.status.load_balancer == status
        then pure tt
        else do sync (load_balancer_write rt.client (key_of mci) status) rt.retry mci; pure tt

  unfoldable pub handle_mci_create : MultiClusterIngress → M C P (Unit {0})
  unfolding update_mci_status
  handle_mci_create mci = do
    answer ← ask (lb_ensured mci) (lb.ensure_load_balancer mci)
    status ← check answer
    update_mci_status mci status

  unfoldable pub handle_mci_update : MultiClusterIngress → M C P (Unit {0})
  unfolding update_mci_status
  handle_mci_update mci = do
    answer ← ask (lb_updated mci) (lb.update_load_balancer mci)
    status ← check answer
    update_mci_status mci status

  -- The patch sends a copy: the object itself stays without the finalizer.
  unfoldable pub ensure_finalizer : MultiClusterIngress → M C P (Unit {0})
  ensure_finalizer mci =
      if rt.finalizers.contains_finalizer mci.finalizers mci_controller_finalizer
      then pure tt
      else do
        let modified =
            with_finalizers (rt.finalizers.add mci.finalizers mci_controller_finalizer).0 mci
        answer ← logged (mci_patched modified) (rt.client.patch_mci modified mci)
        check answer
        pure tt

  -- The end of handleMCICreateOrUpdate, from GetLoadBalancer on.
  unfoldable pub create_or_update_load_balancer : MultiClusterIngress → M C P (Unit {0})
  unfolding handle_mci_create handle_mci_update
  create_or_update_load_balancer mci = do
    answer ← ask (lb_got mci) (lb.get_load_balancer mci)
    got ← check answer
    if got.1 then handle_mci_update mci else handle_mci_create mci

  unfoldable pub handle_mci_create_or_update : MultiClusterIngress → M C P (Unit {0})
  unfolding ensure_finalizer create_or_update_load_balancer
  handle_mci_create_or_update mci = do
    ensure_finalizer mci
    mci' ← update_mci_traffic_block_clusters rt mci
    create_or_update_load_balancer mci'

  unfoldable pub handle_mci_delete : MultiClusterIngress → M C P (Unit {0})
  handle_mci_delete mci = do
    deleted ← ask (lb_deleted mci) (lb.ensure_load_balancer_deleted mci)
    check deleted
    let (fs, updated) = rt.finalizers.remove mci.finalizers mci_controller_finalizer
    if updated
        then (do
          answer ←
              logged (mci_updated (with_finalizers fs mci))
                (rt.client.update_mci (with_finalizers fs mci))
          check answer
          pure tt)
        else pure tt

  reconcile_got : Result MultiClusterIngress → M C P (Unit {0})
  unfolding handle_mci_create_or_update handle_mci_delete
  reconcile_got (ok mci) =
      if is_zero mci.deletion_timestamp
      then handle_mci_create_or_update mci
      else handle_mci_delete mci
  reconcile_got (err e) = if is_not_found e then pure tt else throw e

  -- Reconcile
  unfoldable pub reconcile : NamespacedName → M C P (Unit {0})
  unfolding reconcile_got
  reconcile req = do got ← logged (mci_got req) (rt.client.get_mci req); reconcile_got got
