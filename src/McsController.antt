-- ===== src/McsController.antt =====
-- pkg/controllers/multiclusterservice/mcs_controller.go: the reconciler of MultiClusterService.
pub mod Keeps
pub mod Order
pub mod Deletion
pub mod Provisioning
pub mod Balanced
pub mod Leaks
use multicluster_cloud_provi.Prelude.{
  String, Bool, true, false, not, ◌||◌, Option, none, some, List, [], ◌∷◌, if◌then◌else◌,
}
use multicluster_cloud_provi.Prelude.Equality.{◌==◌}
use multicluster_cloud_provi.Api.{
  NamespacedName, Error, is_not_found, Result, ok, err, is_zero, MultiClusterService,
  LoadBalancerStatus, status_eq,
}
use multicluster_cloud_provi.Platform.{
  ◌>>=◌, ◌>>◌, pure, throw, check, M, logged, ask, warn, mcs_got, mcs_updated, mcs_status_updated,
  mcs_lb_got, mcs_lb_ensured, mcs_lb_updated, mcs_lb_deleted, Client, McsLoadBalancer,
}
use multicluster_cloud_provi.Platform.Runtime.{Runtime}
use multicluster_cloud_provi.Platform.StatusSync.{StatusWrite, sync}
use multicluster_cloud_provi.Util.{mcs_contain_load_balance_type}

abbrev pub mcs_controller_finalizer : String
mcs_controller_finalizer = "karmada.io/multi-cluster-service-controller"

abbrev pub key_of : MultiClusterService → NamespacedName
key_of mcs = record { namespace = mcs.namespace; name = mcs.name }

abbrev pub with_finalizers : List String → MultiClusterService → MultiClusterService
with_finalizers fs mcs =
    let meta = mcs.meta in record mcs { meta = record meta { finalizers = fs } }

-- The closure of updateMCSStatus, which writes each time.
abbrev pub load_balancer_write :
    {C : Type 0}
    → Client C
    → NamespacedName
    → LoadBalancerStatus
    → StatusWrite C MultiClusterService
load_balancer_write client key new_status = record {
  settled = λ _. false;
  assigned = λ mcs. record mcs { load_balancer = new_status };
  update = client.update_mcs_status;
  updated = mcs_status_updated;
  get = client.get_mcs key;
  got = mcs_got key;
}

module _ {C P : Type 0} (rt : Runtime C) (lb : McsLoadBalancer P) where
  -- A nil status is skipped.
  unfoldable pub update_mcs_status :
      MultiClusterService → Option LoadBalancerStatus → M C P (Unit {0})
  update_mcs_status mcs none = pure tt
  update_mcs_status mcs (some status) =
      if mcs.load_balancer == status
      then pure tt
      else do sync (load_balancer_write rt.client (key_of mcs) status) rt.retry mcs; pure tt

  unfoldable pub handle_mcs_create : MultiClusterService → M C P (Unit {0})
  unfolding update_mcs_status
  handle_mcs_create mcs = do
    answer ← ask (mcs_lb_ensured mcs) (lb.ensure_mcs_load_balancer mcs)
    status ← check answer
    update_mcs_status mcs status

  unfoldable pub handle_mcs_update : MultiClusterService → M C P (Unit {0})
  unfolding update_mcs_status
  handle_mcs_update mcs = do
    answer ← ask (mcs_lb_updated mcs) (lb.update_mcs_load_balancer mcs)
    status ← check answer
    update_mcs_status mcs status

  -- The end of handleMCSCreateOrUpdate, from GetMCSLoadBalancer on.
  unfoldable pub create_or_update_load_balancer : MultiClusterService → M C P (Unit {0})
  unfolding handle_mcs_create handle_mcs_update
  create_or_update_load_balancer mcs = do
    answer ← ask (mcs_lb_got mcs) (lb.get_mcs_load_balancer mcs)
    got ← check answer
    if got.1 then handle_mcs_update mcs else handle_mcs_create mcs

  -- An update stores its answer into the object, which goes on with it.
  unfoldable pub ensure_finalizer : MultiClusterService → M C P MultiClusterService
  ensure_finalizer mcs =
      let (fs, updated) = rt.finalizers.add mcs.finalizers mcs_controller_finalizer in
      let modified = with_finalizers fs mcs in
      if updated
      then (do answer ← logged (mcs_updated modified) (rt.client.update_mcs modified); check answer)
      else pure modified

  unfoldable pub handle_mcs_create_or_update : MultiClusterService → M C P (Unit {0})
  unfolding ensure_finalizer create_or_update_load_balancer
  handle_mcs_create_or_update mcs = do
    mcs' ← ensure_finalizer mcs
    create_or_update_load_balancer mcs'

  -- A failure of the provider is also recorded as an event.
  unfoldable pub report : {A : Type 0} → String → Result A → M C P A
  report text (ok a) = pure a
  report text (err e) = do warn text; throw e

  unfoldable pub ensure_deleted : MultiClusterService → M C P (Unit {0})
  unfolding report
  ensure_deleted mcs = do
    deleted ← ask (mcs_lb_deleted mcs) (lb.ensure_mcs_load_balancer_deleted mcs)
    report "Failed to delete MultiClusterService" deleted

  unfoldable pub remove_finalizer : MultiClusterService → M C P (Unit {0})
  remove_finalizer mcs =
      let (fs, updated) = rt.finalizers.remove mcs.finalizers mcs_controller_finalizer in
      if updated
      then (do
        answer ←
            logged (mcs_updated (with_finalizers fs mcs))
              (rt.client.update_mcs (with_finalizers fs mcs))
        check answer
        pure tt)
      else pure tt

  -- Where both branches of handleMCSDelete end that delete the load balancer.
  unfoldable pub delete_load_balancer : MultiClusterService → M C P (Unit {0})
  unfolding ensure_deleted remove_finalizer
  delete_load_balancer mcs = do ensure_deleted mcs; remove_finalizer mcs

  unfoldable pub handle_mcs_delete : MultiClusterService → M C P (Unit {0})
  unfolding delete_load_balancer
  handle_mcs_delete mcs = if mcs_contain_load_balance_type mcs then delete_load_balancer mcs else do
    answer ← ask (mcs_lb_got mcs) (lb.get_mcs_load_balancer mcs)
    got ← report "Failed to get MultiClusterService" answer
    if got.1 then delete_load_balancer mcs else pure tt

  unfoldable pub reconcile_got : Result MultiClusterService → M C P (Unit {0})
  unfolding handle_mcs_create_or_update handle_mcs_delete
  reconcile_got (ok mcs) =
      if not (is_zero mcs.deletion_timestamp) || not (mcs_contain_load_balance_type mcs)
      then handle_mcs_delete mcs
      else handle_mcs_create_or_update mcs
  reconcile_got (err e) = if is_not_found e then pure tt else throw e

  -- Reconcile
  unfoldable pub reconcile : NamespacedName → M C P (Unit {0})
  unfolding reconcile_got
  reconcile req = do got ← logged (mcs_got req) (rt.client.get_mcs req); reconcile_got got
