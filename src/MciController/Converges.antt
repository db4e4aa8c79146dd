-- ===== src/MciController/Converges.antt =====
-- Many runs, between which the API server moves on: the load balancer of an ingress is settled by
-- the last run for it that returned no error.
use multicluster_cloud_provi.Prelude.{◌≡◌, ◌≢◌, refl, ap, ◌∙◌}
use multicluster_cloud_provi.Api.{NamespacedName, ok, is_zero, MultiClusterIngress}
use multicluster_cloud_provi.Platform.{done, World, LoadBalancer}
use multicluster_cloud_provi.Platform.Runtime.{Runtime}
use multicluster_cloud_provi.MciController.{reconcile}
use multicluster_cloud_provi.MciController.Balanced.{
  Contract, Names, others_kept, reconcile_settles,
}

module _ {C P : Type 0} (rt : Runtime C) (lb : LoadBalancer P) (c : Contract lb)
    (req : NamespacedName) where
  -- The worlds that are reached without a run for the request: by runs for other ingresses, and by
  -- whatever else happens to the API server and the log.
  pub data Elsewhere (v : World C P) : World C P → Type 0 where
    stay : Elsewhere v v
    passed : {w x : World C P} → Elsewhere v w → x.provider ≡ w.provider → Elsewhere v x
    ran :
        {w : World C P} (other : NamespacedName)
        → Elsewhere v w
        → c.identify req ≢ c.identify other
        → Elsewhere v (reconcile rt lb other w).1

  module _ (names : Names rt.client) where
    untouched :
        (v w : World C P)
        → Elsewhere v w
        → c.exists w.provider (c.identify req) ≡ c.exists v.provider (c.identify req)
    untouched v w stay = refl
    untouched v x (passed {w} e same) = ap (λ p. c.exists p (c.identify req)) same ∙ untouched v w e
    untouched v x (ran {w} other e n) =
        others_kept rt lb c names other w (c.identify req) n ∙ untouched v w e

    -- With a provider that keeps the contract and an API server that keeps names: after a run that
    -- got the ingress and returned no error, and then any number of runs for other ingresses and of
    -- changes at the API server, the ingress has a load balancer exactly if it was live.
    pub settled_stays :
        (w v : World C P) (m : MultiClusterIngress)
        → (rt.client.get_mci req w.api).0 ≡ ok m
        → (reconcile rt lb req w).0 ≡ done tt
        → Elsewhere (reconcile rt lb req w).1 v
        → c.exists v.provider (c.identify req) ≡ is_zero m.deletion_timestamp
    settled_stays w v m g d e =
        untouched (reconcile rt lb req w).1 v e ∙ (reconcile_settles rt lb c names req w m g).1 d
