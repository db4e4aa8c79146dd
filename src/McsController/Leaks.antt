-- ===== src/McsController/Leaks.antt =====
-- The finalizer of a service that is no load balancer any more may stay behind for good.
use multicluster_cloud_provi.Prelude.{
  ◌≡◌, ◌≢◌, ◌⊎◌, inl, inr, sym, ap, ◌∙◌, false, Option, List, ◌∷◌, arith,
}
use multicluster_cloud_provi.Api.{
  NamespacedName, Error, ok, err, MultiClusterService, LoadBalancerStatus, Result-cases,
}
use multicluster_cloud_provi.Platform.{World, Event, mcs_got, mcs_lb_got, warned, McsLoadBalancer}
use multicluster_cloud_provi.Platform.Runtime.{Runtime}
use multicluster_cloud_provi.Util.{mcs_contain_load_balance_type}
use multicluster_cloud_provi.McsController.{report, handle_mcs_delete, reconcile_got, reconcile}
use multicluster_cloud_provi.McsController.Balanced.{Contract, Names, others_kept}

-- What a run has added to the log: it has got the service and asked the provider for the load
-- balancer, and has warned if the provider did not answer.
abbrev pub OnlyReads : NamespacedName → MultiClusterService → List Event → List Event → Type 0
OnlyReads req m before after =
    ((st : Option LoadBalancerStatus) × (after
        ≡ mcs_lb_got m (ok (st, false)) ∷ mcs_got req (ok m) ∷ before))
    ⊎ ((e : Error) × (after
          ≡ warned "Failed to get MultiClusterService"
            ∷ mcs_lb_got m (err e)
            ∷ mcs_got req (ok m)
            ∷ before))

module _ {C P : Type 0} (rt : Runtime C) (lb : McsLoadBalancer P) (c : Contract lb)
    (names : Names rt.client) (req : NamespacedName) where
  module _ (w : World C P) (m : MultiClusterService) (g : (rt.client.get_mcs req w.api).0 ≡ ok m)
      (n : mcs_contain_load_balance_type m ≡ false) where
    abbrev run : World C P
    run = (reconcile rt lb req w).1

    -- What a run has done that only reads.
    abbrev Reads : Type 0
    Reads =
        OnlyReads req m w.log run.log
        × (run.api ≡ (rt.client.get_mcs req w.api).1)
        × (run.provider ≡ (lb.get_mcs_load_balancer m w.provider).1)

    absent :
        (st : Option LoadBalancerStatus)
        → (lb.get_mcs_load_balancer m w.provider).0 ≡ ok (st, false)
        → Reads
    unfolding reconcile reconcile_got handle_mcs_delete report
    absent st h = (inl (st, ground arith), ground arith, ground arith)

    unanswered : (e : Error) → (lb.get_mcs_load_balancer m w.provider).0 ≡ err e → Reads
    unfolding reconcile reconcile_got handle_mcs_delete report
    unanswered e h = (inr (e, ground arith), ground arith, ground arith)

    reads : c.exists w.provider (c.identify req) ≡ false → Reads
    reads none_left = elim (Result-cases (lb.get_mcs_load_balancer m w.provider).0) [
      | inr (e, h) ↦ unanswered e h
      | inl ((st, b), h) ↦
          let there = c.got m w.provider st b h in
          let named = names.got req w.api m g in
          let gone : b ≡ false =
            sym there ∙ ap (λ k. c.exists w.provider (c.identify k)) named ∙ none_left in
          absent st (h ∙ ap (λ b. ok (st, b)) gone)
    ]

  -- The worlds that are reached by runs for this service that get it with another type, by runs for
  -- other services, and by whatever else happens to the API server and the log.
  pub data Retyped (v : World C P) : World C P → Type 0 where
    stay : Retyped v v
    passed : {w x : World C P} → Retyped v w → x.provider ≡ w.provider → Retyped v x
    ran :
        {w : World C P} (other : NamespacedName)
        → Retyped v w
        → c.identify req ≢ c.identify other
        → Retyped v (reconcile rt lb other w).1
    again :
        {w : World C P} (m : MultiClusterService)
        → Retyped v w
        → (rt.client.get_mcs req w.api).0 ≡ ok m
        → mcs_contain_load_balance_type m ≡ false
        → Retyped v (reconcile rt lb req w).1

  none_left :
      (v w : World C P)
      → c.exists v.provider (c.identify req) ≡ false
      → Retyped v w
      → c.exists w.provider (c.identify req) ≡ false
  none_left v w h stay = h
  none_left v x h (passed {w} r same) =
      ap (λ p. c.exists p (c.identify req)) same ∙ none_left v w h r
  none_left v x h (ran {w} other r n) =
      others_kept rt lb c names other w (c.identify req) n ∙ none_left v w h r
  none_left v x h (again {w} m r g n) =
      let before = none_left v w h r in
      let (log, api, p) = reads w m g n before in
      ap (λ p. c.exists p (c.identify req)) p ∙ c.get_keeps m w.provider (c.identify req) ∙ before

  -- With a provider that keeps the contract and an API server that keeps names: once the provider has
  -- no load balancer for a service, and as long as each run for it gets it with another type than
  -- that of the load balancer, every further run for it only reads. It writes nothing to the API
  -- server, so that a finalizer in the service stays in it, also if it is marked for deletion;
  -- whatever happens in between at the API server, and to other services.
  pub finalizer_stays :
      (v w : World C P) (m : MultiClusterService)
      → c.exists v.provider (c.identify req) ≡ false
      → Retyped v w
      → (rt.client.get_mcs req w.api).0 ≡ ok m
      → mcs_contain_load_balance_type m ≡ false
      → OnlyReads req m w.log (reconcile rt lb req w).1.log
        × ((reconcile rt lb req w).1.api ≡ (rt.client.get_mcs req w.api).1)
  finalizer_stays v w m h r g n =
      let (log, api, p) = reads w m g n (none_left v w h r) in (log, api)
