-- ===== src/Process/Controllers/Supported.antt =====
-- The five controllers, and what their start asks of the provider.
use Prim.Native.String.{◌++◌ as str_append}
use text.Mathlib.Text.{starts_with}
use text.Mathlib.TextPositions.{starts_with-append}
use multicluster_cloud_provi.Prelude.{
  ◌≡◌, refl, ap, inl, inr, String, Bool, true, false, Option, none, some, List, [], In, contains,
  str_eq, eq_iff, Bool-cases,
}
use multicluster_cloud_provi.Platform.{
  Action, done, pure, check, bind-done, LoadBalancer, McsLoadBalancer, ◌>>=◌,
}
use multicluster_cloud_provi.Api.{Result, ok, err}
use multicluster_cloud_provi.Startup.{names_of}
use multicluster_cloud_provi.Startup.Started.{Completes}
use multicluster_cloud_provi.Process.Controllers.{
  Context, controllers, obtain, on_manager, crd_installation, mci_service_locations,
  start_mci_controller, start_mcs_controller, start_crd_installation_controller,
  start_service_export_propagation_controller, start_mci_service_locations_controller,
}
use multicluster_cloud_provi.Platform.Watching.{Watch, set_up, Accepts, Accepts-set_up}
use multicluster_cloud_provi.IngressWatch.Setup as IngressSetup
use multicluster_cloud_provi.IngressWatch.Setup.{mci_watches}
use multicluster_cloud_provi.McsWatch
use multicluster_cloud_provi.McsWatch.{mcs_watches}
use multicluster_cloud_provi.ExportWatch.Setup as ExportSetup
use multicluster_cloud_provi.ExportWatch.Setup.{export_watches}

module _ {S : Type 0} where
  obtained :
      {A B : Type 0} (x : Option A × Bool) (k : A → Action S B) (b : B) (s : S)
      → ((obtain x >>= k) s).0 ≡ done b
      → (a : A) × (x ≡ (some a, true)) × ((k a s).0 ≡ done b)
  unfolding obtain
  obtained (o, false) k b s h = absurd (cc)
  obtained (none, true) k b s h = absurd (cc)
  obtained (some a, true) k b s h = (a, refl, h)

  completed :
      (r : Result (Unit {0})) (b : Bool) (s : S)
      → ((check r >>= λ _. pure true) s).0 ≡ done b
      → r ≡ ok tt
  completed (ok u) b s h = refl
  completed (err e) b s h = absurd (cc)

undashed : (t name : String) → starts_with t "-" ≡ false → str_eq t (str_append "-" name) ≡ false
undashed t name h = elim (Bool-cases (str_eq t (str_append "-" name))) [
  | inl e ↦
      let same = (eq_iff t (str_append "-" name)).0 e in
      absurd (cc (starts_with-append "-" name, ap (λ u. starts_with u "-") same))
  | inr n ↦ n
]

module _ {S C P : Type 0} (ctx : Context S C P) where
  pub no_dashes :
      (name : String)
      → contains (names_of (controllers ctx)) name ≡ true
      → contains (names_of (controllers ctx)) (str_append "-" name) ≡ false
  unfolding names_of controllers
  no_dashes name h =
      rw
        (
          undashed "multiclusteringress" name refl,
          undashed "multiclusterservice" name refl,
          undashed "crd-installation" name refl,
          undashed "serviceexport-propagation" name refl,
          undashed "mci-service-locations" name refl,
        )
        refl

  pub entries :
      In ("multiclusteringress", start_mci_controller ctx) (controllers ctx)
      × In ("multiclusterservice", start_mcs_controller ctx) (controllers ctx)
      × In ("crd-installation", start_crd_installation_controller ctx) (controllers ctx)
      × In
          ("serviceexport-propagation", start_service_export_propagation_controller ctx)
          (controllers ctx)
      × In ("mci-service-locations", start_mci_service_locations_controller ctx) (controllers ctx)
  unfolding controllers
  entries = (
    inl refl,
    inr (inl refl),
    inr (inr (inl refl)),
    inr (inr (inr (inl refl))),
    inr (inr (inr (inr (inl refl)))),
  )

  set_up_returns :
      (name : String) (ws : List (Watch C P)) (b : Bool) (s : S)
      → ((on_manager (set_up ctx.mgr name ws) >>= λ _. pure true) s).0 ≡ done b
      → Accepts ctx.mgr name ws s
  unfolding on_manager
  set_up_returns name ws b s h =
      let (u, same, d) = bind-done (on_manager (set_up ctx.mgr name ws)) (λ _. pure true) b s h in
      Accepts-set_up ctx.mgr name ws (record { state = s; watches = [] }) d

  -- The provider gives a balancer that is not nil, and the manager accepts the controller of the
  -- ingresses with all its watches.
  abbrev pub IngressStart : S → Type 0
  IngressStart s =
      ((b : LoadBalancer P) × (ctx.cloud_provider.load_balancer ≡ (some b, true)))
      × Accepts ctx.mgr "multiclusteringress-controller"
          (mci_watches ctx.client ctx.provider_class_name) s

  abbrev pub McsStart : S → Type 0
  McsStart s =
      ((b : McsLoadBalancer P) × (ctx.cloud_provider.mcs_load_balancer ≡ (some b, true)))
      × Accepts ctx.mgr "multiclusterservice-controller" mcs_watches s

  pub mci_returns : (s : S) → Completes (start_mci_controller ctx) s → IngressStart s
  unfolding start_mci_controller IngressSetup.setup_with_manager
  mci_returns s (b, h) =
      let (a, p, e) = obtained ctx.cloud_provider.load_balancer _ b s h in
      ((a, p), set_up_returns _ (mci_watches ctx.client ctx.provider_class_name) b s e)

  pub mcs_returns : (s : S) → Completes (start_mcs_controller ctx) s → McsStart s
  unfolding start_mcs_controller McsWatch.setup_with_manager
  mcs_returns s (b, h) =
      let (a, p, e) = obtained ctx.cloud_provider.mcs_load_balancer _ b s h in
      ((a, p), set_up_returns _ mcs_watches b s e)

  pub export_returns :
      (s : S)
      → Completes (start_service_export_propagation_controller ctx) s
      → Accepts ctx.mgr "serviceexport-propagation-controller"
          (export_watches ctx.client ctx.sets ctx.provider_class_name)
          s
  unfolding start_service_export_propagation_controller ExportSetup.setup_with_manager
  export_returns s (b, h) =
      set_up_returns _ (export_watches ctx.client ctx.sets ctx.provider_class_name) b s h

  pub crd_returns :
      (s : S)
      → Completes (start_crd_installation_controller ctx) s
      → (ctx.complete crd_installation s).0 ≡ ok tt
  unfolding start_crd_installation_controller
  crd_returns s (b, h) = completed _ b _ h

  pub locations_returns :
      (s : S)
      → Completes (start_mci_service_locations_controller ctx) s
      → (ctx.complete mci_service_locations s).0 ≡ ok tt
  unfolding start_mci_service_locations_controller
  locations_returns s (b, h) = completed _ b _ h
