-- ===== src/Process/Manager/Ran.antt =====
-- What has happened when the process ends without an error.
use multicluster_cloud_provi.Prelude.{◌≡◌, ◌↔◌, refl, ◌⊎◌, inl, inr, String, true, false, contains}
use multicluster_cloud_provi.Api.{Error, Result, ok, Result-cases}
use multicluster_cloud_provi.Platform.{Exit, done, fail, panic}
use multicluster_cloud_provi.Indexes.{setup_service_indexes_for_mci, setup_secret_indexes_for_mci}
use multicluster_cloud_provi.Startup.{Initializers, names_of, controller_names, start_controllers}
use multicluster_cloud_provi.Startup.Started.{
  start_all, start_controllers_lem, IsRange, named_lem, all_started,
}
use multicluster_cloud_provi.Process.Controllers.Supported.{no_dashes}
use multicluster_cloud_provi.Process.Controllers.Turns.{AllStarted, AllStarted-Completes}
use multicluster_cloud_provi.Process.Effects.{returns}
use multicluster_cloud_provi.Process.Options.{Options}
use multicluster_cloud_provi.Process.Controllers.{Context, controllers}
use multicluster_cloud_provi.Process.Manager.{
  ControllerRuntime, manager_options, setup_indexes_for_mci, start_ranged, setup_controllers,
  run_manager, run,
}

Exit-cases : (e : Exit (Unit {0})) → (e ≡ done tt) ⊎ ((e ≡ panic) ⊎ ((f : Error) × (e ≡ fail f)))
Exit-cases (done u) = inl refl
Exit-cases panic = inr (inl refl)
Exit-cases (fail f) = inr (inr (f, refl))

module _ {S C P : Type 0} (crt : ControllerRuntime S) (ctx : Context S C P)
    (range : Initializers S → Initializers S) (opts : Options) (s : S) where
  abbrev made : Result (Unit {0}) × S
  made = crt.new_manager (manager_options opts) (crt.get_config s).1

  abbrev checked : Result (Unit {0}) × S
  checked = crt.add_healthz_check "ping" made.1

  abbrev connected : Result (Unit {0}) × S
  connected = crt.new_dynamic_client checked.1

  abbrev services : Result (Unit {0}) × S
  services = setup_service_indexes_for_mci ctx.sets crt.index_field connected.1

  abbrev pub secrets : Result (Unit {0}) × S
  secrets = setup_secret_indexes_for_mci ctx.sets crt.index_field services.1

  abbrev started : Exit (Unit {0}) × S
  started = start_all (range (controllers ctx)) secrets.1

  -- Each call has succeeded, on the state that the one before it has left.
  pub record Ran : Type 0 where
    is_configured : (crt.get_config s).0 ≡ ok tt
    is_made : made.0 ≡ ok tt
    is_checked : checked.0 ≡ ok tt
    is_connected : connected.0 ≡ ok tt
    has_services : services.0 ≡ ok tt
    has_secrets : secrets.0 ≡ ok tt
    is_started : started.0 ≡ done tt
    is_over : (crt.start started.1).0 ≡ ok tt

  tail_lem :
      (range_lem : start_controllers
          (controller_names ctx.sets (controllers ctx))
          (λ _. false)
          (range (controllers ctx))
        ≡ start_all (range (controllers ctx)))
      → ((run_manager crt ctx range checked.1).0 ≡ returns (ok tt)) ↔ (
          (connected.0 ≡ ok tt)
          × (services.0 ≡ ok tt)
          × (secrets.0 ≡ ok tt)
          × (started.0 ≡ done tt)
          × ((crt.start started.1).0 ≡ ok tt))
  unfolding run_manager setup_controllers setup_indexes_for_mci start_ranged
  tail_lem k = (to, λ (z, a, b, c, d). rw (z, a, b, k, c, d) refl)
    where
      to :
          (run_manager crt ctx range checked.1).0 ≡ returns (ok tt)
          → (connected.0 ≡ ok tt)
            × (services.0 ≡ ok tt)
            × (secrets.0 ≡ ok tt)
            × (started.0 ≡ done tt)
            × ((crt.start started.1).0 ≡ ok tt)
      to h = elim (Result-cases connected.0) [
        | inr (f, z) ↦ absurd (cc (rw z at h))
        | inl (t, z) ↦ elim (Result-cases services.0) [
          | inr (f, a) ↦ absurd (cc (rw (z, a) at h))
          | inl (u, a) ↦ elim (Result-cases secrets.0) [
            | inr (f, b) ↦ absurd (cc (rw (z, a, b) at h))
            | inl (v, b) ↦ elim (Exit-cases started.0) [
              | inl c ↦ (z, a, b, c, cc (rw (z, a, b, k, c) at h))
              | inr (inl c) ↦ absurd (cc (rw (z, a, b, k, c) at h))
              | inr (inr (f, c)) ↦ absurd (cc (rw (z, a, b, k, c) at h))
            ]
          ]
        ]
      ]

  run_lem :
      start_controllers
          (controller_names ctx.sets (controllers ctx))
          (λ _. false)
          (range (controllers ctx))
        ≡ start_all (range (controllers ctx))
      → ((run crt ctx range opts s).0 ≡ returns (ok tt)) ↔ Ran
  unfolding run
  run_lem k = (
    to,
    λ r.
        rw (r.is_configured, r.is_made, r.is_checked)
          ((tail_lem k).1 (r.is_connected, r.has_services, r.has_secrets, r.is_started, r.is_over)),
  )
    where
      to : (run crt ctx range opts s).0 ≡ returns (ok tt) → Ran
      to h = elim (Result-cases (crt.get_config s).0) [
        | inr (f, a) ↦ absurd (cc (rw a at h))
        | inl (u, a) ↦ elim (Result-cases made.0) [
          | inr (f, b) ↦ absurd (cc (rw (a, b) at h))
          | inl (v, b) ↦ elim (Result-cases checked.0) [
            | inr (f, c) ↦ absurd (cc (rw (a, b, c) at h))
            | inl (x, c) ↦
                let (z, p, q, r, t) = (tail_lem k).0 (rw (a, b, c) at h) in
                record {
                  is_configured = a;
                  is_made = b;
                  is_checked = c;
                  is_connected = z;
                  has_services = p;
                  has_secrets = q;
                  is_started = r;
                  is_over = t;
                }
          ]
        ]
      ]

module _ {S C P : Type 0} (crt : ControllerRuntime S) (ctx : Context S C P)
    (range : Initializers S → Initializers S) (opts : Options) (s : S) where
  -- The range over a map visits all of its entries and no others. Then Run returns without an error
  -- exactly if the configuration is read, the manager is made with the given options, the health
  -- check is added, the dynamic client is made, the two field indexes are added, all initializers
  -- return without an error, and the manager ends without one, in this order. In that case each of
  -- the five controllers has had its turn, in the state that the initializers before it have left:
  -- those of the ingresses, of the services and of the exports have been accepted by the manager with
  -- all their watches, the other two have been completed by their builders, and the provider has
  -- given both balancers, neither of them nil.
  pub run_returns :
      IsRange range
      → (((run crt ctx range opts s).0 ≡ returns (ok tt)) ↔ Ran crt ctx range opts s)
        × (Ran crt ctx range opts s
            → AllStarted ctx (range (controllers ctx)) (secrets crt ctx range opts s).1)
  run_returns v = (
    run_lem crt ctx range opts s (
        start_controllers_lem ctx.sets (controllers ctx) (λ _. false) (range (controllers ctx))
          visited (no_dashes ctx)),
    λ r.
        AllStarted-Completes ctx (range (controllers ctx)) (secrets crt ctx range opts s).1
          λ name init i.
            all_started (range (controllers ctx)) (secrets crt ctx range opts s).1 name init
              r.is_started ((v (controllers ctx) name init).1 i),
  )
    where
      visited :
          (name : String)
          → contains (names_of (range (controllers ctx))) name ≡ true
          → contains (names_of (controllers ctx)) name ≡ true
      visited name h =
          let (init, i) = (named_lem (range (controllers ctx)) name).0 h in
          (named_lem (controllers ctx) name).1 (init, (v (controllers ctx) name init).0 i)
