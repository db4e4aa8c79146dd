-- ===== src/Process/Manager.antt =====
-- app/manager.go: how the manager of controller-runtime is made and run, and the command that does
-- this with the options and the provider. The flags, the usage texts and the logging of the command
-- are left out, and so is the informer manager, which no controller uses but to hold it.
pub mod Digits
pub mod Ran
pub mod Command
use Prim.Native.Nat.{◌/◌, ◌%◌}
use Prim.Native.String.{◌++◌ as str_append, slice}
use text.Mathlib.Text.{find?}
use multicluster_cloud_provi.Prelude.{
  ℕ, ℤ, pos, negsuc, zero, suc, ◌+◌, String, Bool, none, some, false, not, List, [], ◌∷◌, is_empty,
  if◌then◌else◌,
}
use multicluster_cloud_provi.Api.{Error, Result, ok, err}
use multicluster_cloud_provi.Platform.{Call, Exit, done, fail, panic}
use multicluster_cloud_provi.Indexes.{
  IndexField, setup_service_indexes_for_mci, setup_secret_indexes_for_mci,
}
use multicluster_cloud_provi.Startup.{Initializers, controller_names, start_controllers}
use multicluster_cloud_provi.Process.Effects.{
  Outcome, returns, panics, exits, Proc, return, must, require, call, ◌>>=◌, ◌>>◌, proceed,
}
use multicluster_cloud_provi.Process.Registry.{Registry, Files, cloud_initializer}
use multicluster_cloud_provi.Process.Options.{Float32, Options, Invalid, validate}
use multicluster_cloud_provi.Process.Controllers.{Interface, Context, controllers}

-- strconv.Itoa. Each step takes a digit off, so `n + 1` steps are enough.
digits : ℕ → ℕ → String → String
digits zero n acc = acc
digits (suc fuel) n acc =
    let acc' = str_append (slice "0123456789" (n % 10) (n % 10 + 1)) acc in
    elim (n / 10) [ zero ↦ acc' | suc m ↦ digits fuel (suc m) acc' ]

decimal : ℕ → String
unfolding digits
decimal n = digits (suc n) n ""

unfoldable pub itoa : ℤ → String
unfolding decimal
itoa (pos n) = decimal n
itoa (negsuc n) = str_append "-" (decimal (suc n))

-- net.JoinHostPort
join_host_port : String → String → String
join_host_port host port = elim (find? host ":") [
  | none ↦ str_append host (str_append ":" port)
  | some _ ↦ str_append "[" (str_append host (str_append "]:" port))
]

-- controllerruntime.Options, with the two fields of the rest.Config that are set.
pub record ManagerOptions : Type 0 where
  pub qps : Float32
  pub burst : ℤ
  sync_period : ℤ
  pub leader_election : Bool
  leader_election_id : String
  leader_election_namespace : String
  pub lease_duration : ℤ
  pub renew_deadline : ℤ
  pub retry_period : ℤ
  leader_election_resource_lock : String
  health_probe_bind_address : String
  liveness_endpoint_name : String
  pub metrics_bind_address : String

unfoldable pub manager_options : Options → ManagerOptions
unfolding itoa join_host_port
manager_options opts =
    let e = opts.leader_election in
    record {
      qps = opts.kube_api_qps;
      burst = opts.kube_api_burst;
      sync_period = opts.resync_period;
      leader_election = e.leader_elect;
      leader_election_id = e.resource_name;
      leader_election_namespace = e.resource_namespace;
      lease_duration = e.lease_duration;
      renew_deadline = e.renew_deadline;
      retry_period = e.retry_period;
      leader_election_resource_lock = e.resource_lock;
      health_probe_bind_address = join_host_port opts.bind_address (itoa opts.secure_port);
      liveness_endpoint_name = "/healthz";
      metrics_bind_address = opts.metrics_bind_address;
    }

-- controller-runtime: GetConfig, NewManager, and the methods of the manager; Start blocks until the
-- context is done. And NewForConfig of the dynamic client, which NewForConfigOrDie panics on.
pub record ControllerRuntime (S : Type 0) : Type 0 where
  pub get_config : Call S (Unit {0})
  pub new_manager : ManagerOptions → Call S (Unit {0})
  pub add_healthz_check : String → Call S (Unit {0})
  pub new_dynamic_client : Call S (Unit {0})
  pub index_field : IndexField S
  pub start : Call S (Unit {0})

module _ {S C P : Type 0} (crt : ControllerRuntime S) (ctx : Context S C P)
    (range : Initializers S → Initializers S) where
  -- setupIndexesForMCI
  unfoldable pub setup_indexes_for_mci : Proc S (Unit {0})
  setup_indexes_for_mci = do
    services ← call (setup_service_indexes_for_mci ctx.sets crt.index_field)
    require services
    secrets ← call (setup_secret_indexes_for_mci ctx.sets crt.index_field)
    require secrets

  -- klog.Fatalf on the error of StartControllers
  abbrev fatal_error : Exit (Unit {0}) → Outcome (Unit {0})
  fatal_error (done u) = returns u
  fatal_error (fail e) = exits
  fatal_error panic = panics

  -- `range` visits the entries of a map in some order.
  start_ranged : Proc S (Unit {0})
  start_ranged s =
      let (exit, s') =
        start_controllers (controller_names ctx.sets (controllers ctx)) (λ _. false)
          (range (controllers ctx)) s in
      (fatal_error exit, s')

  -- setupControllers
  unfoldable pub setup_controllers : Proc S (Unit {0})
  unfolding setup_indexes_for_mci start_ranged
  setup_controllers = do
    client ← call crt.new_dynamic_client
    must client
    setup_indexes_for_mci
    start_ranged

  -- if err != nil { return err }
  or_return : Result (Unit {0}) → Proc S (Result (Unit {0})) → Proc S (Result (Unit {0}))
  or_return (err e) k s = (returns (err e), s)
  or_return (ok u) k s = k s

  run_manager : Proc S (Result (Unit {0}))
  unfolding setup_controllers
  run_manager = do setup_controllers; call crt.start

  -- Run
  unfoldable pub run : Options → Proc S (Result (Unit {0}))
  unfolding manager_options or_return run_manager
  run opts = do
    config ← call crt.get_config
    must config
    made ← call (crt.new_manager (manager_options opts))
    or_return made (do checked ← call (crt.add_healthz_check "ping"); or_return checked run_manager)

-- What the command returns: the errors of the options, or what Run returns.
pub data Answer : Type 0 where
  refused : List Invalid → Answer
  ran : Result (Unit {0}) → Answer

abbrev pub answered : Outcome (Result (Unit {0})) → Outcome Answer
answered (returns r) = returns (ran r)
answered panics = panics
answered exits = exits

-- The fields of the context that setupControllers fills from its arguments.
abbrev pub with_provider : {S C P : Type 0} → Interface P → Options → Context S C P → Context S C P
with_provider p opts ctx = record ctx {
  cloud_provider = p;
  provider_class_name = opts.provider_class_name;
}

module _ {S C P F : Type 0} (crt : ControllerRuntime S) (ctx : Context S C P)
    (range : Initializers S → Initializers S) (files : Files S F) where
  run_in : Interface P → Options → Proc (Registry S F (Interface P)) Answer
  run_in p opts r =
      let (outcome, s) = run crt (with_provider p opts ctx) range opts r.state in
      (answered outcome, record r { state = s })

  -- RunE of the command. Its provider initializer is cloudInitializer.
  unfoldable pub run_command : Options → Proc (Registry S F (Interface P)) Answer
  unfolding run_in
  run_command opts =
      let errs = validate opts in
      if not (is_empty errs)
      then return (refused errs)
      else (do p ← cloud_initializer files opts.name opts.cloud_config_file; run_in p opts)
