-- ===== src/Process/Options.antt =====
-- options/options.go and options/validation.go: the options of the process, the flags that set
-- them, and what they have to satisfy. The fields of the options of the rate limiter, the profiling,
-- the logging and the feature gates belong to libraries and are left out; the flags of the first two
-- are parameters. An int, and a duration, which is a number of nanoseconds, is an integer that is
-- only stored and passed on.
use multicluster_cloud_provi.Prelude.{
  ℕ, ℤ, pos, ◌*◌, ◌≡◌, String, Bool, true, false, List, [], ◌∷◌, ◌++◌, if◌then◌else◌, str_eq,
  contains,
}
use multicluster_cloud_provi.Process.Effects.{Proc, Outcome, returns, return, ◌>>=◌}

abbrev default_bind_address : String
default_bind_address = "0.0.0.0"

abbrev default_port : ℤ
default_port = pos 10368

abbrev namespace_karmada_system : String
namespace_karmada_system = "karmada-system"

-- time.Second
abbrev pub second : ℕ
second = 1000000000

abbrev default_election_lease_duration : ℤ
default_election_lease_duration = pos (15 * second)

abbrev default_election_renew_deadline : ℤ
default_election_renew_deadline = pos (10 * second)

abbrev default_election_retry_period : ℤ
default_election_retry_period = pos (2 * second)

-- A float32 that the code stores and passes on: a whole number times a power of two.
pub data Float32 : Type 0 where
  finite : (mantissa exponent : ℤ) → Float32
  negative_zero infinity negative_infinity nan : Float32

abbrev whole : ℕ → Float32
whole n = finite (pos n) (pos 0)

-- LeaderElectionConfiguration
pub record LeaderElection : Type 0 where
  pub leader_elect : Bool
  pub resource_lock : String
  pub resource_name : String
  pub resource_namespace : String
  pub lease_duration : ℤ
  pub renew_deadline : ℤ
  pub retry_period : ℤ

-- MultiClusterControllerManagerOptions
pub record Options : Type 0 where
  pub name : String
  pub cloud_config_file : String
  pub provider_class_name : String
  pub leader_election : LeaderElection
  pub bind_address : String
  pub secure_port : ℤ
  pub kube_api_qps : Float32
  pub kube_api_burst : ℤ
  pub resync_period : ℤ
  pub metrics_bind_address : String

-- NewClusterControllerManagerOptions
unfoldable pub new_cluster_controller_manager_options : Options
new_cluster_controller_manager_options = record {
  name = "";
  cloud_config_file = "";
  provider_class_name = "";
  leader_election = record {
    leader_elect = true;
    resource_lock = "leases";
    resource_name = "multicluster-controller-manager";
    resource_namespace = namespace_karmada_system;
    lease_duration = pos 0;
    renew_deadline = pos 0;
    retry_period = pos 0;
  };
  bind_address = "";
  secure_port = pos 0;
  kube_api_qps = whole 0;
  kube_api_burst = pos 0;
  resync_period = pos 0;
  metrics_bind_address = "";
}

-- pflag.FlagSet. StringVar and its kin define a flag and store its default; they panic if the flag
-- is there already.
pub record FlagSet : Type 1 where
  pub Flags : Type 0
  pub names : Flags → List String
  pub var : (A : Type 0) → String → A → Flags → Outcome A × Flags
  pub var_fresh :
      (A : Type 0) (name : String) (value : A) (fs : Flags)
      → contains (names fs) name ≡ false
      → ((var A name value fs).0 ≡ returns value)
        × (names (var A name value fs).1 ≡ names fs ++ name ∷ [])

module _ (flags : FlagSet) where
  add_election_flags : LeaderElection → Proc flags.Flags LeaderElection
  add_election_flags e = do
    elect ← flags.var Bool "leader-elect" true
    ns ← flags.var String "leader-elect-resource-namespace" namespace_karmada_system
    lease ← flags.var ℤ "leader-elect-lease-duration" default_election_lease_duration
    renew ← flags.var ℤ "leader-elect-renew-deadline" default_election_renew_deadline
    retry ← flags.var ℤ "leader-elect-retry-period" default_election_retry_period
    return (record e {
      leader_elect = elect;
      resource_namespace = ns;
      lease_duration = lease;
      renew_deadline = renew;
      retry_period = retry;
    })

  add_server_flags : Options → Proc flags.Flags Options
  add_server_flags o = do
    address ← flags.var String "bind-address" default_bind_address
    port ← flags.var ℤ "secure-port" default_port
    qps ← flags.var Float32 "kube-api-qps" (whole 40)
    burst ← flags.var ℤ "kube-api-burst" (pos 60)
    resync ← flags.var ℤ "resync-period" (pos 0)
    metrics ← flags.var String "metrics-bind-address" ":8080"
    return (record o {
      bind_address = address;
      secure_port = port;
      kube_api_qps = qps;
      kube_api_burst = burst;
      resync_period = resync;
      metrics_bind_address = metrics;
    })

  -- AddFlags. The two calls at its end, of RateLimiterOpts and of ProfileOpts, belong to libraries.
  unfoldable pub add_flags :
      (add_limiter_flags add_profile_flags : Proc flags.Flags (Unit {0}))
      → Options
      → Proc flags.Flags Options
  unfolding add_election_flags add_server_flags
  add_flags add_limiter_flags add_profile_flags o = do
    provider ← flags.var String "multicluster-provider" o.name
    config ← flags.var String "cloud-config" o.cloud_config_file
    class ← flags.var String "provider-ingress-class" o.provider_class_name
    election ← add_election_flags o.leader_election
    own ← add_server_flags (record o {
      name = provider;
      cloud_config_file = config;
      provider_class_name = class;
      leader_election = election;
    })
    limiter ← add_limiter_flags
    profile ← add_profile_flags
    return own

-- field.Invalid: the field of Options, and the message.
pub record Invalid : Type 0 where
  field : String
  detail : String

-- Validate
unfoldable pub validate : Options → List Invalid
validate o =
    (if str_eq o.name ""
      then record { field = "Name"; detail = "--multicluster-provider cannot be empty" } ∷ []
      else [])
    ++ (if str_eq o.provider_class_name ""
        then record {
          field = "ProviderClassName";
          detail = "--provider-ingress-class cannot be empty";
        }
          ∷ []
        else [])
