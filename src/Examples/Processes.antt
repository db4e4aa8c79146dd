-- ===== src/Examples/Processes.antt =====
-- The registry of the providers, the flags and the command at concrete inputs.
use multicluster_cloud_provi.Prelude.{
  ◌≡◌, ◌↔◌, refl, ℕ, suc, String, Bool, true, some, List, [], ◌∷◌,
}
use multicluster_cloud_provi.Api.{ok}
use multicluster_cloud_provi.Platform.Watching.{Manager}
use multicluster_cloud_provi.Startup.{Initializers}
use multicluster_cloud_provi.Process.{returns}
use multicluster_cloud_provi.Process.Registry.{
  Factory, Registry, Files, register_multi_cluster_provider, cloud_initializer,
}
use multicluster_cloud_provi.Process.Registry.Registered.{register_all}
use multicluster_cloud_provi.Process.Registry.Provided.{Provides, initialized_lem}
use multicluster_cloud_provi.Process.Options.{Options, new_cluster_controller_manager_options}
use multicluster_cloud_provi.Process.Controllers.{Interface, Context, controllers}
use multicluster_cloud_provi.Process.Controllers.Turns.{AllStarted}
use multicluster_cloud_provi.Process.Manager.{ControllerRuntime, run}
use multicluster_cloud_provi.Process.Manager.Ran.{Ran, secrets, run_returns}
use multicluster_cloud_provi.Examples.Fixtures.{client, string_sets, balancer, mcs_balancer, usual}

-- The state of the process counts what was done. An open file is its path.
abbrev files : Files ℕ String
files = record { open_file = λ path n. (ok path, suc n); close = λ file n. suc n }

abbrev acme : Interface Bool
acme = record {
  load_balancer = (some balancer, true);
  mcs_load_balancer = (some mcs_balancer, true);
  provider_name = "acme";
}

abbrev factories : List (String × Factory ℕ String (Interface Bool))
factories = ("acme", λ config n. (ok (some acme), suc n)) ∷ []

abbrev empty : Registry ℕ String (Interface Bool)
empty = record { providers = []; state = 0 }

registers : (register_all factories empty).0 ≡ returns tt
unfolding register_all register_multi_cluster_provider
registers = refl

initialized_lem_example :
    ((cloud_initializer files "acme" "cloud.yaml" (register_all factories empty).1).0
      ≡ returns acme)
    ↔ Provides files factories empty "acme" "cloud.yaml" (register_all factories empty).1.state acme
initialized_lem_example =
    initialized_lem files factories empty "acme" "cloud.yaml" acme refl registers

abbrev opts : Options
opts = record new_cluster_controller_manager_options {
  name = "acme";
  cloud_config_file = "cloud.yaml";
  provider_class_name = "cloud";
}

abbrev crt : ControllerRuntime ℕ
crt = record {
  get_config = λ n. (ok tt, suc n);
  new_manager = λ o n. (ok tt, suc n);
  add_healthz_check = λ name n. (ok tt, suc n);
  new_dynamic_client = λ n. (ok tt, suc n);
  index_field = λ k f n. (ok tt, suc n);
  start = λ n. (ok tt, suc n);
}

abbrev mgr : Manager ℕ ℕ Bool
mgr = record { new_controller = λ name n. (ok tt, suc n); watch = λ w n. (ok tt, suc n) }

abbrev ctx : Context ℕ ℕ Bool
ctx = record {
  mgr = mgr;
  complete = λ b n. (ok tt, suc n);
  client = client usual;
  sets = string_sets;
  cloud_provider = acme;
  provider_class_name = "cloud";
}

abbrev in_order : Initializers ℕ → Initializers ℕ
in_order is = is

run_returns_example :
    (((run crt ctx in_order opts 0).0 ≡ returns (ok tt)) ↔ Ran crt ctx in_order opts 0)
    × (Ran crt ctx in_order opts 0
        → AllStarted ctx (controllers ctx) (secrets crt ctx in_order opts 0).1)
run_returns_example = run_returns crt ctx in_order opts 0 (λ is name init. (λ h. h, λ h. h))

abbrev registry : Registry ℕ String (Interface Bool)
registry = (register_all factories empty).1
