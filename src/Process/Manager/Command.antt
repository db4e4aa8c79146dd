-- ===== src/Process/Manager/Command.antt =====
-- What the command comes to, from its options to the end of the manager.
use multicluster_cloud_provi.Prelude.{String, List}
use multicluster_cloud_provi.Startup.{Initializers}
use multicluster_cloud_provi.Process.Effects.{Outcome}
use multicluster_cloud_provi.Process.Registry.{Factory, Registry, Files, cloud_initializer}
use multicluster_cloud_provi.Process.Registry.Registered.{register_all}
use multicluster_cloud_provi.Process.Options.{Options}
use multicluster_cloud_provi.Process.Controllers.{Interface, Context}
use multicluster_cloud_provi.Process.Manager.{ControllerRuntime}

module _ {S C P F : Type 0} (crt : ControllerRuntime S) (ctx : Context S C P)
    (range : Initializers S → Initializers S) (files : Files S F)
    (fs : List (String × Factory S F (Interface P))) (r : Registry S F (Interface P))
    (opts : Options) where
  abbrev registered : Registry S F (Interface P)
  registered = (register_all fs r).1

  -- The state of the process once the provider is made.
  abbrev pub provided : S
  provided = (cloud_initializer files opts.name opts.cloud_config_file registered).1.state

  abbrev made : Outcome (Interface P)
  made = (cloud_initializer files opts.name opts.cloud_config_file registered).0
