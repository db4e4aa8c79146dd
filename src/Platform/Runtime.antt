-- ===== src/Platform/Runtime.antt =====
-- The libraries that the controllers are built on, together.
use multicluster_cloud_provi.Platform.Components.{Client}
use multicluster_cloud_provi.Platform.Retry.{Retry}
use multicluster_cloud_provi.Platform.Helpers.{StringSets, Finalizers}

pub record Runtime (C : Type 0) : Type 1 where
  pub client : Client C
  pub retry : Retry
  pub sets : StringSets
  pub finalizers : Finalizers
