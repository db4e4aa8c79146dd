-- ===== src/FakeProvider/Registration.antt =====
-- fake/regist.go: the provider in memory is registered when its package is imported.
use multicluster_cloud_provi.Prelude.{some, []}
use multicluster_cloud_provi.Api.{ok}
use multicluster_cloud_provi.Process.{Proc}
use multicluster_cloud_provi.Process.Registry.{Factory, Registry, register_multi_cluster_provider}
use multicluster_cloud_provi.FakeProvider.{Provider, default_provider_name}

module _ {S F : Type 0} where
  abbrev fake_factory : Factory S F Provider
  fake_factory config s = (
    ok (
        some (record {
          name = default_provider_name;
          balancers = [];
          mcs_balancers = [];
          calls = [];
        })),
    s,
  )

  -- init
  unfoldable pub register_fake : Proc (Registry S F Provider) (Unit {0})
  unfolding register_multi_cluster_provider
  register_fake = register_multi_cluster_provider default_provider_name fake_factory
