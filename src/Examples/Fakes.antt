-- ===== src/Examples/Fakes.antt =====
-- The provider in memory at concrete inputs.
use multicluster_cloud_provi.Prelude.{ℕ, ◌≡◌, refl, String, false, List, some, [], ◌∷◌}
use multicluster_cloud_provi.Prelude.Texts.{sort_strings}
use multicluster_cloud_provi.Api.{NamespacedName}
use multicluster_cloud_provi.Indexes.{build_service_ref_indexes}
use multicluster_cloud_provi.FakeProvider.Registration.{register_fake}
use multicluster_cloud_provi.Process.{returns, exits}
use multicluster_cloud_provi.Process.Registry.{Registry, register_multi_cluster_provider}
use multicluster_cloud_provi.FakeProvider.{Provider}
use multicluster_cloud_provi.FakeProvider.Contract.{balanced}
use multicluster_cloud_provi.FakeProvider.Refinement.{
  Op, get, ensure, update, remove, run, replay, Builds, run_refines,
}
use multicluster_cloud_provi.Examples.Fixtures.{string_sets, shop}

abbrev text : NamespacedName → String
text k = k.name

abbrev empty : Provider
empty = record { name = ""; balancers = []; mcs_balancers = []; calls = [] }

builds : build_service_ref_indexes string_sets shop ≡ some ("shop" ∷ [])
unfolding build_service_ref_indexes sort_strings
builds = refl

abbrev calls : List Op
calls = get shop ∷ ensure shop ∷ ensure shop ∷ remove shop ∷ update shop ∷ []

run_refines_example :
    ((run text string_sets calls empty).0 ≡ (replay text string_sets calls (λ _. false)).0)
    × ((k : String)
        → balanced (run text string_sets calls empty).1 k
          ≡ (replay text string_sets calls (λ _. false)).1 k)
run_refines_example =
    let b : Builds text string_sets (get shop) = ("shop" ∷ [], builds) in
    run_refines text string_sets calls empty (λ _. false) (λ k. refl) (b, (b, (b, (b, (b, tt)))))

-- A second registration under the name ends the process.
abbrev unregistered : Registry ℕ String Provider
unregistered = record { providers = []; state = 0 }

registers_once :
    ((register_fake unregistered).0 ≡ returns tt)
    × ((register_fake (register_fake unregistered).1).0 ≡ exits)
unfolding register_fake register_multi_cluster_provider
registers_once = (refl, refl)
