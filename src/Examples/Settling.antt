-- ===== src/Examples/Settling.antt =====
-- What the runs make of the load balancers, with the provider in memory and with one of one bit.
use Prim.Native.String.{◌++◌ as str_append}
use multicluster_cloud_provi.Prelude.{
  ℕ, ◌≡◌, ◌≢◌, refl, sym, ap, ◌∙◌, inl, inr, String, Bool, true, false, ◌&&◌, [], arith, str_eq,
  eq_iff, Bool-cases, if◌then◌else◌,
}
use multicluster_cloud_provi.Prelude.Texts.{sort_strings}
use multicluster_cloud_provi.Api.{NamespacedName, not_found, Result, ok, err, is_zero}
use multicluster_cloud_provi.Platform.{done, World, Client, LoadBalancer}
use multicluster_cloud_provi.Platform.Runtime.{Runtime}
use multicluster_cloud_provi.Platform.StatusSync.{sync}
use multicluster_cloud_provi.Indexes.{build_service_ref_indexes}
use multicluster_cloud_provi.TrafficBlock as TrafficBlock
use multicluster_cloud_provi.TrafficBlock.{
  traffic_block_clusters, update_mci_traffic_block_clusters,
}
use multicluster_cloud_provi.MciController as MciController
use multicluster_cloud_provi.MciController.Balanced as MciBalanced
use multicluster_cloud_provi.MciController.Balanced.{reconcile_settles}
use multicluster_cloud_provi.MciController.Converges.{stay, passed, ran, settled_stays}
use multicluster_cloud_provi.McsController as McsController
use multicluster_cloud_provi.McsController.Balanced as McsBalanced
use multicluster_cloud_provi.McsController.Balanced.{is_wanted, reconcile_mcs_settles}
use multicluster_cloud_provi.McsController.Leaks
use multicluster_cloud_provi.McsController.Leaks.{finalizer_stays}
use multicluster_cloud_provi.Util.{mcs_contain_load_balance_type}
use multicluster_cloud_provi.Examples.Services.{forgotten}
use multicluster_cloud_provi.FakeProvider.{
  Provider, get_load_balancer, ensure_load_balancer, update_load_balancer,
}
use multicluster_cloud_provi.FakeProvider.Balances.{fake_balancer, fake_balances}
use multicluster_cloud_provi.Examples.Fixtures.{
  runtime, client, key, start, shop, shop_mcs, mcs_balancer, string_sets, usual,
}

abbrev text : NamespacedName → String
text k = str_append k.namespace (str_append "/" k.name)

-- An API server that knows one name.
abbrev is_key : NamespacedName → Bool
is_key k = str_eq k.namespace "default" && str_eq k.name "shop"

abbrev found : {A : Type 0} → A → NamespacedName → Result A
found a k = if is_key k then ok a else err not_found

found_lem : {A : Type 0} (a b : A) (k : NamespacedName) → found a k ≡ ok b → (a ≡ b) × (key ≡ k)
found_lem a b k h = elim (Bool-cases (is_key k)) [
  | inl e ↦ (
    cc (rw e at h),
    let ns = (eq_iff k.namespace "default").0 (ground arith) in
        let name = (eq_iff k.name "shop").0 (ground arith) in
        λ i. record { namespace = sym ns i; name = sym name i },
  )
  | inr n ↦ absurd (cc (rw n at h))
]

abbrev api : Client ℕ
api =
    let c = client usual in
    record c { get_mci = λ k n. (found shop k, n); get_mcs = λ k n. (found shop_mcs k, n) }

abbrev rt : Runtime ℕ
rt = let r = runtime usual in record r { client = api }

mci_server : MciBalanced.Names api
mci_server = record {
  got = λ k n m h. let (e, same) = found_lem shop m k h in ap TrafficBlock.key_of (sym e) ∙ same;
  written = λ m x n h. ap TrafficBlock.key_of (stored m x h);
}
  where
    stored : {A : Type 0} (m x : A) → ok m ≡ ok x → x ≡ m
    stored m x h = cc

mcs_server : McsBalanced.Names api
mcs_server = record {
  got =
      λ k n m h. let (e, same) = found_lem shop_mcs m k h in ap McsController.key_of (sym e) ∙ same;
  written = λ m x n h. ap McsController.key_of (stored m x h);
}
  where
    stored : {A : Type 0} (m x : A) → ok m ≡ ok x → x ≡ m
    stored m x h = cc

abbrev lb : LoadBalancer Provider
lb = fake_balancer text string_sets

abbrev contract : MciBalanced.Contract lb
contract = fake_balances text string_sets

abbrev world : World ℕ Provider
world = record {
  log = [];
  api = 0;
  provider = record { name = ""; balancers = []; mcs_balancers = []; calls = [] };
}

reconcile_settles_example :
    ((k : contract.Key)
      → k ≢ contract.identify key
      → contract.exists (MciController.reconcile rt lb key world).1.provider k
        ≡ contract.exists world.provider k)
    × ((MciController.reconcile rt lb key world).0 ≡ done tt
        → contract.exists
            (MciController.reconcile rt lb key world).1.provider
            (contract.identify key)
          ≡ is_zero shop.deletion_timestamp)
reconcile_settles_example = reconcile_settles rt lb contract mci_server key world shop refl

runs : (MciController.reconcile rt lb key world).0 ≡ done tt
unfolding MciController.reconcile update_mci_traffic_block_clusters sync traffic_block_clusters
    get_load_balancer ensure_load_balancer update_load_balancer build_service_ref_indexes
    sort_strings
runs = refl

abbrev settled : World ℕ Provider
settled = (MciController.reconcile rt lb key world).1

abbrev blog : NamespacedName
blog = record { namespace = "default"; name = "blog" }

-- The API server moves on, and another name is reconciled.
abbrev later : World ℕ Provider
later = (MciController.reconcile rt lb blog (record settled { api = 8 })).1

differs : contract.identify key ≢ contract.identify blog
unfolding fake_balances
differs e = let same : false ≡ true = (eq_iff "default/shop" "default/blog").1 e in cc

settled_stays_example :
    contract.exists later.provider (contract.identify key) ≡ is_zero shop.deletion_timestamp
settled_stays_example =
    settled_stays rt lb contract key mci_server world later shop refl runs
      (ran blog (passed stay refl) differs)

-- A provider with one load balancer.
abbrev one_bit : McsBalanced.Contract mcs_balancer
one_bit = record {
  Key = Unit {0};
  identify = λ name. tt;
  exists = λ p k. p;
  got = λ m p status b h. cc;
  get_keeps = λ m p k. refl;
  ensured = λ m p status h. refl;
  ensure_keeps = λ m p k n. absurd (n refl);
  updated = λ m p status e h. e;
  update_keeps = λ m p k n. refl;
  deleted = λ m p h. refl;
  delete_keeps = λ m p k n. absurd (n refl);
}

reconcile_mcs_settles_example :
    ((k : Unit {0})
      → k ≢ tt
      → (McsController.reconcile rt mcs_balancer key start).1.provider ≡ false)
    × ((McsController.reconcile rt mcs_balancer key start).0 ≡ done tt
        → (McsController.reconcile rt mcs_balancer key start).1.provider ≡ is_wanted shop_mcs)
reconcile_mcs_settles_example =
    reconcile_mcs_settles rt mcs_balancer one_bit mcs_server key start shop_mcs refl

-- An API server that has the service with another type, a finalizer and the mark of deletion.
abbrev retyping : Runtime ℕ
retyping =
    let r = runtime usual in
    record r { client = record api { get_mcs = λ k n. (found forgotten k, n) } }

retyping_server : McsBalanced.Names retyping.client
retyping_server = record {
  got = λ k n m h.
      let (e, same) = found_lem forgotten m k h in ap McsController.key_of (sym e) ∙ same;
  written = λ m x n h. ap McsController.key_of (stored m x h);
}
  where
    stored : {A : Type 0} (m x : A) → ok m ≡ ok x → x ≡ m
    stored m x h = cc

untyped : mcs_contain_load_balance_type forgotten ≡ false
unfolding mcs_contain_load_balance_type
untyped = refl

-- After one run for the service, and a change at the API server.
abbrev moved_on : World ℕ Bool
moved_on = record (McsController.reconcile retyping mcs_balancer key start).1 { api = 9 }

finalizer_stays_example :
    Leaks.OnlyReads key forgotten moved_on.log
      (McsController.reconcile retyping mcs_balancer key moved_on).1.log
    × ((McsController.reconcile retyping mcs_balancer key moved_on).1.api ≡ 9)
finalizer_stays_example =
    finalizer_stays retyping mcs_balancer one_bit retyping_server key start moved_on forgotten refl
      (Leaks.passed (Leaks.again forgotten Leaks.stay refl untyped) refl) refl untyped
