-- ===== src/Platform/Contract.antt =====
-- What cloud.go documents of a provider's load balancers, as laws on its state, and what the API
-- server keeps of the name of an object. Both are interfaces that the controllers are proved
-- against.
pub mod Calls
use multicluster_cloud_provi.Prelude.{◌≡◌, ◌≢◌, Bool, true, false, Option}
use multicluster_cloud_provi.Api.{NamespacedName, Result, ok, LoadBalancerStatus}
use multicluster_cloud_provi.Platform.Components.{Call}

-- For the four methods of either interface: "return whether the specified load balancer exists",
-- "creates a new load balancer", "updates the specified load balancer", "deletes the specified load
-- balancer if it exists". What a call that fails leaves of its own load balancer is not said; the
-- others are not touched. `identify` takes the name of an object to what the provider tells its load
-- balancers apart by.
pub record Balances {P O : Type 0} (name : O → NamespacedName)
    (get : O → Call P (Option LoadBalancerStatus × Bool))
    (ensure update : O → Call P (Option LoadBalancerStatus)) (remove : O → Call P (Unit {0}))
    : Type 1 where
  pub Key : Type 0
  pub identify : NamespacedName → Key
  pub exists : P → Key → Bool
  pub got :
      (o : O) (p : P) (status : Option LoadBalancerStatus) (b : Bool)
      → (get o p).0 ≡ ok (status, b)
      → exists p (identify (name o)) ≡ b
  pub get_keeps : (o : O) (p : P) (k : Key) → exists (get o p).1 k ≡ exists p k
  pub ensured :
      (o : O) (p : P) (status : Option LoadBalancerStatus)
      → (ensure o p).0 ≡ ok status
      → exists (ensure o p).1 (identify (name o)) ≡ true
  pub ensure_keeps :
      (o : O) (p : P) (k : Key) → k ≢ identify (name o) → exists (ensure o p).1 k ≡ exists p k
  pub updated :
      (o : O) (p : P) (status : Option LoadBalancerStatus)
      → exists p (identify (name o)) ≡ true
      → (update o p).0 ≡ ok status
      → exists (update o p).1 (identify (name o)) ≡ true
  pub update_keeps :
      (o : O) (p : P) (k : Key) → k ≢ identify (name o) → exists (update o p).1 k ≡ exists p k
  pub deleted :
      (o : O) (p : P) → (remove o p).0 ≡ ok tt → exists (remove o p).1 (identify (name o)) ≡ false
  pub delete_keeps :
      (o : O) (p : P) (k : Key) → k ≢ identify (name o) → exists (remove o p).1 k ≡ exists p k

-- The API server answers a request for a name with an object of that name, and a write with the
-- object of the name that was written.
pub record KeepsNames {C O : Type 0} (name : O → NamespacedName) (get : NamespacedName → Call C O)
    (write : O → Call C O) : Type 0 where
  pub got : (req : NamespacedName) (c : C) (o : O) → (get req c).0 ≡ ok o → name o ≡ req
  pub written : (o x : O) (c : C) → (write o c).0 ≡ ok x → name x ≡ name o
