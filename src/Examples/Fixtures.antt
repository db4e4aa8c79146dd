-- ===== src/Examples/Fixtures.antt =====
-- An API server and a provider to run the controllers on, and objects for them.
pub use multicluster_cloud_provi.Examples.Libraries.{string_sets, finalizers, default_retry}
use multicluster_cloud_provi.Prelude.{ℕ, zero, suc, Bool, true, false, none, some, List, [], ◌∷◌}
use multicluster_cloud_provi.Api.{
  NamespacedName, ObjectMeta, named, not_found, conflict, other, Result, ok, err,
  MultiClusterIngress, MultiClusterService, IngressBackend, LoadBalancerStatus, IngressClass,
  Service, Cluster, ResourceBinding, PropagationPolicy, ClusterPropagationPolicy, ServiceExport,
}
use multicluster_cloud_provi.Platform.{World, Client, LoadBalancer, McsLoadBalancer}
use multicluster_cloud_provi.Platform.Runtime.{Runtime}
use multicluster_cloud_provi.MciController.{mci_controller_finalizer}

abbrev pub key : NamespacedName
key = record { namespace = "default"; name = "shop" }

-- The answers that the tests vary. The state of the API server counts the calls that write.
pub record Answers : Type 0 where
  pub ingress : ℕ → Result MultiClusterIngress
  pub service_mcs : Result MultiClusterService
  pub status_write : Result (Unit {0})
  pub write : Result (Unit {0})
  pub clusters : List Cluster
  pub ingresses : List MultiClusterIngress
  pub classes : List IngressClass
  pub cluster : Result Cluster
  pub bindings : List ResourceBinding
  pub export : Result ServiceExport
  pub policy : Result PropagationPolicy
  pub cluster_policy : Result ClusterPropagationPolicy

abbrev after_write : {A : Type 0} → Result (Unit {0}) → A → ℕ → Result A × ℕ
after_write (ok u) a n = (ok a, suc n)
after_write (err e) a n = (err e, suc n)

abbrev first_class : List IngressClass → Result IngressClass
first_class [] = err not_found
first_class (c ∷ cs) = ok c

abbrev first_binding : List ResourceBinding → Result ResourceBinding
first_binding [] = err not_found
first_binding (b ∷ bs) = ok b

abbrev pub shop_service : Service
shop_service = record { meta = named "default" "shop"; spec = "" }

abbrev pub client : Answers → Client ℕ
client a = record {
  get_mci = λ k n. (a.ingress n, n);
  list_mcis_by_index = λ ns i v n. (ok a.ingresses, n);
  list_mcis = λ n. (ok a.ingresses, n);
  update_mci = λ m n. after_write a.write m n;
  patch_mci = λ m o n. after_write a.write m n;
  update_mci_status = λ m n. after_write a.status_write m n;
  get_mcs = λ k n. (a.service_mcs, n);
  update_mcs = λ m n. after_write a.write m n;
  update_mcs_status = λ m n. after_write a.status_write m n;
  get_ingress_class = λ k n. (first_class a.classes, n);
  list_ingress_classes = λ n. (ok a.classes, n);
  get_service = λ k n. (ok shop_service, n);
  get_cluster = λ k n. (a.cluster, n);
  list_clusters = λ n. (ok a.clusters, n);
  get_binding = λ k n. (first_binding a.bindings, n);
  list_bindings = λ ns n. (ok a.bindings, n);
  get_service_export = λ k n. (a.export, n);
  create_service_export = λ e n. after_write a.write e n;
  delete_service_export = λ e n. after_write a.write tt n;
  get_policy = λ k n. (a.policy, n);
  create_policy = λ p n. after_write a.write p n;
  update_policy = λ p n. after_write a.write p n;
  delete_policy = λ p n. after_write a.write tt n;
  get_cluster_policy = λ k n. (a.cluster_policy, n);
  create_cluster_policy = λ p n. after_write a.write p n;
  update_cluster_policy = λ p n. after_write a.write p n;
}

abbrev pub runtime : Answers → Runtime ℕ
runtime a = record {
  client = client a;
  retry = default_retry;
  sets = string_sets;
  finalizers = finalizers;
}

abbrev pub start : World ℕ Bool
start = record { log = []; api = 0; provider = false }

abbrev ready : LoadBalancerStatus
ready = record { ingress = some (record { ip = "10.0.0.1"; hostname = "" } ∷ []) }

-- A provider whose state says whether there is a load balancer.
abbrev pub balancer : LoadBalancer Bool
balancer = record {
  get_load_balancer = λ m b. (ok (none, b), b);
  ensure_load_balancer = λ m b. (ok (some ready), true);
  update_load_balancer = λ m b. (ok (some ready), b);
  ensure_load_balancer_deleted = λ m b. (ok tt, false);
}

abbrev pub mcs_balancer : McsLoadBalancer Bool
mcs_balancer = record {
  get_mcs_load_balancer = λ m b. (ok (none, b), b);
  ensure_mcs_load_balancer = λ m b. (ok (some ready), true);
  update_mcs_load_balancer = λ m b. (ok (some ready), b);
  ensure_mcs_load_balancer_deleted = λ m b. (ok tt, false);
}

abbrev shop_backend : IngressBackend
shop_backend = record { service = some (record { name = "shop"; port = 80 }); resource = none }

abbrev pub shop_meta : ObjectMeta
shop_meta = named "default" "shop"

abbrev pub shop : MultiClusterIngress
shop = record {
  meta = shop_meta;
  spec = record {
    ingress_class_name = some "cloud";
    default_backend = some shop_backend;
    tls = record { hosts = []; secret_name = "certificate" } ∷ [];
    rules = none;
  };
  status = record {
    load_balancer = record { ingress = none };
    traffic_block_clusters = none;
    service_locations =
        some (record { name = "shop"; clusters = some ("east" ∷ "west" ∷ []) } ∷ []);
  };
}

-- The ingress while it is deleted, with the finalizer of the controller.
abbrev pub leaving : MultiClusterIngress
leaving =
    let m = shop_meta in
    record shop {
      meta = record m { finalizers = mci_controller_finalizer ∷ []; deletion_timestamp = some 7 };
    }

abbrev pub shop_mcs : MultiClusterService
shop_mcs = record {
  meta = shop_meta;
  spec = record {
    types = "LoadBalancer" ∷ [];
    ports = record { name = "web"; port = 80 } ∷ [];
    rest = "";
  };
  load_balancer = record { ingress = none };
}

abbrev pub east : Cluster
east = record { meta = named "" "east"; remedy_actions = "TrafficControl" ∷ [] }

abbrev pub calm_east : Cluster
calm_east = record { meta = named "" "east"; remedy_actions = [] }

abbrev cloud_class : IngressClass
cloud_class = record { meta = named "" "cloud"; controller = "cloud" }

abbrev pub shop_binding : ResourceBinding
shop_binding = record {
  meta = named "default" "shop-service";
  spec = record {
    resource = record {
      api_version = "v1";
      kind = "Service";
      namespace = "default";
      name = "shop";
    };
    clusters =
        some (record { name = "west"; replicas = 1 } ∷ record { name = "east"; replicas = 2 } ∷ []);
    required_by = none;
  };
}

abbrev pub usual : Answers
usual = record {
  ingress = λ n. ok shop;
  service_mcs = ok shop_mcs;
  status_write = ok tt;
  write = ok tt;
  clusters = east ∷ [];
  ingresses = shop ∷ [];
  classes = cloud_class ∷ [];
  cluster = ok east;
  bindings = shop_binding ∷ [];
  export = err not_found;
  policy = err not_found;
  cluster_policy = err not_found;
}

-- The first write of a status meets a conflict, and after that Get fails.
abbrev ingress_then_timeout : ℕ → Result MultiClusterIngress
ingress_then_timeout zero = ok shop
ingress_then_timeout (suc n) = err (other "timeout")

abbrev pub unlucky : Answers
unlucky = record usual { ingress = ingress_then_timeout; status_write = err conflict }
