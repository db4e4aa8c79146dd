-- ===== src/Api/Ingress.antt =====
-- MultiClusterIngress, MultiClusterService, IngressClass, Service, Secret, EndpointSlice, Cluster.
use multicluster_cloud_provi.Prelude.{ℕ, String, Option, List, Slice}
use multicluster_cloud_provi.Api.Meta.{ObjectMeta, StringMap}

pub record IngressServiceBackend : Type 0 where
  pub name : String
  pub port : ℕ

pub record IngressBackend : Type 0 where
  pub service : Option IngressServiceBackend
  pub resource : Option String

pub record HttpIngressPath : Type 0 where
  pub path : String
  pub backend : IngressBackend

-- `http` is the pointer `HTTP`, and its value the slice `HTTP.Paths`.
pub record IngressRule : Type 0 where
  pub host : String
  pub http : Option (List HttpIngressPath)

pub record IngressTls : Type 0 where
  pub hosts : List String
  pub secret_name : String

pub record LoadBalancerIngress : Type 0 where
  pub ip : String
  pub hostname : String

-- networkingv1.IngressLoadBalancerStatus and corev1.LoadBalancerStatus
pub record LoadBalancerStatus : Type 0 where
  pub ingress : Slice LoadBalancerIngress

pub record ServiceLocation : Type 0 where
  pub name : String
  pub clusters : Slice String

pub record MciSpec : Type 0 where
  pub ingress_class_name : Option String
  pub default_backend : Option IngressBackend
  pub tls : List IngressTls
  pub rules : Slice IngressRule

pub record MciStatus : Type 0 where
  pub load_balancer : LoadBalancerStatus
  pub traffic_block_clusters : Slice String
  pub service_locations : Slice ServiceLocation

pub record MultiClusterIngress : Type 0 where
  pub meta : ObjectMeta
  pub open meta use *
  pub spec : MciSpec
  pub status : MciStatus

pub record ExposurePort : Type 0 where
  pub name : String
  pub port : ℕ

-- The rest are the other fields, the clusters that provide and that consume the service: no code here
-- reads them but to compare the whole spec, so that a text stands for all that is in them.
pub record McsSpec : Type 0 where
  pub types : List String
  pub ports : List ExposurePort
  pub rest : String

pub record MultiClusterService : Type 0 where
  pub meta : ObjectMeta
  pub open meta use *
  pub spec : McsSpec
  pub load_balancer : LoadBalancerStatus

pub record IngressClass : Type 0 where
  pub meta : ObjectMeta
  pub open meta use *
  pub controller : String

pub record Service : Type 0 where
  pub meta : ObjectMeta
  pub open meta use *
  pub spec : String

pub record Cluster : Type 0 where
  pub meta : ObjectMeta
  pub open meta use *
  pub remedy_actions : List String

pub record Secret : Type 0 where
  pub meta : ObjectMeta
  pub open meta use *
  pub contents : StringMap
  pub string_data : StringMap

pub record EndpointSlice : Type 0 where
  pub meta : ObjectMeta
  pub open meta use *
