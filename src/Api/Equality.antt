-- ===== src/Api/Equality.antt =====
-- `reflect.DeepEqual` on the structs of the API.
use multicluster_cloud_provi.Prelude.{
  [], ◌∷◌, items, ℕ, zero, suc, false, ◌≡◌, ◌↔◌, Bool, true, ◌&&◌, arith, eq_iff, str_eq,
}
use multicluster_cloud_provi.Prelude.Equality.{
  DeepEqual, ◌==◌, string_eq, option_eq, list_eq, list_beq_iff, option_beq_iff,
}
use multicluster_cloud_provi.Api.Work.{TargetCluster, BindingSnapshot}
use multicluster_cloud_provi.Api.Meta.{StringMap, lookup}
use multicluster_cloud_provi.Api.Ingress.{
  MciSpec, ExposurePort, IngressServiceBackend, IngressBackend, HttpIngressPath, IngressRule,
  IngressTls, LoadBalancerIngress, LoadBalancerStatus, ServiceLocation,
}

abbrev ingress_beq : LoadBalancerIngress → LoadBalancerIngress → Bool
ingress_beq a b = str_eq a.ip b.ip && str_eq a.hostname b.hostname

pub ingress_beq_iff : (a b : LoadBalancerIngress) → (ingress_beq a b ≡ true) ↔ (a ≡ b)
ingress_beq_iff a b = ground (arith, eq_iff a.ip b.ip, eq_iff a.hostname b.hostname)

instance abbrev pub ingress_eq : DeepEqual LoadBalancerIngress
ingress_eq = record { equal = ingress_beq; equal_iff = ingress_beq_iff }

abbrev status_beq : LoadBalancerStatus → LoadBalancerStatus → Bool
status_beq a b = a.ingress == b.ingress

pub status_beq_iff : (a b : LoadBalancerStatus) → (status_beq a b ≡ true) ↔ (a ≡ b)
status_beq_iff a b = ground (arith, option_beq_iff a.ingress b.ingress)

instance abbrev pub status_eq : DeepEqual LoadBalancerStatus
status_eq = record { equal = status_beq; equal_iff = status_beq_iff }

abbrev location_beq : ServiceLocation → ServiceLocation → Bool
location_beq a b = str_eq a.name b.name && a.clusters == b.clusters

pub location_beq_iff : (a b : ServiceLocation) → (location_beq a b ≡ true) ↔ (a ≡ b)
location_beq_iff a b = ground (arith, eq_iff a.name b.name, option_beq_iff a.clusters b.clusters)

instance abbrev pub location_eq : DeepEqual ServiceLocation
location_eq = record { equal = location_beq; equal_iff = location_beq_iff }

abbrev nat_beq : ℕ → ℕ → Bool
nat_beq zero zero = true
nat_beq (suc a) (suc b) = nat_beq a b
nat_beq _ _ = false

pub nat_beq_iff : (a b : ℕ) → (nat_beq a b ≡ true) ↔ (a ≡ b)
nat_beq_iff zero zero = ground arith
nat_beq_iff zero (suc b) = ground arith
nat_beq_iff (suc a) zero = ground arith
nat_beq_iff (suc a) (suc b) = ground (arith, nat_beq_iff a b)

instance abbrev pub nat_eq : DeepEqual ℕ
nat_eq = record { equal = nat_beq; equal_iff = nat_beq_iff }

abbrev port_beq : ExposurePort → ExposurePort → Bool
port_beq a b = str_eq a.name b.name && nat_beq a.port b.port

pub port_beq_iff : (a b : ExposurePort) → (port_beq a b ≡ true) ↔ (a ≡ b)
port_beq_iff a b = ground (arith, eq_iff a.name b.name, nat_beq_iff a.port b.port)

instance abbrev pub port_eq : DeepEqual ExposurePort
port_eq = record { equal = port_beq; equal_iff = port_beq_iff }

abbrev service_backend_beq : IngressServiceBackend → IngressServiceBackend → Bool
service_backend_beq a b = str_eq a.name b.name && nat_beq a.port b.port

pub service_backend_beq_iff :
    (a b : IngressServiceBackend) → (service_backend_beq a b ≡ true) ↔ (a ≡ b)
service_backend_beq_iff a b = ground (arith, eq_iff a.name b.name, nat_beq_iff a.port b.port)

instance abbrev pub service_backend_eq : DeepEqual IngressServiceBackend
service_backend_eq = record { equal = service_backend_beq; equal_iff = service_backend_beq_iff }

abbrev backend_beq : IngressBackend → IngressBackend → Bool
backend_beq a b = a.service == b.service && a.resource == b.resource

pub backend_beq_iff : (a b : IngressBackend) → (backend_beq a b ≡ true) ↔ (a ≡ b)
backend_beq_iff a b =
    ground (arith, option_beq_iff a.service b.service, option_beq_iff a.resource b.resource)

instance abbrev pub backend_eq : DeepEqual IngressBackend
backend_eq = record { equal = backend_beq; equal_iff = backend_beq_iff }

abbrev path_beq : HttpIngressPath → HttpIngressPath → Bool
path_beq a b = str_eq a.path b.path && backend_beq a.backend b.backend

pub path_beq_iff : (a b : HttpIngressPath) → (path_beq a b ≡ true) ↔ (a ≡ b)
path_beq_iff a b = ground (arith, eq_iff a.path b.path, backend_beq_iff a.backend b.backend)

instance abbrev pub path_eq : DeepEqual HttpIngressPath
path_eq = record { equal = path_beq; equal_iff = path_beq_iff }

abbrev rule_beq : IngressRule → IngressRule → Bool
rule_beq a b = str_eq a.host b.host && a.http == b.http

pub rule_beq_iff : (a b : IngressRule) → (rule_beq a b ≡ true) ↔ (a ≡ b)
rule_beq_iff a b = ground (arith, eq_iff a.host b.host, option_beq_iff a.http b.http)

instance abbrev pub rule_eq : DeepEqual IngressRule
rule_eq = record { equal = rule_beq; equal_iff = rule_beq_iff }

abbrev tls_beq : IngressTls → IngressTls → Bool
tls_beq a b = a.hosts == b.hosts && str_eq a.secret_name b.secret_name

pub tls_beq_iff : (a b : IngressTls) → (tls_beq a b ≡ true) ↔ (a ≡ b)
tls_beq_iff a b = ground (arith, list_beq_iff a.hosts b.hosts, eq_iff a.secret_name b.secret_name)

instance abbrev pub tls_eq : DeepEqual IngressTls
tls_eq = record { equal = tls_beq; equal_iff = tls_beq_iff }

-- `equality.Semantic.DeepEqual` on maps: the same keys with the same values, nil or empty.
abbrev pub covers : StringMap → StringMap → StringMap → Bool
covers a b [] = true
covers a b ((k, v) ∷ m) = lookup k a == lookup k b && covers a b m

abbrev pub same_map : StringMap → StringMap → Bool
same_map a b = covers a b a && covers a b b

-- `equality.Semantic.DeepEqual` on MultiClusterIngressSpec, which takes nil for an empty slice.
abbrev pub same_mci_spec : MciSpec → MciSpec → Bool
same_mci_spec a b =
    a.ingress_class_name == b.ingress_class_name
    && a.default_backend == b.default_backend
    && a.tls == b.tls
    && items a.rules == items b.rules

abbrev target_beq : TargetCluster → TargetCluster → Bool
target_beq a b = str_eq a.name b.name && nat_beq a.replicas b.replicas

pub target_beq_iff : (a b : TargetCluster) → (target_beq a b ≡ true) ↔ (a ≡ b)
target_beq_iff a b = ground (arith, eq_iff a.name b.name, nat_beq_iff a.replicas b.replicas)

instance abbrev pub target_eq : DeepEqual TargetCluster
target_eq = record { equal = target_beq; equal_iff = target_beq_iff }

abbrev snapshot_beq : BindingSnapshot → BindingSnapshot → Bool
snapshot_beq a b = str_eq a.name b.name && a.clusters == b.clusters

pub snapshot_beq_iff : (a b : BindingSnapshot) → (snapshot_beq a b ≡ true) ↔ (a ≡ b)
snapshot_beq_iff a b = ground (arith, eq_iff a.name b.name, option_beq_iff a.clusters b.clusters)

instance abbrev pub snapshot_eq : DeepEqual BindingSnapshot
snapshot_eq = record { equal = snapshot_beq; equal_iff = snapshot_beq_iff }
