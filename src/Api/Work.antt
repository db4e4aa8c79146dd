-- ===== src/Api/Work.antt =====
-- ResourceBinding, PropagationPolicy, ClusterPropagationPolicy, ServiceExport.
use multicluster_cloud_provi.Prelude.{ℕ, String, Option, List, Slice}
use multicluster_cloud_provi.Api.Meta.{ObjectMeta}

pub record ObjectReference : Type 0 where
  pub api_version : String
  pub kind : String
  pub namespace : String
  pub name : String

pub record TargetCluster : Type 0 where
  pub name : String
  pub replicas : ℕ

pub record BindingSnapshot : Type 0 where
  pub name : String
  pub clusters : Slice TargetCluster

pub record ResourceBindingSpec : Type 0 where
  pub resource : ObjectReference
  pub clusters : Slice TargetCluster
  pub required_by : Slice BindingSnapshot

pub record ResourceBinding : Type 0 where
  pub meta : ObjectMeta
  pub open meta use *
  pub spec : ResourceBindingSpec

pub record ResourceSelector : Type 0 where
  pub api_version : String
  pub kind : String
  pub name : String

pub record Toleration : Type 0 where
  pub key : String
  pub operator : String
  pub effect : String

-- `cluster_affinity` is the pointer Placement.ClusterAffinity, and its value the slice
-- ClusterNames; `cluster_tolerations` is Placement.ClusterTolerations.
pub record PropagationSpec : Type 0 where
  pub resource_selectors : List ResourceSelector
  pub cluster_affinity : Option (List String)
  pub cluster_tolerations : List Toleration

pub record PropagationPolicy : Type 0 where
  pub meta : ObjectMeta
  pub open meta use *
  pub spec : PropagationSpec

pub record ClusterPropagationPolicy : Type 0 where
  pub meta : ObjectMeta
  pub open meta use *
  pub spec : PropagationSpec

pub record ServiceExport : Type 0 where
  pub meta : ObjectMeta
  pub open meta use *
