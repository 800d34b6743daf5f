-- ===== src/Kube.antt =====
-- pkg/utils/kubeclient: the helpers over the API server. What they look at of the objects of
-- Kubernetes, and the calls that they make; the API server itself answers as it likes.
pub mod Pods
pub mod Volumes
pub mod Objects
pub mod Owners
pub mod Exec
mod Tests
use fluid_data_table.Base.{ℕ, Option, List}
use fluid_data_table.Base.Text.{Text}
use fluid_data_table.Base.Dict.{Dict}
use fluid_data_table.Base.Result.{Error, Result}

-- v1.PodPhase
pub data PodPhase : Type 0 where
  pod_pending pod_running pod_succeeded pod_failed pod_unknown : PodPhase

-- v1.VolumeSource: the name of a claim, or any other source.
pub data VolumeSource : Type 0 where
  claim_source : Text → VolumeSource
  other_source : VolumeSource

pub record Volume : Type 0 where
  pub name : Text
  pub source : VolumeSource

-- metav1.OwnerReference
pub record OwnerReference : Type 0 where
  pub api_version : Text
  pub kind : Text
  pub name : Text
  pub uid : Text

-- v1.Pod; `controller` is metav1.GetControllerOf.
pub record Pod : Type 0 where
  pub name : Text
  pub namespace : Text
  pub deletion_timestamp : Option ℕ
  pub phase : PodPhase
  pub node_name : Text
  pub volumes : List Volume
  pub controller : Option OwnerReference

-- v1.PersistentVolume
pub record PersistentVolume : Type 0 where
  pub name : Text
  pub annotations : Dict Text

-- v1.PersistentVolumeClaim; times are in seconds.
pub record Claim : Type 0 where
  pub name : Text
  pub namespace : Text
  pub labels : Dict Text
  pub annotations : Dict Text
  pub finalizers : List Text
  pub deletion_timestamp : Option ℕ

-- The calls of the API server over a state of the cluster, which a read does not change.
pub record KubeApi (S : Type 0) : Type 0 where
  pub get_volume : Text → S → Result PersistentVolume
  -- by namespace and name
  pub get_claim : Text → Text → S → Result Claim
  -- the pods of a namespace
  pub list_pods : Text → S → Result (List Pod)
  pub delete_volume : PersistentVolume → S → Option Error × S
  pub delete_claim : Claim → S → Option Error × S
  pub update_claim : Claim → S → Option Error × S
  -- time.Now
  pub now : S → ℕ
  -- Error() of an error
  pub error_text : Error → Text
