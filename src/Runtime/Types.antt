-- ===== src/Runtime/Types.antt =====
-- The objects that the Alluxio engine reads and writes: api/v1alpha1 (AlluxioRuntime and its status)
-- and the parts of a StatefulSet and of a DaemonSet that pkg/ddc/alluxio looks at.
use fluid_data_table.Base.{ℕ, Bool, Option, List}
use fluid_data_table.Base.Text.{Text}
use fluid_data_table.Base.Result.{Error, Result}

-- RuntimePhase
pub data Phase : Type 0 where
  phase_none phase_not_ready phase_partial_ready phase_ready : Phase

-- v1.ConditionStatus
pub data ConditionStatus : Type 0 where
  condition_true condition_false : ConditionStatus

-- RuntimeCondition; times are readings of the clock.
pub record Condition : Type 0 where
  pub type : Text
  pub status : ConditionStatus
  pub reason : Text
  pub message : Text
  pub last_transition_time : ℕ
  pub last_probe_time : ℕ

-- RuntimeStatus
pub record Status : Type 0 where
  pub master_phase : Phase
  pub worker_phase : Phase
  pub fuse_phase : Phase
  pub desired_master_number_scheduled : ℕ
  pub current_master_number_scheduled : ℕ
  pub master_number_ready : ℕ
  pub desired_worker_number_scheduled : ℕ
  pub current_worker_number_scheduled : ℕ
  pub worker_number_ready : ℕ
  pub worker_number_unavailable : ℕ
  pub worker_number_available : ℕ
  pub fuse_number_ready : ℕ
  pub fuse_number_available : ℕ
  pub selector : Text
  pub value_file_configmap : Text
  pub setup_duration : Text
  pub api_gateway_status : Option Text
  pub has_cache_states : Bool
  pub conditions : List Condition

-- AlluxioRuntime
pub record Runtime : Type 0 where
  pub master_replicas : ℕ
  pub replicas : ℕ
  pub api_gateway_enabled : Bool
  pub status : Status

pub record StatefulSet : Type 0 where
  -- `*Spec.Replicas`
  pub spec_replicas : ℕ
  pub replicas : ℕ
  pub ready_replicas : ℕ

pub record DaemonSet : Type 0 where
  pub desired_number_scheduled : ℕ
  pub number_ready : ℕ
  pub number_available : ℕ
  pub number_unavailable : ℕ

-- A Go function's `(ready bool, err error)`.
pub record Checked : Type 0 where
  pub ready : Bool
  pub error : Option Error

-- Code that returns an error, and code that returns a flag and an error, over a state.
abbrev pub Step : Type 0 → Type 0
Step X = X → Option Error × X

abbrev pub Check : Type 0 → Type 0
Check X = X → Checked × X

-- The engine's calls of the API server over a state of the cluster.
pub record Cluster (S : Type 0) : Type 0 where
  pub get_runtime : S → Result Runtime × S
  pub get_master : S → Result StatefulSet × S
  pub get_workers : S → Result DaemonSet × S
  pub get_fuses : S → Result DaemonSet × S
  pub update_status : Status → Step S
  pub get_api_gateway_status : S → Result Text × S
  pub now : S → ℕ
  -- utils.CalculateDuration since the runtime was created
  pub duration : S → Text
  -- reflect.DeepEqual of two statuses
  pub same_status : Status → Status → Bool
