-- ===== src/Runtime/Tests.antt =====
-- A small cluster on which the theorems about the runtime's engine are applied: its state is the
-- number of calls so far.
mod Cache
mod Install
mod Build
use fluid_data_table.Base.{ℕ, ◌+◌, Bool, true, false, none, some, [], ◌∷◌, ◌≡◌, refl, if◌then◌else◌}
use fluid_data_table.Base.Text.{Text, codes, str_eq}
use fluid_data_table.Base.Dict.{lookup, insert}
use fluid_data_table.Base.Result.{ok, err, message}
use fluid_data_table.Datatable.World.{panicked}
use fluid_data_table.Schedule.Node.{Node}
use fluid_data_table.Schedule.Info.{RuntimeInfo}
use fluid_data_table.Schedule.Assign.{NodeApi}
use fluid_data_table.Runtime.Types.{
  phase_none, Condition, condition_true, condition_false, Status, Runtime, StatefulSet, DaemonSet,
  Cluster,
}
use fluid_data_table.Runtime.Conditions.{
  get_runtime_condition, update_runtime_condition, new_runtime_condition, found, updated,
  get_runtime_condition-update_runtime_condition,
}
use fluid_data_table.Runtime.Template.{
  Implement, answer, setup, master_first, setup_workers_first, finish,
}
use fluid_data_table.Runtime.Template.Stages.{setup_ready}
use fluid_data_table.Runtime.Status.{Engine, check_and_update_runtime_status, workers_ready_type}
use fluid_data_table.Runtime.Health.{add_condition}
use fluid_data_table.Runtime.Health.Stale.{add_condition_lem}
use fluid_data_table.Runtime.Labels.{
  LabelToModify, add_label, change_labels, change_label, label_value_pair,
}
use fluid_data_table.Runtime.Labels.Modes.{merged, change_labels-label_value_pair}
use fluid_data_table.Runtime.Shutdown.{
  ShutdownApi, EngineState, open_channel, shutdown, close_channel, destroy_all, destroy_workers,
  destroy_master, nodes_to_destroy,
}

abbrev workers_true : Condition
workers_true =
    new_runtime_condition 3 workers_ready_type (codes "ready") (codes "ready") condition_true

abbrev workers_false : Condition
workers_false =
    new_runtime_condition 9 workers_ready_type (codes "not ready") (codes "not ready")
      condition_false

get_runtime_condition-update_runtime_condition_example :
    found (
      get_runtime_condition
        (update_runtime_condition (workers_true ∷ []) workers_false)
        workers_ready_type)
    ≡ (if str_eq workers_ready_type workers_ready_type
        then some (
            updated
              (found (get_runtime_condition (workers_true ∷ []) workers_ready_type))
              workers_false)
        else found (get_runtime_condition (workers_true ∷ []) workers_ready_type))
unfolding new_runtime_condition
get_runtime_condition-update_runtime_condition_example =
    get_runtime_condition-update_runtime_condition (workers_true ∷ []) workers_false
      workers_ready_type

-- The workers have failed, and their condition says that they are ready.
add_condition_lem_example : add_condition (workers_true ∷ []) workers_false ≡ workers_true ∷ []
unfolding get_runtime_condition new_runtime_condition str_eq
add_condition_lem_example = add_condition_lem (workers_true ∷ []) workers_false

-- An engine whose parts are all ready, and one whose master is not.
abbrev parts : Bool → Implement ℕ
parts master = record {
  should_setup_master = λ s. (answer true none, s + 1);
  setup_master = λ s. (none, s + 1);
  check_master_ready = λ s. (answer master none, s + 1);
  should_setup_workers = λ s. (answer true none, s + 1);
  setup_workers = λ s. (none, s + 1);
  check_workers_ready = λ s. (answer true none, s + 1);
  check_and_update_runtime_status = λ s. (answer true none, s + 1);
}

setup_ready_example :
    (s1 s2 s3 s4 : ℕ) × ((parts true).check_master_ready s1 ≡ (answer true none, s2))
    × ((parts true).check_workers_ready s3 ≡ (answer true none, s4))
    × ((parts true).check_and_update_runtime_status s4 ≡ (answer true none, 7))
unfolding setup master_first setup_workers_first finish
setup_ready_example = setup_ready (parts true) 0 7 refl

abbrev status : Status
status = record {
  master_phase = phase_none;
  worker_phase = phase_none;
  fuse_phase = phase_none;
  desired_master_number_scheduled = 0;
  current_master_number_scheduled = 0;
  master_number_ready = 0;
  desired_worker_number_scheduled = 0;
  current_worker_number_scheduled = 0;
  worker_number_ready = 0;
  worker_number_unavailable = 0;
  worker_number_available = 0;
  fuse_number_ready = 0;
  fuse_number_available = 0;
  selector = [];
  value_file_configmap = [];
  setup_duration = [];
  api_gateway_status = none;
  has_cache_states = false;
  conditions = [];
}

abbrev runtime : Runtime
runtime = record { master_replicas = 1; replicas = 2; api_gateway_enabled = false; status = status }

abbrev master_set : StatefulSet
master_set = record { spec_replicas = 1; replicas = 1; ready_replicas = 1 }

abbrev worker_set : DaemonSet
worker_set = record {
  desired_number_scheduled = 2;
  number_ready = 1;
  number_available = 1;
  number_unavailable = 1;
}

abbrev cluster : Cluster ℕ
cluster = record {
  get_runtime = λ s. (ok runtime, s + 1);
  get_master = λ s. (ok master_set, s + 1);
  get_workers = λ s. (ok worker_set, s + 1);
  get_fuses = λ s. (ok worker_set, s + 1);
  update_status = λ st s. (none, s + 1);
  get_api_gateway_status = λ s. (ok [], s + 1);
  now = λ s. s;
  duration = λ s. codes "1s";
  same_status = λ a b. false;
}

abbrev engine : Engine ℕ
engine = record {
  cluster = cluster;
  retry_on_conflict = λ X f. f;
  setup_master_internal = λ s. (none, s + 1);
  assign_nodes_to_cache = λ n s. (ok n, s + 1);
  worker_selectors = [];
  configmap_name = [];
}

abbrev change : Text → Text → LabelToModify
change key value = record { label_key = key; label_value = value; operation_type = add_label }

change_labels-label_value_pair_example :
    lookup (codes "a") ((codes "b", codes "2") ∷ (codes "a", codes "1") ∷ [])
    ≡ merged
        (lookup (codes "a") (label_value_pair (change (codes "a") (codes "1") ∷ []) []))
        (lookup (codes "a") ((codes "b", codes "2") ∷ []))
unfolding change_labels change_label lookup insert str_eq
change_labels-label_value_pair_example =
    change_labels-label_value_pair (change (codes "a") (codes "1") ∷ [])
      ((codes "b", codes "2") ∷ []) ((codes "b", codes "2") ∷ (codes "a", codes "1") ∷ [])
      (codes "a") refl

abbrev info : RuntimeInfo
info = record {
  name = codes "hbase";
  namespace = codes "default";
  runtime_type = codes "alluxio";
  exclusive = false;
  deprecated_node_label = false;
  levels = [];
}

abbrev pub worker : Text → Node
worker name = record {
  name = name;
  labels = (codes "fluid-io/s-default-hbase", codes "true") ∷ [];
  unschedulable = false;
  conditions = [];
  addresses = [];
  memory = 64;
}

abbrev nodes : NodeApi ℕ
nodes = record {
  list_nodes = λ s. (ok [], s + 1);
  parse_selector = λ key. none;
  list_labelled = λ key s. (ok [], s + 1);
  get_node = λ name s. (ok (worker name), s + 1);
  patch_node = λ name patch s. (none, s + 1);
  retry_on_conflict = λ X f. f;
  wait_for_labels = λ name labels s. s + 1;
  bytes_size = λ n. [];
}

-- The cache is cleaned, and the release of the chart cannot be looked up.
abbrev pub calls : ShutdownApi ℕ
calls = record {
  nodes = nodes;
  name = codes "hbase";
  runtime_type = codes "alluxio";
  graceful_shutdown_limits = 5;
  invoke_clean_cache = λ s. (none, s + 1);
  check_release = λ s. (err (message (codes "helm")), s + 1);
  delete_release = λ s. (none, s + 1);
  delete_config_map = λ name s. (none, s + 1);
  get_runtime_info = λ s. (ok info, s + 1);
  get_pvc_mount_nodes = λ s. (ok [], s + 1);
  get_worker_used_capacity = λ s. (none, s + 1);
  sort_slice = λ less ns. ns;
}

abbrev pub tried : ℕ → EngineState ℕ
tried n = record { retry_shutdown = n; metadata_sync_done = open_channel; cluster = 0 }
