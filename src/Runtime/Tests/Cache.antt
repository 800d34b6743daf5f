-- ===== src/Runtime/Tests/Cache.antt =====
-- The cache under Shutdown, and the map of engines, on a small cluster.
use fluid_data_table.Runtime.Controller.{reconcile_runtime_deletion}
use fluid_data_table.Runtime.Controller.{reconcile_internal}
use fluid_data_table.Base.{true, All, ℕ, ◌+◌, ◌≤◌, none, [], ◌∷◌, ◌≡◌, refl, arith}
use fluid_data_table.Base.Text.{Text, codes, str_eq}
use fluid_data_table.Base.Dict.{lookup, insert}
use fluid_data_table.Base.Result.{Error, Result, ok, err, message, not_found}
use fluid_data_table.Datatable.World.{failed}
use fluid_data_table.Alluxio.Shell.{Pod}
use fluid_data_table.Runtime.Types.{StatefulSet}
use fluid_data_table.Runtime.Shutdown.{ShutdownApi, shutdown_candidates, shutdown}
use fluid_data_table.Runtime.Shutdown.Cache.{
  with_clean_cache, shutdown_of_gone_master, PastCache, after_tries, shutdown-PastCache,
}
use fluid_data_table.Runtime.Engines.{
  Request, get_or_create_engine, generate_engine_id, create_engine,
}
use fluid_data_table.Runtime.Engines.Ids.{get_or_create_engine_shared}
use fluid_data_table.Datatable.Reconcile.{no_requeue}
use fluid_data_table.Runtime.Types.{phase_none}
use fluid_data_table.Runtime.Template.{answer}
use fluid_data_table.Runtime.Controller.{ControllerApi}
use fluid_data_table.Runtime.Controller.Pool.{reconcile_internal_keeps_engine}
use fluid_data_table.Kube
use fluid_data_table.Kube.{KubeApi, pod_running, claim_source}
use fluid_data_table.Kube.Pods.{is_complete_pod}
use fluid_data_table.Kube.Volumes.{
  get_pvcs_from_pod, mounts_of, mount_pods, count_nodes, get_pvc_mount_pods, get_pvc_mount_nodes,
}
use fluid_data_table.Kube.Volumes.Use.{node_uses}
use fluid_data_table.Schedule.Node.{Node}
use fluid_data_table.Runtime.Shutdown.Candidates.{shutdown_candidates-All}
use fluid_data_table.Runtime.Tests.{calls, tried, worker}

abbrev silent_pod : Pod ℕ
silent_pod command s = (record { stdout = []; stderr = []; error = none; seconds = 1 }, s + 1)

abbrev no_master : ℕ → Result StatefulSet
no_master s = err not_found

abbrev no_text : Error → Text
no_text e = []

shutdown_of_gone_master_example :
    shutdown (with_clean_cache no_master silent_pod no_text calls) (tried 2)
    ≡ (failed (message (codes "the remaining cached is not cleaned up, check again")), tried 3)
shutdown_of_gone_master_example =
    shutdown_of_gone_master no_master silent_pod no_text calls (tried 2) (omega arith) refl

shutdown-PastCache_example : (n : ℕ) × (n ≤ 3) × PastCache calls (after_tries calls n (tried 2))
shutdown-PastCache_example = shutdown-PastCache calls (tried 2) 3 refl

-- An engine that is the number of engines built before it.
abbrev build : Text → Request → ℕ → Result ℕ × ℕ
build id request s = (ok s, s + 1)

abbrev request : Text → Text → Request
request namespace name = record {
  namespace = namespace;
  name = name;
  runtime_type = codes "alluxio";
}

get_or_create_engine_shared_example :
    get_or_create_engine build
      (request (codes "prod") (codes "eu-sales"))
      ((codes "prod-eu-sales", 0) ∷ [], 1)
    ≡ (ok 0, ((codes "prod-eu-sales", 0) ∷ [], 1))
unfolding get_or_create_engine lookup create_engine str_eq insert generate_engine_id
get_or_create_engine_shared_example =
    get_or_create_engine_shared build (codes "prod") (codes "eu") (codes "sales") (codes "alluxio")
      0 [] ((codes "prod-eu-sales", 0) ∷ []) 0 1 refl

-- A pod that runs on the first node and mounts the engine's claim.
abbrev mounting : Kube.Pod
mounting = record {
  name = codes "job";
  namespace = codes "default";
  deletion_timestamp = none;
  phase = pod_running;
  node_name = codes "n1";
  volumes = record { name = codes "data"; source = claim_source (codes "hbase") } ∷ [];
  controller = none;
}

abbrev kube : KubeApi ℕ
kube = record {
  get_volume = λ name s. err not_found;
  get_claim = λ namespace name s. err not_found;
  list_pods = λ namespace s. ok (mounting ∷ []);
  delete_volume = λ pv s. (none, s);
  delete_claim = λ pvc s. (none, s);
  update_claim = λ pvc s. (none, s);
  now = λ s. s;
  error_text = λ e. [];
}

abbrev counting : ShutdownApi ℕ
counting = record calls {
  get_pvc_mount_nodes = λ s. (get_pvc_mount_nodes kube calls.name (codes "default") s, s);
}

shutdown_candidates-All_example :
    All
      (λ (n : Node). node_uses (codes "hbase") n.name (mounting ∷ []) ≡ 0)
      (worker (codes "n2") ∷ [])
unfolding shutdown_candidates get_pvc_mount_nodes get_pvc_mount_pods lookup count_nodes mount_pods
    mounts_of get_pvcs_from_pod str_eq is_complete_pod insert
shutdown_candidates-All_example =
    shutdown_candidates-All counting kube (codes "default") 0 (mounting ∷ [])
      (worker (codes "n1") ∷ worker (codes "n2") ∷ []) (worker (codes "n2") ∷ []) 0 refl refl refl

-- A runtime that is being deleted, whose engine can be shut down.
abbrev deleting : ControllerApi ℕ
deleting = record {
  get_or_create_engine = λ s. (none, s);
  get_runtime_object_meta =
      λ s. (ok (record { finalizers = codes "alluxio" ∷ []; deleting = true; generation = 1 }), s);
  remove_engine = λ s. s;
  setup = λ s. (answer true none, s);
  shutdown = λ s. (none, s + 1);
  get_phases = λ s. (ok (phase_none, phase_none), s);
  update_finalizers = λ finalizers s. (none, s + 1);
  current_generation = λ s. 2;
}

reconcile_internal_keeps_engine_example :
    (e : ℕ) × (get_or_create_engine build
        (request (codes "default") (codes "hbase"))
        ((codes "default-hbase", 5) ∷ [], 9)
      ≡ (ok e, ((codes "default-hbase", 5) ∷ [], 9)))
unfolding reconcile_internal get_or_create_engine lookup create_engine str_eq
    reconcile_runtime_deletion insert generate_engine_id
reconcile_internal_keeps_engine_example =
    reconcile_internal_keeps_engine build (request (codes "default") (codes "hbase")) deleting
      (codes "alluxio") [] ((codes "default-hbase", 5) ∷ []) 5 8 9 no_requeue
      (request (codes "default") (codes "hbase")) refl refl
