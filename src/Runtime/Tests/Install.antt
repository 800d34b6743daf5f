-- ===== src/Runtime/Tests/Install.antt =====
-- The life of a release in a small model of Helm.
use fluid_data_table.Helm.{delete_release}
use fluid_data_table.Helm.{read_status}
use fluid_data_table.Helm.{check_release}
use fluid_data_table.Base.Text.{has_prefix}
use fluid_data_table.Helm.{missing_chart}
use fluid_data_table.Helm.{install_release}
use fluid_data_table.Helm.{read_status}
use fluid_data_table.Helm.{check_release}
use fluid_data_table.Base.{
  Bool, true, false, ◌&&◌, none, some, List, [], ◌∷◌, ◌++◌, ◌≡◌, refl, arith, any, if◌then◌else◌,
}
use fluid_data_table.Base.Text.{Text, codes, str_eq, str_eq_refl}
use fluid_data_table.Base.Dict.{lookup}
use fluid_data_table.Base.Result.{Result, ok, err, not_found}
use fluid_data_table.Process.{Machine, Ended}
use fluid_data_table.Helm.{install_args, status_args, uninstall_args, worker_selector}
use fluid_data_table.Helm.Releases.{HelmLaws, reported}
use fluid_data_table.Runtime.Shutdown.{ShutdownApi, destroy_master}
use fluid_data_table.Runtime.Install.{
  setup_master_internal, setup_master_internal-installed, with_helm, destroy_master-installed,
}
use fluid_data_table.Runtime.Install.Selector.{worker_selector-cache_labels}
use fluid_data_table.Runtime.Labels.{label_value_pair}
use fluid_data_table.Schedule.Info.{RuntimeInfo, get_common_label_name}
use fluid_data_table.Schedule.Assign.{NodeApi, cache_labels}
use fluid_data_table.Runtime.Tests.{worker}

-- Releases by name and namespace.
abbrev Releases : Type 0
Releases = List (Text × Text)

abbrev is_release : Text → Text → Text × Text → Bool
is_release name namespace (n, ns) = str_eq n name && str_eq ns namespace

abbrev has_release : Text → Text → Releases → Bool
has_release name namespace s = any (is_release name namespace) s

without : Text → Text → Releases → Releases
without name namespace [] = []
without name namespace (r ∷ s) =
    let rest = without name namespace s in if is_release name namespace r then rest else r ∷ rest

has_release-without :
    (name namespace : Text) (s : Releases)
    → has_release name namespace (without name namespace s) ≡ false
unfolding without
has_release-without name namespace [] = refl
has_release-without name namespace ((n, ns) ∷ s) =
    ground (arith, has_release-without name namespace s)

abbrev done : Result Ended
done = reported true [] not_found

-- `status` and `uninstall` have four arguments, and `install` more.
abbrev run_helm : Text → List Text → Releases → Result Ended × Releases
run_helm program (command ∷ name ∷ flag ∷ namespace ∷ []) s =
    if str_eq command (codes "status")
    then (reported (has_release name namespace s) [] not_found, s)
    else (done, without name namespace s)
run_helm program (command ∷ name ∷ flag ∷ values ∷ flag1 ∷ namespace ∷ more) s =
    (done, (name, namespace) ∷ s)
run_helm program [] s = (err not_found, s)
run_helm program (a ∷ []) s = (err not_found, s)
run_helm program (a ∷ b ∷ []) s = (err not_found, s)
run_helm program (a ∷ b ∷ c ∷ []) s = (err not_found, s)
run_helm program (a ∷ b ∷ c ∷ d ∷ e ∷ []) s = (err not_found, s)

abbrev machine : Machine Releases
machine = record {
  look_path = λ program s. ok (codes "/usr/bin/helm");
  stat = λ file s. none;
  is_not_exist = λ e. false;
  run = run_helm;
  temp_file = λ dir pattern s. (ok pattern, s);
  write_file = λ file text s. (none, s);
}

installs :
    (name namespace chart engine : Text) (s : Releases)
    → has_release name namespace
        (run_helm (codes "/usr/bin/helm") (install_args name namespace chart engine) s).1
      ≡ true
unfolding install_args
installs name namespace chart engine s = ground (arith, str_eq_refl name, str_eq_refl namespace)

uninstalls :
    (name namespace : Text) (s : Releases)
    → has_release name namespace
        (run_helm (codes "/usr/bin/helm") (uninstall_args name namespace) s).1
      ≡ false
unfolding str_eq
uninstalls name namespace s = has_release-without name namespace s

reads_status :
    (name namespace : Text) (s : Releases)
    → run_helm (codes "helm") (status_args name namespace) s
      ≡ (reported (has_release name namespace s) [] not_found, s)
unfolding str_eq
reads_status name namespace s = refl

laws : HelmLaws machine has_release
laws = record {
  helm = codes "/usr/bin/helm";
  text = λ name namespace s. [];
  no_release = not_found;
  found = λ s. refl;
  status = reads_status;
  install = λ name namespace chart engine s h. installs name namespace chart engine s;
  uninstall = λ name namespace s h. uninstalls name namespace s;
}

abbrev hbase : Text
hbase = codes "hbase"

abbrev default : Text
default = codes "default"

setup_master_internal-installed_example :
    (has_release hbase default ((hbase, default) ∷ []) ≡ true)
    × (setup_master_internal machine (λ s. ok hbase) hbase default ((hbase, default) ∷ [])
        ≡ (none, (hbase, default) ∷ []))
unfolding setup_master_internal check_release read_status str_eq install_release missing_chart
    has_prefix install_args
setup_master_internal-installed_example =
    setup_master_internal-installed laws (λ s. ok hbase) hbase default [] ((hbase, default) ∷ [])
      hbase hbase refl refl refl

abbrev nodes : NodeApi Releases
nodes = record {
  list_nodes = λ s. (ok [], s);
  parse_selector = λ key. none;
  list_labelled = λ key s. (ok [], s);
  get_node = λ name s. (ok (worker name), s);
  patch_node = λ name patch s. (none, s);
  retry_on_conflict = λ X f. f;
  wait_for_labels = λ name labels s. s;
  bytes_size = λ n. [];
}

abbrev info : RuntimeInfo
info = record {
  name = hbase;
  namespace = default;
  runtime_type = codes "alluxio";
  exclusive = true;
  deprecated_node_label = false;
  levels = [];
}

abbrev api : ShutdownApi Releases
api = record {
  nodes = nodes;
  name = hbase;
  runtime_type = codes "alluxio";
  graceful_shutdown_limits = 5;
  invoke_clean_cache = λ s. (none, s);
  check_release = λ s. (err not_found, s);
  delete_release = λ s. (none, s);
  delete_config_map = λ name s. (none, s);
  get_runtime_info = λ s. (ok info, s);
  get_pvc_mount_nodes = λ s. (ok [], s);
  get_worker_used_capacity = λ s. (none, s);
  sort_slice = λ less ns. ns;
}

destroy_master-installed_example :
    (has_release hbase default [] ≡ false)
    × (destroy_master (with_helm machine hbase default api) [] ≡ (none, []))
unfolding destroy_master check_release read_status str_eq delete_release without
destroy_master-installed_example =
    destroy_master-installed laws hbase default api ((hbase, default) ∷ []) [] refl

worker_selector-cache_labels_example :
    (worker_selector hbase default
      ≡ codes "worker.nodeSelector." ++ (get_common_label_name info ++ codes "=ok"))
    × (lookup (get_common_label_name info) (label_value_pair (cache_labels nodes info []) [])
        ≡ some (some (codes "ok")))
worker_selector-cache_labels_example = worker_selector-cache_labels nodes info refl
