-- ===== src/Datatable/Tests.antt =====
-- A small cluster on which the theorems about the table controller are applied.
pub mod Moves
pub mod Labels
use fluid_data_table.Base.{
  ◌+◌, ◌<◌, Bool, true, false, none, some, List, [], ◌∷◌, ◌≡◌, refl, arith, All, ◌⊎◌, inr, ◌↔◌, not,
  ◌&&◌, if◌then◌else◌, keep,
}
use fluid_data_table.Base.Text.{Text, codes, str_eq, split, join, has_byte, contains}
use fluid_data_table.Base.Int.{ℤ, pos, negsuc, ltb_ℤ, ◌≤ℤ◌, sub64, ◌-ℤ◌, add64, ◌+ℤ◌}
use fluid_data_table.Base.Strconv.{parse_int, parse_int_value, format_int, trim_space}
use fluid_data_table.Base.Result.{ok, err, message, conflict}
use fluid_data_table.Datatable.World.{
  Env, State, returned, failed, PodRef, hive_query, exec_command, redis_set, redis_del,
  update_finalizers, run_query, exec, exec_checked, ◌>>=◌, ◌>>◌, attempt,
}
use fluid_data_table.Datatable.Exec.{
  exec_alluxio_free_size, fs, alluxio_path, exec_alluxio_tablemount, mount_at, ensure_dir,
  exec_alluxio_table_unmount_without_infos, exec_alluxio_table_unmount, exec_table_size,
}
use fluid_data_table.Datatable.Redis.{get_value, is_exist_in_alluxio, get_size, add_kv, remove_kv}
use fluid_data_table.Datatable.Admission.{tables_to_free, make_room, eviction_loop}
use fluid_data_table.Datatable.Admission.Eviction.{
  before, occurs, freed, shortest, chosen_of, tables_to_free-eq, tables_to_free-All,
  tables_to_free_minimal,
}
use fluid_data_table.Datatable.Admission.Space.{make_room_never_evicts}
use fluid_data_table.Datatable.Hive.{
  get_table_size, read_rows, change_table_url, table_sql, redis_key, uncache_table, cache_table,
  partition_filter, change_partition_table_url, alter_partition, location_of, has_columns,
  get_suitable_partition, scanned,
}
use fluid_data_table.Datatable.Hive.Moves.{
  change_table_url_back, change_table_url_unmounted, change_partition_table_url_returns,
}
use fluid_data_table.Datatable.Hive.Partitions.{partition_filter-join}
use fluid_data_table.Datatable.Label.{
  get_table_info_from_label, get_datatable_common_label, get_partition_datatable_common_label, dash,
}
use fluid_data_table.Datatable.Label.RoundTrip.{
  get_table_info-get_datatable_common_label, get_table_info-get_partition_datatable_common_label,
  get_table_info_of_dashed_partition, get_table_info_panics, count_byte,
}
use fluid_data_table.Datatable.Schema.{
  recover_labels, recover_label, recover_table, change_schema_url_for_recover, cache_partitions,
}
use fluid_data_table.Datatable.Schema.Recover.{
  change_schema_url_for_recover_fails, change_schema_url_for_recover_drops_error,
  cache_partitions-append,
}
use fluid_data_table.Datatable.Reconcile.{
  DataTable, finalizer_name, reconcile_datatable, contains_string, remove_string,
  reconcile_datatable_deletion, write_finalizers, no_requeue,
}
use fluid_data_table.Datatable.Reconcile.Finalizer.{
  reconcile_datatable_unfinalized, contains_string-remove_string,
}

abbrev own : Text
own = codes "tpch_orders"

-- Redis ranks two cached tables of 40 bytes below the table itself.
abbrev pub env : Env
env = record {
  query = λ h sql. ok [];
  exec_command_in_container =
      λ h pod command. record { stdout = codes "100"; stderr = []; error = none };
  zrank = λ h member. true;
  zrange = λ h. codes "tpch_part" ∷ codes "tpch_nation" ∷ own ∷ [];
  exists_key = λ h key. if str_eq key own then 0 else 1;
  get_key = λ h key. codes "40";
  set_key = λ h key value. none;
  del_key = λ h key. none;
  list_runtimes = λ h. ok ((codes "alluxio", codes "default") ∷ []);
  parse_selector = λ key. none;
  list_datatables = λ h key. ok 2;
  get_labels = λ h. ok [];
  update_datatable = λ h. none;
  same_schemas = λ h. true;
  generation = λ h. 1;
  connect = λ h. none;
  close_panics = λ h. true;
}

abbrev pub pod : PodRef
pod = record {
  pod_name = codes "alluxio-master-0";
  container_name = codes "alluxio-master";
  namespace = codes "default";
}

abbrev pub start : State
start = record { exec_pod = pod; history = [] }

-- With 30 bytes left, both tables go for one of 100 bytes, and only the first for one of 50.
room_tests :
    (tables_to_free env own (pos 100) (pos 30) start ≡ codes "tpch_part" ∷ codes "tpch_nation" ∷ [])
    × (tables_to_free env own (pos 50) (pos 30) start ≡ codes "tpch_part" ∷ [])
    × (tables_to_free env own (pos 500) (pos 30) start ≡ [])
unfolding tables_to_free eviction_loop add64 parse_int_value str_eq ◌+ℤ◌
room_tests = (refl, refl, refl)

tables_to_free-eq_example : tables_to_free env own (pos 100) (pos 30) start ≡ (
    if ltb_ℤ (pos 100) (pos 30)
    then []
    else chosen_of
        (shortest
          (λ t. get_size env t start)
          (pos 100)
          (pos 30)
          (keep (λ t. is_exist_in_alluxio env t start) (before own (get_value env start))))
        (occurs own (get_value env start))
        (keep (λ t. is_exist_in_alluxio env t start) (before own (get_value env start)))
        [])
tables_to_free-eq_example = tables_to_free-eq env own start (pos 100) (pos 30)

make_room_never_evicts_example : make_room env pod (codes "tpch") (codes "orders") start ≡ (
  returned tt,
  (exec_alluxio_free_size env pod (get_table_size env (codes "tpch") (codes "orders") start).1).1,
)
unfolding get_table_size read_rows run_query exec_alluxio_free_size exec ◌>>=◌ parse_int sub64 ◌-ℤ◌
make_room_never_evicts_example =
    make_room_never_evicts env pod (codes "tpch") (codes "orders") start
      ((get_table_size env (codes "tpch") (codes "orders") start).1)
      ((exec_alluxio_free_size env pod
        (get_table_size env (codes "tpch") (codes "orders") start).1).1)
      (record { size = negsuc 0; error = none }) (record { size = pos 0; error = none }) 0 refl refl
      refl
