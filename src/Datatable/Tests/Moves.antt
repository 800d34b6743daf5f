-- ===== src/Datatable/Tests/Moves.antt =====
-- The theorems about moves of tables, applied.
use fluid_data_table.Base.{
  Bool, true, false, some, List, [], ◌∷◌, ◌≡◌, refl, map, ◌⊎◌, if◌then◌else◌,
}
use fluid_data_table.Base.Text.{has_byte, Text, codes, str_eq, split, join, contains}
use fluid_data_table.Base.Strconv.{trim_space}
use fluid_data_table.Base.Result.{Error, Result, ok, message}
use fluid_data_table.Datatable.World.{
  Env, State, returned, failed, panicked, hive_query, update_finalizers, run_query, ◌>>=◌,
}
use fluid_data_table.Datatable.Hive.{
  partition_filter, change_partition_table_url, alter_partition, location_of, has_columns,
  get_suitable_partition, scanned,
}
use fluid_data_table.Datatable.Hive.Moves.{change_partition_table_url_returns}
use fluid_data_table.Datatable.Hive.Partitions.{partition_filter-join}
use fluid_data_table.Datatable.Hive.Selection.{Selection, HasColumns, get_suitable_partition_lem}
use fluid_data_table.Datatable.Schema.{change_schema_url_for_recover}
use fluid_data_table.Datatable.Reconcile.{
  DataTable, finalizer_name, reconcile_datatable, contains_string, remove_string,
  reconcile_datatable_deletion,
}
use fluid_data_table.Datatable.Reconcile.Finalizer.{
  reconcile_datatable_unfinalized, reconcile_datatable_deletion_recovers,
}
use fluid_data_table.Datatable.Tests.{env, pod, start}

-- Alluxio says that the table is not there, and refuses to mount it.
abbrev broken : Env
broken = record env {
  exec_command_in_container = λ h pod command. record {
    stdout = codes "does not exist";
    stderr = [];
    error = some (message (codes "exit 255"));
  };
}

after_use : State
after_use = record { exec_pod = pod; history = hive_query (codes "use tpch") ∷ [] }

abbrev day : Text
day = codes "dt=1"

-- The mount of the partition fails, and the move of the partition returns.
change_partition_table_url_returns_example :
    (s' : State) × (change_partition_table_url broken (codes "tpch") (codes "part") day true start
      ≡ (returned tt, s'))
unfolding partition_filter split run_query join
change_partition_table_url_returns_example =
    change_partition_table_url_returns broken (codes "tpch") (codes "part") day true
      (codes "partition(dt='1')") [] [] start ((run_query broken (codes "use tpch") start).1)
      ((run_query broken
        (alter_partition broken (codes "part") (codes "partition(dt='1')")
          (location_of broken (codes "tpch") (codes "part/dt=1") true))
        (run_query broken (codes "use tpch") start).1).1)
      refl refl refl

-- `show partitions` lists four partitions, and two of them have the text of the column.
abbrev days : List Text
days = codes "dt=1" ∷ codes "dt=2" ∷ codes "dt=10" ∷ codes "dt=3" ∷ []

abbrev four_days : Env
four_days = record env { query = λ h sql. ok (map ok days) }

get_suitable_partition_lem_example :
    (names : List Text) × (get_suitable_partition four_days
        (codes "tpch")
        (codes "part")
        (((codes "dt", codes "1") ∷ []) ∷ [])
        start
      ≡ (
        returned names,
        record start {
          history = hive_query (codes "show partitions part") ∷ hive_query (codes "use tpch") ∷ [];
        },
      ))
    × Selection (HasColumns ((codes "dt", codes "1") ∷ [])) (map trim_space days) names
unfolding run_query
get_suitable_partition_lem_example =
    get_suitable_partition_lem four_days (codes "tpch") (codes "part")
      ((codes "dt", codes "1") ∷ []) [] (map ok days) days start
      (record start { history = hive_query (codes "use tpch") ∷ [] })
      (record start {
        history = hive_query (codes "show partitions part") ∷ hive_query (codes "use tpch") ∷ [];
      })
      refl refl

-- The partition of the tenth day is chosen for the first one.
get_suitable_partition_test :
    (get_suitable_partition four_days
      (codes "tpch")
      (codes "part")
      (((codes "dt", codes "1") ∷ []) ∷ [])
      start).0
    ≡ returned (codes "dt=1" ∷ codes "dt=10" ∷ [])
unfolding get_suitable_partition run_query ◌>>=◌ scanned has_columns contains trim_space str_eq
get_suitable_partition_test = refl

abbrev part_label : Text
part_label = codes "datatable-tpch-part"

abbrev datatable : Bool → DataTable
datatable deleting = record {
  schemas = [];
  intelligent_cache = false;
  labels = (part_label, codes "true") ∷ [];
  finalizers = if deleting then finalizer_name ∷ codes "other" ∷ [] else [];
  generation = 1;
  deleting = deleting;
  status_schemas = 0;
}

reconcile_datatable_unfinalized_example :
    (((reconcile_datatable env (λ f. f) (datatable false) start).1 ≡ start)
      ⊎ (finalizers : List Text) × (contains_string finalizers finalizer_name ≡ true)
        × ((reconcile_datatable env (λ f. f) (datatable false) start).1.history
            ≡ update_finalizers finalizers ∷ []))
unfolding contains_string
reconcile_datatable_unfinalized_example =
    reconcile_datatable_unfinalized env (λ f. f) (datatable false) start refl refl refl

-- The recovery returns, and the finalizer is taken out.
reconcile_datatable_deletion_recovers_example :
    ((s1 : State) × (change_schema_url_for_recover env (λ f. f) (datatable true).labels start
        ≡ (returned tt, s1))
      × ((reconcile_datatable_deletion env (λ f. f) (datatable true) start).1.history
          ≡ update_finalizers (codes "other" ∷ []) ∷ s1.history)
      × (contains_string (codes "other" ∷ []) finalizer_name ≡ false))
    ⊎ (((e : Error) × (s1 : State) × (change_schema_url_for_recover env
              (λ f. f)
              (datatable true).labels
              start
            ≡ (failed e, s1))
          × (reconcile_datatable_deletion env (λ f. f) (datatable true) start ≡ (failed e, s1)))
        ⊎ ((s1 : State) × (change_schema_url_for_recover env (λ f. f) (datatable true).labels start
              ≡ (panicked, s1))
            × (reconcile_datatable_deletion env (λ f. f) (datatable true) start ≡ (panicked, s1))))
unfolding remove_string str_eq
reconcile_datatable_deletion_recovers_example =
    reconcile_datatable_deletion_recovers env (λ f. f) (datatable true) start refl

partition_filter-join_example :
    partition_filter env (codes "dt=1/hour=12") ≡ some (codes "partition(dt='1',hour='12')")
unfolding has_byte join
partition_filter-join_example =
    partition_filter-join env (codes "dt", codes "1") ((codes "hour", codes "12") ∷ [])
      ((refl, refl, refl), ((refl, refl, refl), tt))
