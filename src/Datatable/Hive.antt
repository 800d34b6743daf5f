-- ===== src/Datatable/Hive.antt =====
-- pkg/utils/hive/hiveClient.go: table and partition locations in the Hive metastore.
pub mod Moves
pub mod Partitions
pub mod Selection
pub mod Location
use fluid_data_table.Base.{
  Bool, true, false, not, Option, none, some, List, [], ◌∷◌, ◌++◌, if◌then◌else◌, keep, map,
}
use fluid_data_table.Base.Text.{Text, codes, contains, split, join}
use fluid_data_table.Base.Dict.{Dict}
use fluid_data_table.Base.Int.{negsuc}
use fluid_data_table.Base.Strconv.{format_int, trim_space}
use fluid_data_table.Base.Result.{Result, ok, err}
use fluid_data_table.Datatable.World.{
  Env, Prog, pure, panic, attempt, run_query, check, ◌>>=◌, ◌>>◌,
}
use fluid_data_table.Datatable.Exec.{
  Sized, hdfs_location, alluxio_path, exec_table_size, exec_alluxio_tablemount,
  exec_alluxio_table_unmount_without_infos, exec_alluxio_partition_tablemount,
  exec_alluxio_partition_table_unmount,
}
use fluid_data_table.Datatable.Redis.{add_kv, remove_kv}

abbrev pub alluxio_master_pod_ip : Text
alluxio_master_pod_ip = codes "210.28.132.18"

abbrev pub alluxio_location : Text → Text → Text
alluxio_location schema_name name =
    codes "alluxio://"
    ++ (alluxio_master_pod_ip ++ (codes ":19998" ++ alluxio_path schema_name name))

abbrev pub quoted : Text → Text
quoted s = codes "\"" ++ (s ++ codes "\"")

-- api/v1alpha1/datatable_types.go
pub record Table : Type 0 where
  pub table_name : Text
  pub column_name : List Text
  pub partition_column : List (Dict Text)

pub record Schema : Type 0 where
  pub schema_name : Text
  pub tables : List Table

module _ (env : Env) where
  -- The rows of GetTableSize: the loop only looks for a row that cannot be read.
  unfoldable pub read_rows : List (Result Text) → Sized
  read_rows [] = record { size = negsuc 0; error = none }
  read_rows (ok _ ∷ rows) = read_rows rows
  read_rows (err e ∷ rows) = record { size = negsuc 0; error = some e }

  -- GetTableSize: the rows of a query that failed are nil, and reading them panics.
  unfoldable pub get_table_size : Text → Text → Prog Sized
  unfolding read_rows
  get_table_size schema_name table_name = do
    used ← attempt (run_query env (codes "use " ++ schema_name))
    elim used [
      | err e ↦ pure (record { size = negsuc 0; error = some e })
      | ok _ ↦ (do
        described ← attempt (run_query env (codes "desc formatted " ++ table_name))
        elim described [ err e ↦ panic | ok rows ↦ pure (read_rows rows) ])
    ]

  abbrev pub redis_key : Text → Text → Text
  redis_key schema_name table_name = schema_name ++ (codes "_" ++ table_name)

  abbrev pub alter_table : Text → Text → Text
  alter_table table_name location =
      codes "alter table "
      ++ (table_name ++ (codes " set location " ++ (codes " " ++ quoted location)))

  -- The branch of ChangeTableURL for the cache: mount, measure, and store the size in Redis.
  unfoldable pub cache_table : Text → Text → Prog (Unit {0})
  cache_table schema_name table_name = do
    exec_alluxio_tablemount env schema_name table_name
    measured ← exec_table_size env schema_name table_name
    check measured.error
    add_kv env (redis_key schema_name table_name) (format_int measured.size)

  -- The branch for the way back: unmount, whose error is dropped, and forget the size.
  unfoldable pub uncache_table : Text → Text → Prog (Unit {0})
  uncache_table schema_name table_name = do
    attempt (exec_alluxio_table_unmount_without_infos env schema_name table_name)
    remove_kv env (redis_key schema_name table_name)

  abbrev pub table_sql : Text → Text → Bool → Text
  table_sql schema_name table_name true =
      trim_space (alter_table table_name (alluxio_location schema_name table_name))
  table_sql schema_name table_name false =
      alter_table table_name (hdfs_location schema_name table_name)

  abbrev pub move_table : Text → Text → Bool → Prog (Unit {0})
  move_table schema_name table_name true = cache_table schema_name table_name
  move_table schema_name table_name false = uncache_table schema_name table_name

  -- ChangeTableURL
  unfoldable pub change_table_url : Text → Text → Bool → Prog (Unit {0})
  change_table_url schema_name table_name to_cache = do
    run_query env (codes "use " ++ schema_name)
    move_table schema_name table_name to_cache
    run_query env (table_sql schema_name table_name to_cache)
    pure tt

  -- `rs.Scan` into one variable whose error is dropped: a failed scan leaves the last line.
  unfoldable pub scanned : Text → List (Result Text) → List Text
  scanned line [] = []
  scanned line (ok l ∷ rows) = l ∷ scanned l rows
  scanned line (err e ∷ rows) = line ∷ scanned line rows

  abbrev pub plain_table : Text → Table
  plain_table name = record { table_name = name; column_name = []; partition_column = [] }

  -- GetTablesFromSchema: the rows of a query that failed are nil, and reading them panics.
  unfoldable pub get_tables_from_schema : Text → Prog (List Table)
  unfolding scanned
  get_tables_from_schema schema_name = do
    run_query env (codes "use " ++ schema_name)
    shown ← attempt (run_query env (codes "show tables"))
    elim shown [ err e ↦ panic | ok rows ↦ pure (map plain_table (scanned [] rows)) ]

  -- Whether a line of `show partitions` has every `k=v` of a partition.
  unfoldable pub has_columns : Text → Dict Text → Bool
  has_columns line [] = true
  has_columns line ((k, v) ∷ columns) =
      if not (contains line (k ++ (codes "=" ++ v))) then false else has_columns line columns

  -- The loop over the wanted partitions leaves after the first one, whatever the test says.
  abbrev pub line_is_suitable : Text → List (Dict Text) → Bool
  line_is_suitable line [] = false
  line_is_suitable line (columns ∷ _) = has_columns line columns

  -- GetSuitablePartition
  unfoldable pub get_suitable_partition : Text → Text → List (Dict Text) → Prog (List Text)
  unfolding scanned has_columns
  get_suitable_partition schema_name table_name partition_names = do
    run_query env (codes "use " ++ schema_name)
    rows ← run_query env (codes "show partitions " ++ table_name)
    pure (keep (λ line. line_is_suitable line partition_names) (map trim_space (scanned [] rows)))

  -- `k=v` as `k='v'`; without an equals sign an index is out of range.
  unfoldable pub partition_kv : Text → Option Text
  partition_kv p = elim (split b'=' p) [
    | [] ↦ none
    | k ∷ rest ↦ (elim rest [ [] ↦ none | v ∷ _ ↦ some (k ++ (codes "='" ++ (v ++ codes "'"))) ])
  ]

  unfoldable pub filter_parts : List Text → Option (List Text)
  unfolding partition_kv
  filter_parts [] = some []
  filter_parts (p ∷ ps) = elim (partition_kv p) [
    | none ↦ none
    | some kv ↦ (elim (filter_parts ps) [ none ↦ none | some kvs ↦ some (kv ∷ kvs) ])
  ]

  -- The clause `partition(k='v',...)` of a partition `k=v/...`.
  unfoldable pub partition_filter : Text → Option Text
  unfolding filter_parts
  partition_filter partition_name = elim (filter_parts (split b'/' partition_name)) [
    | none ↦ none
    | some kvs ↦ some (codes "partition(" ++ (join (codes ",") kvs ++ codes ")"))
  ]

  abbrev pub location_of : Text → Text → Bool → Text
  location_of schema_name name true = alluxio_location schema_name name
  location_of schema_name name false = hdfs_location schema_name name

  abbrev pub alter_partition : Text → Text → Text → Text
  alter_partition table_name filter location =
      codes "alter table "
      ++ (table_name
          ++ (codes " " ++ (filter ++ (codes " set location " ++ (codes " " ++ quoted location)))))

  -- The mount or unmount of a partition, whose error is dropped.
  abbrev pub move_partition : Text → Text → Text → Bool → Prog (Unit {0})
  move_partition schema_name table_name partition_name true = do
    attempt (exec_alluxio_partition_tablemount env schema_name table_name partition_name)
    pure tt
  move_partition schema_name table_name partition_name false = do
    attempt (exec_alluxio_partition_table_unmount env schema_name table_name partition_name)
    pure tt

  -- ChangePartitionTableURL
  unfoldable pub change_partition_table_url : Text → Text → Text → Bool → Prog (Unit {0})
  change_partition_table_url schema_name table_name partition_name to_cache = do
    run_query env (codes "use " ++ schema_name)
    elim (partition_filter partition_name) [
      | none ↦ panic
      | some filter ↦ (do
        run_query env (
            alter_partition table_name filter
              (location_of schema_name (table_name ++ (codes "/" ++ partition_name)) to_cache))
        move_partition schema_name table_name partition_name to_cache)
    ]
