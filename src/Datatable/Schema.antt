-- ===== src/Datatable/Schema.antt =====
-- ChangeSchemaURLForCache and ChangeSchemaURLForRecover of pkg/utils/hive/hiveClient.go: all tables
-- of a schema moved to the cache, and all tables that a DataTable's labels name moved back.
pub mod Recover
use fluid_data_table.Base.{
  ℕ, Bool, true, false, Option, none, some, List, [], ◌∷◌, ◌++◌, leb, ◌&&◌, if◌then◌else◌, is_empty,
  map, not,
}
use fluid_data_table.Base.Text.{Text, codes, str_eq}
use fluid_data_table.Base.Dict.{Dict, insert, lookup}
use fluid_data_table.Base.Result.{Result, ok, err}
use fluid_data_table.Datatable.Label.{
  TableInfo, get_datatable_common_label, get_partition_datatable_common_label,
  get_table_info_from_label,
}
use fluid_data_table.Datatable.World.{
  Env, State, returned, failed, panicked, Prog, pure, panic, attempt, lift, run_query,
  update_labels, record_event, check, ◌>>=◌, ◌>>◌,
}
use fluid_data_table.Datatable.Hive.{
  Table, Schema, change_table_url, change_partition_table_url, get_suitable_partition,
  get_tables_from_schema,
}

module _ (env : Env) where
  -- The loop over the suitable partitions: it goes on after an error, and only the error of the
  -- last partition is looked at when it ends.
  unfoldable pub cache_partitions :
      Text → Text → Result (Unit {0}) → List Text → Prog (Result (Unit {0}))
  cache_partitions schema_name table_name last [] = pure last
  cache_partitions schema_name table_name last (url ∷ urls) = do
    r ← attempt (change_partition_table_url env schema_name table_name url true)
    cache_partitions schema_name table_name r urls

  -- One round of the loop over the tables: the labels that it adds.
  unfoldable pub cache_one : Text → Table → Prog (List Text)
  cache_one schema_name table =
      if is_empty table.column_name
      then (if is_empty table.partition_column
          then (do
            change_table_url env schema_name table.table_name true
            pure (get_datatable_common_label schema_name table.table_name ∷ []))
          else (do
            urls ← get_suitable_partition env schema_name table.table_name table.partition_column
            last ← cache_partitions schema_name table.table_name (ok tt) urls
            lift last
            pure (map (get_partition_datatable_common_label schema_name table.table_name) urls)))
      else pure []

  unfoldable pub cache_tables : Text → List Text → List Table → Prog (List Text)
  cache_tables schema_name labels [] = pure labels
  cache_tables schema_name labels (table ∷ tables) = do
    new ← cache_one schema_name table
    cache_tables schema_name (labels ++ new) tables

  -- The tables of the schema, or all tables if none is named.
  unfoldable pub tables_of : Schema → Prog (List Table)
  tables_of schema =
      if is_empty schema.tables
      then get_tables_from_schema env schema.schema_name
      else pure schema.tables

  -- ChangeSchemaURLForCache
  unfoldable pub change_schema_url_for_cache : Schema → Prog (List Text)
  change_schema_url_for_cache schema = do
    run_query env (codes "use " ++ schema.schema_name)
    tables ← tables_of schema
    cache_tables schema.schema_name [] tables

  -- How many DataTables have the label; a list that fails is read as empty.
  abbrev pub users : Text → State → ℕ
  users label_key s = elim (env.list_datatables s.history label_key) [ ok n ↦ n | err e ↦ 0 ]

  -- The way back of what one label names.
  unfoldable pub recover_table : Option TableInfo → Prog (Unit {0})
  recover_table none = panic
  recover_table (some info) =
      if is_empty info.partition_name
      then change_table_url env info.schema_name info.table_name false
      else change_partition_table_url env info.schema_name info.table_name info.partition_name false

  -- One round of the loop over the labels.
  unfoldable pub recover_label : Text → Text → Prog (Unit {0})
  recover_label label_key label_value s =
      if not (str_eq label_value (codes "true"))
      then (returned tt, s)
      else (elim (env.parse_selector label_key) [
        | some e ↦ (failed e, s)
        | none ↦
            if leb (users label_key s) 1
            then recover_table (get_table_info_from_label label_key) s
            else (returned tt, s)
      ])

  unfoldable pub recover_labels : Dict Text → Prog (Unit {0})
  recover_labels [] = pure tt
  recover_labels ((label_key, label_value) ∷ labels) = do
    recover_label label_key label_value
    recover_labels labels

  -- Every label of the DataTable set to "false".
  abbrev pub cleared : Dict Text → Dict Text → Dict Text
  cleared [] m = m
  cleared ((k, _) ∷ labels) m = cleared labels (insert k (codes "false") m)

  -- reflect.DeepEqual of two maps.
  abbrev pub includes : Dict Text → Dict Text → Bool
  includes m [] = true
  includes m ((k, v) ∷ labels) =
      let rest = includes m labels in
      elim (lookup k m) [ none ↦ false | some w ↦ if str_eq v w then rest else false ]

  abbrev pub same_labels : Dict Text → Dict Text → Bool
  same_labels a b = includes a b && includes b a

  -- The write of the labels, unless nothing changed.
  unfoldable pub write_labels : Bool → Dict Text → Prog (Unit {0})
  write_labels same new s =
      if same
      then (returned tt, s)
      else check (env.update_datatable s.history) (record_event (update_labels new) s)

  -- The function that is retried: it reads the DataTable again. Without it a label is written
  -- through a nil pointer, and in an object without labels through a nil map; with no label there
  -- is nothing to write.
  unfoldable pub clear_labels : Dict Text → Prog (Unit {0})
  clear_labels labels s = elim (env.get_labels s.history) [
    | err e ↦ (elim labels [ [] ↦ (failed e, s) | _ ∷ _ ↦ (panicked, s) ])
    | ok fresh ↦
        if is_empty fresh && not (is_empty labels)
        then (panicked, s)
        else write_labels (same_labels fresh (cleared labels fresh)) (cleared labels fresh) s
  ]

  -- ChangeSchemaURLForRecover, over retry.RetryOnConflict: the error of the last write is dropped.
  unfoldable pub change_schema_url_for_recover :
      (Prog (Unit {0}) → Prog (Unit {0})) → Dict Text → Prog (Unit {0})
  change_schema_url_for_recover retry_on_conflict labels = do
    recover_labels labels
    attempt (retry_on_conflict (clear_labels labels))
    pure tt
