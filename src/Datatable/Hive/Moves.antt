-- ===== src/Datatable/Hive/Moves.antt =====
-- What ChangeTableURL and ChangePartitionTableURL of pkg/utils/hive/hiveClient.go leave behind.
use fluid_data_table.Base.{Bool, true, false, none, some, List, [], ◌∷◌, ◌++◌, ◌≡◌, refl, arith}
use fluid_data_table.Base.Text.{Text, codes}
use fluid_data_table.Base.Result.{Error, Result}
use fluid_data_table.Datatable.World.{
  Env, State, hive_query, redis_del, exec_command, returned, failed, panicked, run_query, exec,
  exec_checked, ◌>>=◌,
}
use fluid_data_table.Datatable.World.Laws.{attempt_returned}
use fluid_data_table.Datatable.Exec.{
  exec_alluxio_table_unmount, exec_alluxio_table_unmount_without_infos, exec_alluxio_tablemount,
  exec_table_size, init_val, mount_at, ensure_dir, Sized, exec_alluxio_partition_tablemount,
  exec_alluxio_partition_table_unmount, fs, alluxio_path,
}
use fluid_data_table.Datatable.Redis.{remove_kv}
use fluid_data_table.Datatable.Hive.{
  cache_table, uncache_table, change_table_url, table_sql, redis_key, change_partition_table_url,
  partition_filter, alter_partition, location_of,
}

module _ (env : Env) where
  -- The way back of a table that succeeds is these four calls, in this order: the schema is
  -- chosen, the table is unmounted, its size is forgotten, and its location is set to HDFS.
  pub change_table_url_back :
      (schema_name table_name : Text) (s s' : State)
      → change_table_url env schema_name table_name false s ≡ (returned tt, s')
      → s'.history
        ≡ hive_query (table_sql env schema_name table_name false)
          ∷ redis_del (redis_key env schema_name table_name)
          ∷ exec_command s.exec_pod
              (fs (codes "unmount" ∷ alluxio_path schema_name table_name ∷ []))
          ∷ hive_query (codes "use " ++ schema_name)
          ∷ s.history
  unfolding change_table_url ◌>>=◌ run_query uncache_table remove_kv
      exec_alluxio_table_unmount_without_infos exec_alluxio_table_unmount exec_checked exec
  change_table_url_back schema_name table_name s s' h = ground arith

  -- A table that was measured: the mount of the table returned before, and Alluxio's size of the
  -- directory was read without an error.
  abbrev pub IsMeasured : Text → Text → State → Sized → State → Type 0
  IsMeasured schema_name table_name s d s' =
      (s1 : State) × (exec_alluxio_tablemount env schema_name table_name s ≡ (returned tt, s1))
      × (exec_table_size env schema_name table_name s1 ≡ (returned d, s'))
      × (d.error ≡ none)

  -- A mount that fails ends the move to the cache: nothing is measured or stored, and the location
  -- of the table stays as it was.
  pub change_table_url_unmounted :
      (schema_name table_name : Text) (rows : List (Result Text)) (s s1 s2 : State) (e : Error)
      → run_query env (codes "use " ++ schema_name) s ≡ (returned rows, s1)
      → exec_alluxio_tablemount env schema_name table_name s1 ≡ (failed e, s2)
      → change_table_url env schema_name table_name true s ≡ (failed e, s2)
  unfolding change_table_url ◌>>=◌ cache_table
  change_table_url_unmounted schema_name table_name rows s s1 s2 e h1 h2 = rw h1 (rw h2 refl)

  mount_not_panicked :
      (parent path location : Text) (s : State)
      → ¬ ((mount_at env parent path location s).0 ≡ panicked)
  unfolding mount_at ensure_dir exec exec_checked ◌>>=◌
  mount_not_panicked parent path location s e = ground arith

  tablemount_not_panicked :
      (schema_name table_name partition_name : Text) (s : State)
      → ¬ (
          (exec_alluxio_partition_tablemount env schema_name table_name partition_name s).0
          ≡ panicked)
  unfolding exec_alluxio_partition_tablemount init_val
  tablemount_not_panicked schema_name table_name partition_name s e =
      grind (arith, mount_not_panicked)

  unmount_not_panicked :
      (schema_name table_name partition_name : Text) (s : State)
      → ¬ (
          (exec_alluxio_partition_table_unmount env schema_name table_name partition_name s).0
          ≡ panicked)
  unfolding exec_alluxio_partition_table_unmount exec exec_checked ◌>>=◌
  unmount_not_panicked schema_name table_name partition_name s e = ground arith

  -- Whether a partition is moved does not depend on Alluxio: with a partition name that can be read,
  -- and two queries that Hive answers, the code returns without an error, whatever the mount or the
  -- unmount does.
  pub change_partition_table_url_returns :
      (schema_name table_name partition_name : Text) (to_cache : Bool) (filter : Text)
      (r1 r2 : List (Result Text)) (s s1 s2 : State)
      → partition_filter env partition_name ≡ some filter
      → run_query env (codes "use " ++ schema_name) s ≡ (returned r1, s1)
      → run_query env
          (alter_partition env table_name filter
            (location_of env schema_name (table_name ++ (codes "/" ++ partition_name)) to_cache))
          s1
        ≡ (returned r2, s2)
      → (s' : State) × (change_partition_table_url env schema_name table_name partition_name
            to_cache s
          ≡ (returned tt, s'))
  unfolding change_partition_table_url ◌>>=◌
  change_partition_table_url_returns schema_name table_name partition_name true filter r1 r2 s s1 s2
        hf h1 h2 =
      rw h1 (
        rw hf (
          rw h2 (
            (exec_alluxio_partition_tablemount env schema_name table_name partition_name s2).1,
            attempt_returned
                (exec_alluxio_partition_tablemount env schema_name table_name partition_name) s2
                (tablemount_not_panicked schema_name table_name partition_name s2),
          )))
  change_partition_table_url_returns schema_name table_name partition_name false filter r1 r2 s s1
        s2 hf h1 h2 =
      rw h1 (
        rw hf (
          rw h2 (
            (exec_alluxio_partition_table_unmount env schema_name table_name partition_name s2).1,
            attempt_returned
                (exec_alluxio_partition_table_unmount env schema_name table_name partition_name) s2
                (unmount_not_panicked schema_name table_name partition_name s2),
          )))
