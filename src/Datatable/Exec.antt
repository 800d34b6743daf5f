-- ===== src/Datatable/Exec.antt =====
-- pkg/utils/exec/execInPod.go: Alluxio's command line, run in the pod of the master.
use fluid_data_table.Base.{
  true, false, ◌||◌, Option, none, some, List, [], ◌∷◌, ◌++◌, if◌then◌else◌,
}
use fluid_data_table.Base.Text.{Text, codes, str_eq, contains, split}
use fluid_data_table.Base.Int.{ℤ, pos, negsuc, add64, sub64}
use fluid_data_table.Base.Strconv.{parse_int, fields}
use fluid_data_table.Base.Result.{Error, ok, err, message}
use fluid_data_table.Datatable.World.{
  Env, PodRef, returned, failed, panicked, Prog, pure, ExecResult, exec, exec_checked, continue,
  ◌>>=◌, ◌>>◌,
}

abbrev pub hdfs_master_ip : Text
hdfs_master_ip = codes "210.28.132.15"

abbrev pub warehouse : Text
warehouse = codes "/user/hive/warehouse/"

-- The directory of a schema below the warehouse.
unfoldable pub schema_dir : Text → Text
schema_dir schema_name =
    if str_eq schema_name (codes "default") || str_eq schema_name []
    then []
    else schema_name ++ codes ".db/"

abbrev pub fs : List Text → List Text
fs args = codes "alluxio" ∷ codes "fs" ∷ args

-- The path of a table in Alluxio, and its location in HDFS.
abbrev pub alluxio_path : Text → Text → Text
alluxio_path schema_name name = warehouse ++ (schema_dir schema_name ++ name)

abbrev pub hdfs_location : Text → Text → Text
hdfs_location schema_name name =
    codes "hdfs://" ++ (hdfs_master_ip ++ (codes ":9000" ++ alluxio_path schema_name name))

abbrev pub master_pod : Text → Text → PodRef
master_pod name ns = record {
  pod_name = name ++ codes "-master-0";
  container_name = codes "alluxio-master";
  namespace = ns;
}

-- A size with the error that is returned beside it.
pub record Sized : Type 0 where
  pub size : ℤ
  pub error : Option Error

abbrev pub syntax_error : Error
syntax_error = message (codes "strconv.ParseInt: parsing")

module _ (env : Env) where
  -- initVal
  unfoldable pub init_val : Prog (Unit {0})
  init_val s = elim (env.list_runtimes s.history) [
    | err e ↦ (failed e, s)
    | ok [] ↦ (failed (message (codes "fail to get the alluxio runtime")), s)
    | ok ((name, ns) ∷ _) ↦ (returned tt, record s { exec_pod = master_pod name ns })
  ]

  -- ExecAlluxioFreeSize: with an error the size is 0.
  unfoldable pub exec_alluxio_free_size : PodRef → Prog Sized
  exec_alluxio_free_size pod = do
    used ← exec env pod (fs (codes "getUsedBytes" ∷ []))
    elim used.error [
      | some e ↦ pure (record { size = pos 0; error = some e })
      | none ↦ (elim (parse_int used.stdout) [
        | none ↦ pure (record { size = pos 0; error = some syntax_error })
        | some used_size ↦ (do
          total ← exec env pod (fs (codes "getCapacityBytes" ∷ []))
          elim total.error [
            | some e ↦ pure (record { size = pos 0; error = some e })
            | none ↦ (elim (parse_int total.stdout) [
              | none ↦ pure (record { size = pos 0; error = some syntax_error })
              | some total_size ↦ pure (record { size = sub64 total_size used_size; error = none })
            ])
          ])
      ])
    ]

  -- ExecAlluxioTableUnmount
  unfoldable pub exec_alluxio_table_unmount : PodRef → Text → Text → Prog Text
  exec_alluxio_table_unmount pod schema_name file_name s =
      exec_checked env pod (fs (codes "unmount" ∷ alluxio_path schema_name file_name ∷ []))
        (record s { exec_pod = pod })

  -- ExecAlluxioTableUnmountWithoutInfos
  unfoldable pub exec_alluxio_table_unmount_without_infos : Text → Text → Prog Text
  unfolding exec_alluxio_table_unmount
  exec_alluxio_table_unmount_without_infos schema_name table_name s =
      exec_alluxio_table_unmount s.exec_pod schema_name table_name s

  -- `mkdir` if `ls` says that the directory is not there; errors are dropped.
  unfoldable pub ensure_dir : PodRef → Text → Prog (Unit {0})
  ensure_dir pod dir = do
    above ← exec env pod (fs (codes "ls" ∷ dir ∷ []))
    elim (contains above.stdout (codes "not")) [
      | true ↦ (do exec env pod (fs (codes "mkdir" ∷ dir ∷ [])); pure tt)
      | false ↦ pure tt
    ]

  -- The steps of a mount: is `path` there, is its parent there, mount it.
  unfoldable pub mount_at : Text → Text → Text → Prog (Unit {0})
  unfolding ensure_dir
  mount_at parent path location = do
    pod ← λ s. (returned s.exec_pod, s)
    listed ← exec env pod (fs (codes "ls" ∷ path ∷ []))
    elim (contains listed.stdout (codes "not")) [
      | false ↦ pure tt
      | true ↦ (do
        ensure_dir pod parent
        exec_checked env pod (fs (codes "mount" ∷ path ∷ location ∷ []))
        pure tt)
    ]

  -- ExecAlluxioTablemount: without a pod it looks the pod up, and returns without mounting.
  unfoldable pub exec_alluxio_tablemount : Text → Text → Prog (Unit {0})
  unfolding mount_at
  exec_alluxio_tablemount schema_name table_name s =
      if str_eq s.exec_pod.pod_name []
      then init_val s
      else mount_at (warehouse ++ schema_dir schema_name) (alluxio_path schema_name table_name)
          (hdfs_location schema_name table_name) s

  -- ExecAlluxioPartitionTableUnmount
  unfoldable pub exec_alluxio_partition_table_unmount : Text → Text → Text → Prog Text
  exec_alluxio_partition_table_unmount schema_name table_name partition_name s =
      exec_checked env s.exec_pod
        (fs (
          codes "unmount"
          ∷ alluxio_path schema_name (table_name ++ (codes "/" ++ partition_name))
          ∷ []))
        s

  -- ExecAlluxioPartitionTablemount
  unfoldable pub exec_alluxio_partition_tablemount : Text → Text → Text → Prog (Unit {0})
  unfolding mount_at
  exec_alluxio_partition_tablemount schema_name table_name partition_name s =
      let name : Text = table_name ++ (codes "/" ++ partition_name) in
      if str_eq s.exec_pod.pod_name []
      then init_val s
      else mount_at (alluxio_path schema_name table_name) (alluxio_path schema_name name)
          (hdfs_location schema_name name) s

  -- The lines of `du` after the first: the first field of each is a size. A line without a field
  -- is an index out of range.
  pub sum_sizes : ℤ → List Text → Prog Sized
  sum_sizes total [] s = (returned (record { size = total; error = none }), s)
  sum_sizes total (line ∷ lines) s = elim (fields line) [
    | [] ↦ (panicked, s)
    | word ∷ _ ↦ (elim (parse_int word) [
      | none ↦ (returned (record { size = negsuc 0; error = some syntax_error }), s)
      | some size ↦ sum_sizes (add64 total size) lines s
    ])
  ]

  pub sizes_of_output : List Text → Prog Sized
  unfolding sum_sizes
  sizes_of_output [] = pure (record { size = pos 0; error = none })
  sizes_of_output (_ ∷ []) = pure (record { size = negsuc 0; error = none })
  sizes_of_output (_ ∷ line ∷ lines) = sum_sizes (pos 0) (line ∷ lines)

  table_size_of : Text → Prog Sized
  unfolding sizes_of_output
  table_size_of path s =
      let (r, s') = exec env s.exec_pod (fs (codes "du" ∷ path ∷ [])) s in
      continue r
        (λ (d : ExecResult). elim d.error [
          | some e ↦ pure (record { size = pos 0; error = some e })
          | none ↦ sizes_of_output (split b'\n' d.stdout)
        ])
        s'

  -- ExecTableSize
  unfoldable pub exec_table_size : Text → Text → Prog Sized
  unfolding table_size_of
  exec_table_size schema_name table_name s =
      let path : Text = alluxio_path schema_name table_name in
      if str_eq s.exec_pod.pod_name []
      then (let (r, s') = init_val s in
          elim r [
            | returned _ ↦ table_size_of path s'
            | failed e ↦ (returned (record { size = negsuc 0; error = some e }), s')
            | panicked ↦ (panicked, s')
          ])
      else table_size_of path s
