-- ===== src/Alluxio/Operations.antt =====
-- pkg/ddc/alluxio/operations: the operations that run a command and do not read its output further.
use fluid_data_table.Base.{
  Bool, true, false, Option, none, some, List, [], ◌∷◌, ◌++◌, ◌≡◌, arith, if◌then◌else◌,
}
use fluid_data_table.Base.Text.{Text, codes, contains, trim_prefix}
use fluid_data_table.Base.Dict.{Dict}
use fluid_data_table.Base.Result.{message}
use fluid_data_table.Datatable.World.{Outcome, returned, failed}
use fluid_data_table.Alluxio.Shell.{Pod, Reply, exec, exec_without_timeout, exec_error, on_success}

-- KeyOfMetaDataFile; any other key is its text.
pub data MetaDataKey : Type 0 where
  dataset_name namespace_key ufs_total file_num : MetaDataKey
  other_key : Text → MetaDataKey

abbrev pub key_text : MetaDataKey → Text
key_text dataset_name = codes "dataset"
key_text namespace_key = codes "namespace"
key_text ufs_total = codes "ufstotal"
key_text file_num = codes "filenum"
key_text (other_key k) = k

abbrev pub key_line : MetaDataKey → Text
key_line dataset_name = codes "1p"
key_line namespace_key = codes "2p"
key_line ufs_total = codes "3p"
key_line file_num = codes "4p"
key_line (other_key k) = []

-- The `--option` arguments of Mount, in the order in which the map is gone through.
unfoldable pub mount_options : Dict Text → List Text
mount_options [] = []
mount_options ((key, value) ∷ options) =
    codes "--option" ∷ (key ++ (codes "=" ++ value)) ∷ mount_options options

-- The command of Mount
unfoldable pub mount_command : Text → Text → Dict Text → Bool → Bool → List Text
mount_command alluxio_path ufs_path options read_only shared =
    (codes "alluxio" ∷ codes "fs" ∷ codes "mount" ∷ [])
    ++ ((if read_only then codes "--readonly" ∷ [] else [])
        ++ ((if shared then codes "--shared" ∷ [] else [])
            ++ (mount_options options ++ (alluxio_path ∷ ufs_path ∷ []))))

module _ {S : Type 0} (pod : Pod S) where
  abbrev pub run : {A : Type 0} → List Text → (Text → Outcome A) → S → Outcome A × S
  run command next s = let (r, s1) = exec pod command s in (on_success command r next, s1)

  abbrev pub run_without_timeout : {A : Type 0} → List Text → (Text → Outcome A) → S → Outcome A × S
  run_without_timeout command next s =
      let (r, s1) = exec_without_timeout pod command s in (on_success command r next, s1)

  abbrev pub nothing : Text → Outcome (Unit {0})
  nothing stdout = returned tt

  -- IsExist
  unfoldable pub is_exist : Text → S → Outcome Bool × S
  is_exist path s =
      let command = codes "alluxio" ∷ codes "fs" ∷ codes "ls" ∷ path ∷ [] in
      let (r, s1) = exec pod command s in
      (
        elim r.error [
          | none ↦ returned true
          | some e ↦
              if contains r.stdout (codes "does not exist")
              then returned false
              else failed (exec_error command e r)
        ],
        s1,
      )

  -- ReportSummary, ReportMetrics and ReportCapacity
  unfoldable pub report_summary : S → Outcome Text × S
  report_summary =
      run (codes "alluxio" ∷ codes "fsadmin" ∷ codes "report" ∷ codes "summary" ∷ []) returned

  unfoldable pub report_metrics : S → Outcome Text × S
  report_metrics =
      run (codes "alluxio" ∷ codes "fsadmin" ∷ codes "report" ∷ codes "metrics" ∷ []) returned

  unfoldable pub report_capacity : S → Outcome Text × S
  report_capacity =
      run (codes "alluxio" ∷ codes "fsadmin" ∷ codes "report" ∷ codes "capacity" ∷ []) returned

  -- LoadMetadataWithoutTimeout
  unfoldable pub load_metadata_without_timeout : Text → S → Outcome (Unit {0}) × S
  load_metadata_without_timeout path =
      run_without_timeout
        (codes "alluxio" ∷ codes "fs" ∷ codes "loadMetadata" ∷ codes "-R" ∷ path ∷ []) nothing

  -- LoadMetaData
  unfoldable pub load_meta_data : Text → Bool → S → Outcome (Unit {0}) × S
  load_meta_data path sync =
      run
        (if sync
          then codes "alluxio"
            ∷ codes "fs"
            ∷ codes "-Dalluxio.user.file.metadata.sync.interval=0"
            ∷ codes "ls"
            ∷ codes "-R"
            ∷ path
            ∷ []
          else codes "alluxio" ∷ codes "fs" ∷ codes "ls" ∷ codes "-R" ∷ path ∷ [])
        nothing

  -- QueryMetaDataInfoIntoFile: an unknown key is logged, and the command runs without a line number.
  unfoldable pub query_meta_data_info : MetaDataKey → Text → S → Outcome Text × S
  query_meta_data_info key filename =
      run
        (codes "bash"
          ∷ codes "-c"
          ∷ (codes "sed -n '" ++ (key_line key ++ (codes "' " ++ filename)))
          ∷ [])
        λ stdout. returned (trim_prefix stdout (key_text key ++ codes ": "))

  -- Mkdir
  unfoldable pub mkdir : Text → S → Outcome (Unit {0}) × S
  mkdir path = run (codes "alluxio" ∷ codes "fs" ∷ codes "mkdir" ∷ path ∷ []) nothing

  -- Mount
  unfoldable pub mount : Text → Text → Dict Text → Bool → Bool → S → Outcome (Unit {0}) × S
  mount alluxio_path ufs_path options read_only shared =
      run (mount_command alluxio_path ufs_path options read_only shared) nothing

  -- UnMount
  unfoldable pub un_mount : Text → S → Outcome (Unit {0}) × S
  un_mount path = run (codes "alluxio" ∷ codes "fs" ∷ codes "unmount" ∷ path ∷ []) nothing

  -- Ready
  unfoldable pub ready : S → Bool × S
  ready s =
      let (r, s1) = exec pod (codes "alluxio" ∷ codes "fsadmin" ∷ codes "report" ∷ []) s in
      (elim r.error [ none ↦ true | some e ↦ false ], s1)

  -- GetConf, of conf.go
  unfoldable pub get_conf : Text → S → Outcome Text × S
  get_conf key = run (codes "alluxio" ∷ codes "getConf" ∷ key ∷ []) returned

  -- SyncLocalDir, of local.go
  unfoldable pub sync_local_dir : Text → S → Outcome (Unit {0}) × S
  sync_local_dir path = run_without_timeout (codes "du" ∷ codes "-sh" ∷ path ∷ []) nothing

  abbrev pub issue_command : List Text
  issue_command = codes "cat" ∷ codes "/etc/issue" ∷ []

  -- The command that frees the cache, by the release that runs in the pod.
  abbrev pub free_command : Text → Text → Option (List Text)
  free_command release path =
      let free =
        codes "60" ∷ codes "alluxio" ∷ codes "fs" ∷ codes "free" ∷ codes "-f" ∷ path ∷ [] in
      if contains release (codes "Ubuntu")
      then some (codes "timeout" ∷ free)
      else if contains release (codes "Alpine")
      then some (codes "timeout" ∷ codes "-t" ∷ free)
      else none

  -- CleanCache, of cached.go
  unfoldable pub clean_cache : Text → S → Outcome (Unit {0}) × S
  clean_cache path s =
      let (r, s1) = exec pod issue_command s in
      elim r.error [
        | some e ↦ (failed (exec_error issue_command e r), s1)
        | none ↦ (elim (free_command r.stdout path) [
          | none ↦ (failed (message (codes "unknow release version for linux")), s1)
          | some command ↦ run command nothing s1
        ])
      ]

  -- A command that succeeds in time: its output is read.
  pub run_succeeds :
      {A : Type 0} (command : List Text) (next : Text → Outcome A) (r : Reply) (s s1 : S)
      → exec pod command s ≡ (r, s1)
      → r.error ≡ none
      → run command next s ≡ (next r.stdout, s1)
  run_succeeds command next r s s1 e f = ground arith
