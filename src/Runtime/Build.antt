-- ===== src/Runtime/Build.antt =====
-- Build of pkg/ddc/alluxio/engine.go and getRuntimeInfo of runtime_info.go, with BuildRuntimeInfo and
-- the fuse of RuntimeInfo of pkg/ddc/base/runtime.go.
pub mod Info
use fluid_data_table.Base.{ℕ, Bool, true, false, Option, none, some, List, ◌++◌, map, if◌then◌else◌}
use fluid_data_table.Base.Text.{Text, codes}
use fluid_data_table.Base.Dict.{Dict}
use fluid_data_table.Base.Int.{ℤ}
use fluid_data_table.Base.Result.{Error, Result, ok, err, message, ◌>>=◌}
use fluid_data_table.Schedule.Info.{Level, RuntimeInfo}
use fluid_data_table.Schedule.Tiers.{LevelSpec, CachePath, CacheLevel, convert_to_tieredstore_info}
use fluid_data_table.Alluxio.Names.{has_deprecated_common_labelname}
use fluid_data_table.Alluxio.Names
use fluid_data_table.Runtime.Shutdown.{Channel, nil_channel}
use fluid_data_table.Runtime.Engines.{Request}

-- Fuse, and what SetupFuseDeployMode makes of it: the mode is global, whatever is asked for.
pub record Fuse : Type 0 where
  pub global : Bool
  pub node_selector : Dict Text

unfoldable pub setup_fuse_deploy_mode : Bool → Dict Text → Fuse → Fuse
setup_fuse_deploy_mode global node_selector fuse = record fuse {
  global = true;
  node_selector = node_selector;
}

-- GetFuseDeployMode
abbrev pub get_fuse_deploy_mode : Fuse → Bool × Dict Text
get_fuse_deploy_mode fuse = (fuse.global, fuse.node_selector)

-- The levels of the store as the scheduler sees them.
abbrev pub level_of : CacheLevel → Level
level_of level = record {
  medium_type = level.medium_type;
  quotas = map (λ (p : CachePath). p.quota) level.cache_paths;
}

-- SetDeprecatedNodeLabel
abbrev pub set_deprecated_node_label : Bool → RuntimeInfo → RuntimeInfo
set_deprecated_node_label deprecated info = record info { deprecated_node_label = deprecated }

-- The fields of AlluxioEngine that Build sets.
pub record AlluxioEngine : Type 0 where
  pub name : Text
  pub namespace : Text
  pub runtime_type : Text
  pub graceful_shutdown_limits : ℕ
  pub retry_shutdown : ℕ
  pub metadata_sync_done : Channel
  pub unit_test : Bool
  pub runtime_info : Option RuntimeInfo

-- ctx.Runtime: nil, an AlluxioRuntime or another object.
pub data RuntimeObject : Type 0 where
  no_object alluxio_object other_object : RuntimeObject

-- What Build returns: no engine and an error, or a template engine, also with an error.
pub data Built : Type 0 where
  not_built : Error → Built
  built : Text → AlluxioEngine → Option Error → Built

-- What the engine reads, and EnsureNamespace.
pub record BuildApi (S : Type 0) : Type 0 where
  pub parse_quantity : Text → Option ℤ
  -- Spec.TieredStore of the runtime, and the node selector of the workers
  pub get_tiered_store : S → Result (List LevelSpec)
  pub get_worker_selector : S → Result (Dict Text)
  pub ensure_namespace : Text → S → Option Error × S

unfoldable pub new_engine : Request → AlluxioEngine
new_engine request = record {
  name = request.name;
  namespace = request.namespace;
  runtime_type = request.runtime_type;
  graceful_shutdown_limits = 5;
  retry_shutdown = 0;
  metadata_sync_done = nil_channel;
  unit_test = false;
  runtime_info = none;
}

abbrev pub parse_error : Request → Built
parse_error request =
    not_built (message (codes "engine " ++ (request.name ++ codes " is failed to parse")))

abbrev pub finish_build : {S : Type 0} → Text → AlluxioEngine → Option Error × S → Built × S
finish_build id e (x, s) = (built id e x, s)

module _ {S : Type 0} (api : BuildApi S) where
  -- BuildRuntimeInfo
  unfoldable pub build_runtime_info : Text → Text → Text → List LevelSpec → Result RuntimeInfo
  build_runtime_info name namespace runtime_type tiers =
      convert_to_tieredstore_info api.parse_quantity tiers >>= λ levels. ok (record {
        name = name;
        namespace = namespace;
        runtime_type = runtime_type;
        exclusive = false;
        deprecated_node_label = false;
        levels = map level_of levels;
      })

  abbrev pub with_info : RuntimeInfo → AlluxioEngine → Result RuntimeInfo × AlluxioEngine
  with_info info e = (ok info, record e { runtime_info = some info })

  -- The check for deprecated labels: the engine keeps the info also if it fails.
  unfoldable pub check_deprecated :
      RuntimeInfo → AlluxioEngine → S → Result RuntimeInfo × AlluxioEngine
  check_deprecated info e s =
      elim (has_deprecated_common_labelname (record { name = e.name; namespace = e.namespace })
        (api.get_worker_selector s)) [
          | err x ↦ (err x, record e { runtime_info = some info })
          | ok deprecated ↦ with_info (set_deprecated_node_label deprecated info) e
        ]

  -- getRuntimeInfo
  unfoldable pub get_runtime_info : AlluxioEngine → S → Result RuntimeInfo × AlluxioEngine
  get_runtime_info e s = elim e.runtime_info [
    | some info ↦ (ok info, e)
    | none ↦ (elim (api.get_tiered_store s) [
      | err x ↦ (err x, e)
      | ok tiers ↦ (elim (build_runtime_info e.name e.namespace e.runtime_type tiers) [
        | err x ↦ (err x, e)
        | ok info ↦ if e.unit_test then with_info info e else check_deprecated info e s
      ])
    ])
  ]

  -- Build, of an Alluxio runtime
  unfoldable pub build_engine : Text → Request → S → Built × S
  build_engine id request s =
      let (r, e) = get_runtime_info (new_engine request) s in
      elim r [
        | err x ↦ (
          not_built
              (message (codes "engine " ++ (request.name ++ codes " failed to get runtime info"))),
          s,
        )
        | ok info ↦ finish_build id e (api.ensure_namespace request.namespace s)
      ]

  -- Build
  unfoldable pub build : Text → Request → RuntimeObject → S → Built × S
  build id request no_object s = (parse_error request, s)
  build id request other_object s = (parse_error request, s)
  build id request alluxio_object s = build_engine id request s

-- How CreateEngine uses it: an error counts, whether or not there is an engine.
abbrev pub as_result : {S : Type 0} → Built × S → Result AlluxioEngine × S
as_result (not_built x, s) = (err x, s)
as_result (built id e none, s) = (ok e, s)
as_result (built id e (some x), s) = (err x, s)
