-- ===== src/Runtime/Tests/Build.antt =====
-- An engine that is built, stored and found again.
use fluid_data_table.Runtime.Engines.{generate_engine_id}
use fluid_data_table.Base.Dict.{insert}
use fluid_data_table.Runtime.Engines.{create_engine}
use fluid_data_table.Alluxio.Names.{has_deprecated_common_labelname}
use fluid_data_table.Schedule.Tiers.{convert_to_tieredstore_info}
use fluid_data_table.Runtime.Build.{build_runtime_info}
use fluid_data_table.Alluxio.Names.{has_deprecated_common_labelname}
use fluid_data_table.Runtime.Build.{check_deprecated}
use fluid_data_table.Schedule.Tiers.{convert_to_tieredstore_info}
use fluid_data_table.Runtime.Build.{build_runtime_info}
use fluid_data_table.Runtime.Build.{build_engine}
use fluid_data_table.Base.{Bool, true, false, none, some, [], ◌∷◌, ◌≡◌, refl, if◌then◌else◌}
use fluid_data_table.Base.Text.{Text, codes, str_eq}
use fluid_data_table.Base.Dict.{lookup}
use fluid_data_table.Base.Result.{ok, err, message, not_found}
use fluid_data_table.Schedule.Info.{RuntimeInfo}
use fluid_data_table.Runtime.Engines.{Request, get_or_create_engine}
use fluid_data_table.Runtime.Engines.Reach.{IsOwn, created, Reach, here, next, Reach-IsOwn}
use fluid_data_table.Runtime.Build.{
  AlluxioEngine, alluxio_object, BuildApi, get_runtime_info, new_engine, build,
}
use fluid_data_table.Runtime.Build.Info.{IsInfoOf, build-IsInfoOf}

abbrev hbase : Text
hbase = codes "hbase"

abbrev default : Text
default = codes "default"

-- A cluster whose state is whether the workers can be read.
abbrev building : BuildApi Bool
building = record {
  parse_quantity = λ t. none;
  get_tiered_store = λ s. ok [];
  get_worker_selector = λ s. if s then err not_found else err (message (codes "timeout"));
  ensure_namespace = λ name s. (none, s);
}

abbrev request : Request
request = record { namespace = default; name = hbase; runtime_type = codes "alluxio" }

abbrev plain : RuntimeInfo
plain = record {
  name = hbase;
  namespace = default;
  runtime_type = codes "alluxio";
  exclusive = false;
  deprecated_node_label = false;
  levels = [];
}

abbrev engine : AlluxioEngine
engine = record (new_engine request) { runtime_info = some plain }

build-IsInfoOf_example :
    (i : RuntimeInfo) × IsInfoOf hbase default (codes "alluxio") i
    × (get_runtime_info building engine false ≡ (ok i, engine))
unfolding build build_engine get_runtime_info new_engine build_runtime_info
    convert_to_tieredstore_info check_deprecated has_deprecated_common_labelname
build-IsInfoOf_example =
    build-IsInfoOf building (codes "default-hbase") (codes "default-hbase") request alluxio_object
      engine none true true false refl

-- The map with the one engine.
reached : Reach building [] true ((codes "default-hbase", engine) ∷ []) true
unfolding get_or_create_engine lookup create_engine str_eq build build_engine get_runtime_info
    new_engine build_runtime_info convert_to_tieredstore_info check_deprecated
    has_deprecated_common_labelname insert generate_engine_id
reached = next here (created request alluxio_object (ok engine) refl)

Reach-IsOwn_example : IsOwn (codes "default-hbase") engine
unfolding lookup str_eq
Reach-IsOwn_example =
    Reach-IsOwn building ((codes "default-hbase", engine) ∷ []) true true (codes "default-hbase")
      engine reached refl
