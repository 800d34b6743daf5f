-- ===== src/Schedule/Info.antt =====
-- What the scheduler knows of a runtime: pkg/ddc/base/label.go, pkg/utils/tieredstore and the
-- exclusive label of pkg/utils/excluisve.go. Quantities are whole numbers of bytes, which
-- may be negative.
use fluid_data_table.Base.{Bool, true, Option, none, some, List, [], ◌∷◌, ◌++◌, if◌then◌else◌}
use fluid_data_table.Base.Text.{Text, codes, str_eq}
use fluid_data_table.Base.Int.{ℤ, pos, ◌+ℤ◌}

-- One level of RuntimeInfo's tiered store: its medium and the quotas of its cache paths.
pub record Level : Type 0 where
  pub medium_type : Text
  pub quotas : List ℤ

pub record RuntimeInfo : Type 0 where
  pub name : Text
  pub namespace : Text
  pub runtime_type : Text
  pub exclusive : Bool
  pub deprecated_node_label : Bool
  pub levels : List Level

abbrev pub capacity_prefix : RuntimeInfo → Text
capacity_prefix info =
    if info.deprecated_node_label then codes "data.fluid.io/storage-" else codes "fluid-io/s-"

-- getStoragetLabelName
unfoldable pub get_storage_label_name : RuntimeInfo → Text → Text → Text
get_storage_label_name info read storage =
    capacity_prefix info
    ++ (read
        ++ (info.runtime_type
            ++ (codes "-" ++ (storage ++ (info.namespace ++ (codes "-" ++ info.name))))))

abbrev pub storage_label : RuntimeInfo → Text → Text → Text
storage_label info old new =
    if info.deprecated_node_label
    then get_storage_label_name info (codes "human-") old
    else get_storage_label_name info (codes "h-") new

-- GetLabelNameForMemory, GetLabelNameForDisk and GetLabelNameForTotal
abbrev pub get_label_name_for_memory : RuntimeInfo → Text
get_label_name_for_memory info = storage_label info (codes "mem-") (codes "m-")

abbrev pub get_label_name_for_disk : RuntimeInfo → Text
get_label_name_for_disk info = storage_label info (codes "disk-") (codes "d-")

abbrev pub get_label_name_for_total : RuntimeInfo → Text
get_label_name_for_total info = storage_label info (codes "total-") (codes "t-")

-- GetCommonLabelName and GetRuntimeLabelName
unfoldable pub get_common_label_name : RuntimeInfo → Text
get_common_label_name info = capacity_prefix info ++ (info.namespace ++ (codes "-" ++ info.name))

unfoldable pub get_runtime_label_name : RuntimeInfo → Text
get_runtime_label_name info =
    capacity_prefix info
    ++ (info.runtime_type ++ (codes "-" ++ (info.namespace ++ (codes "-" ++ info.name))))

-- GetExclusiveKey and GetExclusiveValue
abbrev pub get_exclusive_key : Text
get_exclusive_key = codes "fluid_exclusive"

abbrev pub get_exclusive_value : RuntimeInfo → Text
get_exclusive_value info = info.namespace ++ (codes "_" ++ info.name)

-- The map of GetLevelStorageMap has these two keys at most.
pub record StorageMap : Type 0 where
  pub memory : Option ℤ
  pub disk : Option ℤ

abbrev pub quota : List ℤ → ℤ
quota [] = pos 0
quota (q ∷ qs) = q +ℤ quota qs

abbrev pub add_quota : Option ℤ → ℤ → Option ℤ
add_quota none n = some n
add_quota (some m) n = some (m +ℤ n)

abbrev pub is_disk : Text → Bool
is_disk medium = if str_eq medium (codes "SSD") then true else str_eq medium (codes "HDD")

unfoldable pub level_storage : List Level → StorageMap → StorageMap
level_storage [] m = m
level_storage (level ∷ levels) m =
    if is_disk level.medium_type
    then level_storage levels (record m { disk = add_quota m.disk (quota level.quotas) })
    else level_storage levels (record m { memory = add_quota m.memory (quota level.quotas) })

-- GetLevelStorageMap
unfoldable pub get_level_storage_map : RuntimeInfo → StorageMap
unfolding level_storage
get_level_storage_map info = level_storage info.levels (record { memory = none; disk = none })
