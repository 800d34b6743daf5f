-- ===== src/Datatable/Label.antt =====
-- pkg/utils/datatable/datatable_utils.go: the labels that record which tables a DataTable caches.
pub mod RoundTrip
use fluid_data_table.Base.{
  ℕ, ◌≡◌, refl, Bool, true, false, Option, none, some, List, [], ◌∷◌, ◌++◌, if◌then◌else◌,
}
use fluid_data_table.Base.Text.{Text, codes, has_byte, split, replace_byte}

-- DATATABLEPRE
abbrev pub datatable_pre : Text
datatable_pre = codes "datatable"

abbrev pub dash : ℕ
dash = b'-'

abbrev pub equals : ℕ
equals = b'='

abbrev pub dot : ℕ
dot = b'.'

unfoldable pub get_datatable_common_label : Text → Text → Text
get_datatable_common_label schema_name table_name =
    datatable_pre ++ (dash ∷ (schema_name ++ (dash ∷ table_name)))

unfoldable pub get_partition_datatable_common_label : Text → Text → Text → Text
get_partition_datatable_common_label schema_name table_name partition_name =
    let name =
      if has_byte equals partition_name
      then replace_byte equals dot partition_name
      else partition_name in
    get_datatable_common_label schema_name table_name ++ (dash ∷ name)

-- Schema, table and partition; `none` is the panic of an index past the end of `infos`.
abbrev pub TableInfo : Type 0
TableInfo = record { schema_name : Text; table_name : Text; partition_name : Text }

pub infos_to_table_info : List Text → Option TableInfo
infos_to_table_info (_ ∷ s ∷ t ∷ p ∷ []) =
    some (record { schema_name = s; table_name = t; partition_name = replace_byte dot equals p })
infos_to_table_info (_ ∷ s ∷ t ∷ _) =
    some (record { schema_name = s; table_name = t; partition_name = [] })
infos_to_table_info _ = none

unfoldable pub get_table_info_from_label : Text → Option TableInfo
unfolding infos_to_table_info
get_table_info_from_label label = infos_to_table_info (split dash label)

label_of_lineitem :
    get_partition_datatable_common_label (codes "tpch") (codes "lineitem") (codes "dt=1")
    ≡ codes "datatable-tpch-lineitem-dt.1"
unfolding get_partition_datatable_common_label get_datatable_common_label has_byte replace_byte
label_of_lineitem = refl
