-- ===== src/Datatable/Tests/Labels.antt =====
-- The theorems about labels, applied.
use fluid_data_table.Base.{some, [], ◌≡◌, refl}
use fluid_data_table.Base.Text.{codes, has_byte}
use fluid_data_table.Datatable.Label.{
  get_table_info_from_label, get_partition_datatable_common_label,
}
use fluid_data_table.Datatable.Label.RoundTrip.{
  get_table_info-get_partition_datatable_common_label, get_table_info_of_dashed_partition,
}

partition_round_trip_example :
    get_table_info_from_label
      (get_partition_datatable_common_label (codes "tpch") (codes "part") (codes "dt=1"))
    ≡ some (record {
      schema_name = codes "tpch";
      table_name = codes "part";
      partition_name = codes "dt=1";
    })
unfolding has_byte
partition_round_trip_example =
    get_table_info-get_partition_datatable_common_label (codes "tpch") (codes "part") (codes "dt=1")
      refl refl refl refl

dashed_partition_example :
    get_table_info_from_label
      (get_partition_datatable_common_label (codes "tpch") (codes "part") (codes "dt=2020-01-01"))
    ≡ some (record { schema_name = codes "tpch"; table_name = codes "part"; partition_name = [] })
unfolding has_byte
dashed_partition_example =
    get_table_info_of_dashed_partition (codes "tpch") (codes "part") (codes "dt=2020-01-01") refl
      refl refl
