-- ===== src/Helm/Tests.antt =====
-- The functions of pkg/utils/helm on a machine on which `helm` is there and prints one text.
use fluid_data_table.Base.Text.{contains}
use fluid_data_table.Base.Text.{has_byte}
use fluid_data_table.Helm.{read_status}
use fluid_data_table.Helm.Listing.{helm_list}
use fluid_data_table.Base.Strconv.{trim_space}
use fluid_data_table.Helm.Chart.{first_line}
use fluid_data_table.Base.Text.{split}
use fluid_data_table.Base.Text.{trim_right}
use fluid_data_table.Base.{ℕ, true, false, none, [], ◌∷◌, ◌≡◌, refl}
use fluid_data_table.Base.Text.{Text, codes}
use fluid_data_table.Base.Dict.{lookup}
use fluid_data_table.Base.Int.{pos}
use fluid_data_table.Base.Result.{ok, err, not_found}
use fluid_data_table.Process.{Machine}
use fluid_data_table.Runtime.Template.{answer}
use fluid_data_table.Helm.{check_release}
use fluid_data_table.Helm.Listing.{list_release_map, list_releases}
use fluid_data_table.Helm.Listing.Printed.{
  ReleaseRow, table_text, released, version_of, list_release_map-table_text,
}
use fluid_data_table.Helm.Chart.{file_base, get_chart_version}

abbrev printing : Text → Machine ℕ
printing out = record {
  look_path = λ program s. ok (codes "/usr/bin/helm");
  stat = λ file s. none;
  is_not_exist = λ e. false;
  run = λ program args s. (ok (record { stdout = out; error = none; exit_status = pos 0 }), s);
  temp_file = λ dir pattern s. (err not_found, s);
  write_file = λ file text s. (none, s);
}

abbrev hbase : ReleaseRow
hbase = record {
  name = codes "hbase";
  gap = 2;
  columns = (codes "default", 0) ∷ (codes "alluxio-0.1.0", 3) ∷ [];
  app_version = codes "2.3.0";
  tail = 1;
}

abbrev spark : ReleaseRow
spark = record {
  name = codes "spark";
  gap = 0;
  columns = [];
  app_version = codes "2.3.1";
  tail = 0;
}

abbrev header : Text
header = codes " NAMESPACE  CHART  APP VERSION"

abbrev table : Text
table = table_text header (hbase ∷ spark ∷ [])

list_release_map-table_text_example :
    (list_release_map (printing table) (codes "default") 0
      ≡ (ok (released (hbase ∷ spark ∷ []) []), 0))
    × (lookup (codes "hbase") (released (hbase ∷ spark ∷ []) [])
        ≡ version_of (codes "hbase") (hbase ∷ spark ∷ []))
unfolding has_byte contains
list_release_map-table_text_example =
    list_release_map-table_text (printing table) (codes "default") (codes "/usr/bin/helm") header
      (codes "hbase") (hbase ∷ spark ∷ [])
      (record { stdout = table; error = none; exit_status = pos 0 }) 0 0 refl
      (
        ((refl, refl), ((refl, refl), ((refl, refl), tt)), (refl, refl), refl, refl),
        (((refl, refl), tt, (refl, refl), refl, refl), tt),
      )
      refl refl refl refl

chart_tests :
    (file_base (codes "/charts/alluxio/") ≡ codes "alluxio")
    × (file_base (codes "//") ≡ codes "/")
    × (get_chart_version (printing (codes "version: 0.8.1\n")) (codes "/charts/alluxio") 0
        ≡ (ok (codes "0.8.1"), 0))
    × (list_releases (printing (codes "hbase\n")) (codes "default") 0
        ≡ (ok (codes "hbase" ∷ [] ∷ []), 0))
unfolding file_base trim_right split get_chart_version first_line trim_space list_releases helm_list
chart_tests = (refl, refl, refl, refl)

check_tests :
    check_release (printing []) (codes "hbase") (codes "default") 0 ≡ (answer true none, 0)
unfolding check_release read_status
check_tests = refl
