-- ===== src/Alluxio/Tests.antt =====
-- The operations on a pod that answers every command with one output.
use fluid_data_table.Base.Text.{trim_left}
use fluid_data_table.Base.Text.{trim_right}
use fluid_data_table.Alluxio.Output.{second_line}
use fluid_data_table.Alluxio.Output.{read_usage}
use fluid_data_table.Base.{
  ℕ, ◌+◌, true, false, none, some, List, [], ◌∷◌, ◌++◌, ◌≡◌, refl, length, map,
}
use fluid_data_table.Base.Text.{Text, codes, join, split, has_byte, has_prefix}
use fluid_data_table.Base.Int.{ℤ, pos}
use fluid_data_table.Base.Strconv.{parse_int, fields}
use fluid_data_table.Datatable.World.{returned, panicked}
use fluid_data_table.Alluxio.Shell.{Pod, exec, exec_without_timeout}
use fluid_data_table.Alluxio.Operations.{mount_command, mount_options}
use fluid_data_table.Alluxio.Output.{
  du, is_mounted, read_file_count, find_digits, digit_run, read_master_pod_name,
}
use fluid_data_table.Alluxio.Output.Mounted.{MountRow, line_of, is_in_table, is_mounted_lem}
use fluid_data_table.Alluxio.Output.Totals.{usage_line}
use fluid_data_table.Alluxio.Capacity.{get_worker_used_capacity}
use fluid_data_table.Alluxio.Capacity.Printed.{
  Worker, printed, recorded, get_worker_used_capacity_ends,
}

-- A pod that prints the same for every command, over a count of the commands.
abbrev printing : Text → Pod ℕ
printing output command s =
    (record { stdout = output; stderr = []; error = none; seconds = 1 }, s + 1)

abbrev table : List MountRow
table =
    record {
      ufs = codes "/underFSStorage";
      after_ufs = 6;
      after_on = 1;
      path = codes "/";
      after_path = 10;
      info = codes "local)";
    }
    ∷ record {
      ufs = codes "s3://b/sales";
      after_ufs = 9;
      after_on = 1;
      path = codes "/sales";
      after_path = 5;
      info = codes "s3)";
    }
    ∷ []

abbrev table_text : Text
table_text = join (b'\n' ∷ []) (map line_of table)

is_mounted_lem_example :
    is_mounted (printing table_text) (codes "/sales") 0 ≡ (is_in_table (codes "/sales") table, 1)
unfolding has_byte exec exec_without_timeout
is_mounted_lem_example =
    is_mounted_lem (printing table_text) (codes "/sales") table
      (record { stdout = table_text; stderr = []; error = none; seconds = 1 }) 0 1
      (((refl, refl), (refl, refl), refl), (((refl, refl), (refl, refl), refl), tt)) refl refl refl

-- `du` as the program's tests print it.
abbrev du_text : Text
du_text =
    codes "File Size     In Alluxio       Path"
    ++ b'\n' ∷ usage_line 0 (codes "2089") (codes "0") (codes "0%") (codes "/sales")

du_test :
    du (printing du_text) (codes "/sales") 0
    ≡ (returned (record { ufs = pos 2089; cached = pos 0; cached_percentage = codes "0%" }), 1)
unfolding du exec exec_without_timeout read_usage second_line split fields parse_int trim_right
    trim_left
du_test = refl

-- A line of two fields panics, as does an output of one line.
master_pod_name_tests :
    (read_master_pod_name (codes "Alluxio cluster summary:") ≡ panicked)
    × (read_master_pod_name (codes "summary:\n Master Address:") ≡ panicked)
    × (read_master_pod_name (codes "summary:\n Master Address: 10.0.0.1:19998")
        ≡ returned (codes "10.0.0.1"))
unfolding read_master_pod_name split fields
master_pod_name_tests = (refl, refl, refl)

file_count_test :
    read_file_count (codes "Master.FilesCompleted  (Type: COUNTER, Value: 6,367,897)")
    ≡ returned (pos 6367897)
unfolding read_file_count parse_int find_digits digit_run
file_count_test = refl

mount_command_test :
    mount_command (codes "/sales") (codes "s3://b") ((codes "k", codes "v") ∷ []) true false
    ≡ codes "alluxio"
      ∷ codes "fs"
      ∷ codes "mount"
      ∷ codes "--readonly"
      ∷ codes "--option"
      ∷ codes "k=v"
      ∷ codes "/sales"
      ∷ codes "s3://b"
      ∷ []
unfolding mount_command mount_options
mount_command_test = refl

-- The workers of the report in a comment of the source
abbrev workers : List Worker
workers =
    record {
      name = codes "192.168.1.147";
      after_name = 3;
      heartbeat = codes "0";
      after_heartbeat = 15;
      after_capacity = 5;
      capacity = codes "2048.00MB";
      indent = 34;
      after_used = 9;
      used = codes "443.89MB";
      after_size = 0;
      share = codes "(21%)";
    }
    ∷ record {
      name = codes "192.168.1.146";
      after_name = 3;
      heartbeat = codes "0";
      after_heartbeat = 15;
      after_capacity = 5;
      capacity = codes "2048.00MB";
      indent = 34;
      after_used = 9;
      used = codes "0B";
      after_size = 0;
      share = codes "(0%)";
    }
    ∷ []

-- A size that is the length of its text, in place of utils.FromHumanSize.
abbrev size : Text → ℤ
size s = pos (length s)

get_worker_used_capacity_ends_example :
    get_worker_used_capacity size (
      join (b'\n' ∷ []) (
        (codes "Capacity information for all workers:" ∷ [])
        ++ codes "Worker Name      Last Heartbeat   Storage       MEM" ∷ printed workers))
    ≡ some (returned (recorded size workers []))
unfolding has_prefix has_byte
get_worker_used_capacity_ends_example =
    get_worker_used_capacity_ends size (codes "Capacity information for all workers:" ∷ [])
      (codes "Worker Name      Last Heartbeat   Storage       MEM") workers ((refl, refl), tt) refl
      refl
      (
        ((refl, refl), (refl, refl), (refl, refl), (refl, refl), (refl, refl), refl, refl),
        (((refl, refl), (refl, refl), (refl, refl), (refl, refl), (refl, refl), refl, refl), tt),
      )
