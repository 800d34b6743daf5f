-- ===== src/Alluxio/Output.antt =====
-- pkg/ddc/alluxio/operations: the operations that read the output of their command.
pub mod Mounted
pub mod Totals
use fluid_data_table.Base.{
  ℕ, zero, suc, ◌-◌, Bool, true, false, not, ltb, Option, none, some, List, [], ◌∷◌, ◌++◌, ◌==◌,
  if◌then◌else◌, get_elem?, keep,
}
use fluid_data_table.Base.Text.{Text, codes, contains, split, str_eq, trim_left, trim_right}
use fluid_data_table.Base.Int.{ℤ, pos, negsuc, int64_half, int64_mod}
use fluid_data_table.Base.Strconv.{parse_int, unsigned, is_digit, fields}
use fluid_data_table.Base.Result.{Error, Result, ok, err, message}
use fluid_data_table.Datatable.World.{Outcome, returned, failed, panicked}
use fluid_data_table.Alluxio.Shell.{Pod, exec, exec_error, on_success}
use fluid_data_table.Alluxio.Operations.{run, run_without_timeout}

-- The loop of IsMounted over the lines: a line with fewer than three fields panics.
unfoldable pub is_mounted_in : Text → List Text → Outcome Bool
is_mounted_in path [] = returned false
is_mounted_in path (line ∷ lines) = elim (get_elem? (fields line) 2) [
  | none ↦ panicked
  | some field ↦ if str_eq field path then returned true else is_mounted_in path lines
]

abbrev pub bad_number : Text → Error
bad_number s = message (codes "strconv: parsing " ++ s)

-- strconv.ParseInt and strconv.ParseUint with 64 bits
abbrev pub int_or_fail {ℓ} : {A : Type ℓ} → Text → (ℤ → Outcome A) → Outcome A
int_or_fail s next = elim (parse_int s) [ none ↦ failed (bad_number s) | some n ↦ next n ]

unfoldable pub parse_uint : Text → Option ℕ
parse_uint s = elim (unsigned s) [ none ↦ none | some n ↦ if ltb n int64_mod then some n else none ]

abbrev pub uint_or_fail {ℓ} : {A : Type ℓ} → Text → (ℕ → Outcome A) → Outcome A
uint_or_fail s next = elim (parse_uint s) [ none ↦ failed (bad_number s) | some n ↦ next n ]

-- `int64(n)` of a uint64
abbrev pub to_int64 : ℕ → ℤ
to_int64 n = if ltb n int64_half then pos n else negsuc (int64_mod - 1 - n)

-- The fields of the second of exactly two lines.
unfoldable pub second_line : Text → Option (List Text)
second_line stdout = elim (split b'\n' stdout) [
  | header ∷ line ∷ [] ↦ some (fields line)
  | _ ↦ none
]

-- What Du says of a path: its size, how much of it is cached, and the share of that.
pub record Usage : Type 0 where
  pub ufs : ℤ
  pub cached : ℤ
  pub cached_percentage : Text

unfoldable pub read_usage : Text → Outcome Usage
read_usage stdout = elim (second_line stdout) [
  | some (ufs ∷ cached ∷ percentage ∷ path ∷ []) ↦ int_or_fail ufs λ u. int_or_fail cached λ c.
      returned (record {
        ufs = u;
        cached = c;
        cached_percentage = trim_right b')' (trim_left b'(' percentage);
      })
  | _ ↦ failed (message (codes "failed to parse in Du method"))
]

unfoldable pub read_counts : Text → Outcome (ℤ × (ℤ × ℤ))
read_counts stdout = elim (second_line stdout) [
  | some (files ∷ folders ∷ total ∷ []) ↦ uint_or_fail files λ f.
      uint_or_fail folders
        λ d. uint_or_fail total λ t. returned (to_int64 f, (to_int64 d, to_int64 t))
  | _ ↦ failed (message (codes "failed to parse in Count method"))
]

-- The first run of digits, of the expression "\d+"; empty if there is none.
unfoldable pub digit_run : Text → Text
digit_run [] = []
digit_run (c ∷ cs) = let rest = digit_run cs in if is_digit c then c ∷ rest else []

unfoldable pub find_digits : Text → Text
find_digits [] = []
find_digits (c ∷ cs) = let rest = find_digits cs in if is_digit c then digit_run (c ∷ cs) else rest

-- The output of `report metrics`, of which commas are taken out.
unfoldable pub read_file_count : Text → Outcome ℤ
read_file_count stdout =
    int_or_fail (find_digits (keep (λ (c : ℕ). not (c == b',')) stdout)) returned

-- What MasterPodName reads: the part before a colon of the third field of the second line. An output
-- of one line, and a line of two fields, panic.
unfoldable pub read_master_pod_name : Text → Outcome Text
read_master_pod_name stdout = elim (get_elem? (split b'\n' stdout) 1) [
  | none ↦ panicked
  | some line ↦ (elim (fields line) [
    | name ∷ of ∷ address ∷ _ ↦ (elim (split b':' address) [
      | [] ↦ panicked
      | host ∷ _ ↦ returned host
    ])
    | name ∷ of ∷ [] ↦ panicked
    | _ ↦ failed (message (codes "get wrong result when using command"))
  ])
]

-- `values[len(values)-1]`; `none` if there is none.
unfoldable pub last_of : List Text → Option Text
last_of [] = none
last_of (w ∷ []) = some w
last_of (w ∷ v ∷ ws) = last_of (v ∷ ws)

-- The loop of CachedState: units.RAMInBytes is a parameter, and the last line that has the capacity
-- counts.
unfoldable pub cached_in : (Text → Result ℤ) → List Text → Option ℤ → Outcome ℤ
cached_in ram_in_bytes [] none = failed (message (codes "failed to find the cache in output"))
cached_in ram_in_bytes [] (some n) = returned n
cached_in ram_in_bytes (line ∷ lines) found =
    if contains line (codes "Used Capacity:")
    then (elim (last_of (fields line)) [
      | none ↦ failed (message (codes "failed to parse"))
      | some value ↦ (elim (ram_in_bytes value) [
        | err e ↦ failed e
        | ok n ↦ cached_in ram_in_bytes lines (some n)
      ])
    ])
    else cached_in ram_in_bytes lines found

module _ {S : Type 0} (pod : Pod S) where
  -- IsMounted
  unfoldable pub is_mounted : Text → S → Outcome Bool × S
  is_mounted path =
      run pod (codes "alluxio" ∷ codes "fs" ∷ codes "mount" ∷ [])
        λ stdout. is_mounted_in path (split b'\n' stdout)

  -- Du
  unfoldable pub du : Text → S → Outcome Usage × S
  du path = run pod (codes "alluxio" ∷ codes "fs" ∷ codes "du" ∷ codes "-s" ∷ path ∷ []) read_usage

  -- Count
  unfoldable pub count : Text → S → Outcome (ℤ × (ℤ × ℤ)) × S
  count path =
      run_without_timeout pod (codes "alluxio" ∷ codes "fs" ∷ codes "count" ∷ path ∷ []) read_counts

  -- GetFileCount
  unfoldable pub get_file_count : S → Outcome ℤ × S
  get_file_count =
      run_without_timeout pod
        (codes "bash"
          ∷ codes "-c"
          ∷ codes "alluxio fsadmin report metrics | grep Master.FilesCompleted"
          ∷ [])
        read_file_count

  -- MasterPodName
  unfoldable pub master_pod_name : S → Outcome Text × S
  master_pod_name =
      run pod (codes "alluxio" ∷ codes "fsadmin" ∷ codes "report" ∷ []) read_master_pod_name

  -- CachedState, of cached.go
  unfoldable pub cached_state : (Text → Result ℤ) → S → Outcome ℤ × S
  cached_state ram_in_bytes =
      run pod (codes "alluxio" ∷ codes "fsadmin" ∷ codes "report" ∷ [])
        λ stdout. cached_in ram_in_bytes (split b'\n' stdout) none
