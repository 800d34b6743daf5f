-- ===== src/Alluxio/Capacity.antt =====
-- GetWorkerUsedCapacity of pkg/ddc/alluxio/utils.go, and ParseReportSummary of
-- pkg/ddc/alluxio/report.go: what is read from Alluxio's reports. The conversions of sizes
-- (utils.FromHumanSize and utils.BytesSize) are parameters.
pub mod Workers
pub mod Printed
use fluid_data_table.Base.{
  ℕ, zero, suc, true, false, ltb, Option, none, some, List, [], ◌∷◌, ◌++◌, if◌then◌else◌, get_elem?,
  length,
}
use fluid_data_table.Base.Text.{Text, codes, split, has_prefix, trim_prefix}
use fluid_data_table.Base.Dict.{Dict, insert}
use fluid_data_table.Base.Int.{ℤ}
use fluid_data_table.Base.Strconv.{fields, trim_space}
use fluid_data_table.Base.Result.{message}
use fluid_data_table.Datatable.World.{Outcome, returned, failed, panicked}

-- The index after the first line that begins with "Worker Name".
unfoldable pub start_index : ℕ → List Text → Option ℕ
start_index i [] = none
start_index i (line ∷ lines) =
    let rest = start_index (suc i) lines in
    if has_prefix line (codes "Worker Name") then some (suc i) else rest

-- The name and the used capacity of a worker, of the fields of its two lines.
abbrev pub entry_of : List Text → Option (Text × Text)
entry_of words = elim (get_elem? words 0) [
  | none ↦ none
  | some name ↦ (elim (get_elem? words 5) [ none ↦ none | some used ↦ some (name, used) ])
]

-- The worker whose first line is at an index; `none` is an index out of range.
unfoldable pub worker_at : List Text → ℕ → Option (Text × Text)
worker_at lines i = elim (get_elem? lines i) [
  | none ↦ none
  | some first ↦ (elim (get_elem? lines (suc i)) [
    | none ↦ none
    | some second ↦ entry_of (fields first ++ fields second)
  ])
]

module _ (from_human_size : Text → ℤ) where
  -- The loop of GetWorkerUsedCapacity, which goes on by two lines; `none` is out of fuel.
  unfoldable pub capacity_loop : ℕ → List Text → ℕ → Dict ℤ → Option (Outcome (Dict ℤ))
  capacity_loop zero lines i m = none
  capacity_loop (suc fuel) lines i m = elim (ltb i (length lines)) [
    | false ↦ some (returned m)
    | true ↦ (elim (worker_at lines i) [
      | none ↦ some panicked
      | some (name, used) ↦
          capacity_loop fuel lines (suc (suc i)) (insert name (from_human_size used) m)
    ])
  ]

  -- GetWorkerUsedCapacity of a report
  unfoldable pub get_worker_used_capacity : Text → Option (Outcome (Dict ℤ))
  get_worker_used_capacity report =
      let lines = split b'\n' report in
      elim (start_index 0 lines) [
        | none ↦
            some
              (failed (message (codes "can't parse result form alluxio fsadmin report capacity")))
        | some start ↦ capacity_loop (suc (length lines)) lines start []
      ]

-- cacheStates, of the report's summary: the capacity and what is cached of it.
pub record CacheStates : Type 0 where
  pub cache_capacity : Text
  pub cached : Text

abbrev pub total_prefix : Text
total_prefix = codes "Total Capacity: "

abbrev pub used_prefix : Text
used_prefix = codes "Used Capacity: "

module _ (from_human_size : Text → ℤ) (bytes_size : ℤ → Text) where
  abbrev pub size_after : Text → Text → Text
  size_after prefix line = bytes_size (from_human_size (trim_prefix line prefix))

  -- One line of ParseReportSummary
  unfoldable pub summary_line : CacheStates → Text → CacheStates
  summary_line states line =
      let states1 =
        if has_prefix line total_prefix
        then record states { cache_capacity = size_after total_prefix line }
        else states in
      if has_prefix line used_prefix
      then record states1 { cached = size_after used_prefix line }
      else states1

  unfoldable pub summary_lines : CacheStates → List Text → CacheStates
  summary_lines states [] = states
  summary_lines states (line ∷ lines) = summary_lines (summary_line states (trim_space line)) lines

  -- ParseReportSummary
  unfoldable pub parse_report_summary : Text → CacheStates
  parse_report_summary s =
      summary_lines (record { cache_capacity = []; cached = [] }) (split b'\n' s)
