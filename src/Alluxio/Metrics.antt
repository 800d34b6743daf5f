-- ===== src/Alluxio/Metrics.antt =====
-- ParseReportMetric of pkg/ddc/alluxio/report.go: how much was read from where. The two regular
-- expressions, utils.FromHumanSize and the formatting of a percentage are parameters.
use fluid_data_table.Base.{Bool, false, ◌==◌, Option, none, some, List, [], ◌∷◌, if◌then◌else◌}
use fluid_data_table.Base.Text.{Text, codes, split, has_prefix}
use fluid_data_table.Base.Int.{ℤ, pos, negsuc, add64, sub64}
use fluid_data_table.Base.Strconv.{trim_space}

-- cacheHitStates
pub record HitStates : Type 0 where
  pub cache_hit_ratio : Text
  pub local_hit_ratio : Text
  pub remote_hit_ratio : Text
  pub local_throughput_ratio : Text
  pub remote_throughput_ratio : Text
  pub cache_throughput_ratio : Text
  pub bytes_read_local : ℤ
  pub bytes_read_remote : ℤ
  pub bytes_read_ufs_all : ℤ

-- The throughputs, which ParseReportMetric keeps in variables.
pub record Throughputs : Type 0 where
  pub local : ℤ
  pub remote : ℤ
  pub ufs : ℤ

abbrev pub Readings : Type 0
Readings = HitStates × Throughputs

pub record MetricFormat : Type 0 where
  -- the group of `\(Type:\sCOUNTER,\sValue:\s(.*)\)` and of the expression for gauges, if they match
  pub counter : Text → Option Text
  pub gauge : Text → Option Text
  pub from_human_size : Text → ℤ
  -- "%.1f%%" of a hundred times a part by a whole
  pub percentage : ℤ → ℤ → Text

abbrev pub is_zero : ℤ → Bool
is_zero (pos n) = n == 0
is_zero (negsuc n) = false

module _ (format : MetricFormat) where
  -- A value that is read if the line matches; `none` is an index out of range.
  abbrev pub read_value : Option Text → (ℤ → Readings) → Option Readings
  read_value none set = none
  read_value (some value) set = some (set (format.from_human_size value))

  -- One line, which the first prefix that it has decides.
  unfoldable pub metric_line : Readings → Text → Option Readings
  metric_line (states, t) line =
      if has_prefix line (codes "Cluster.BytesReadLocal ")
      then read_value (format.counter line) (λ n. (record states { bytes_read_local = n }, t))
      else if has_prefix line (codes "Cluster.BytesReadRemote ")
      then read_value (format.counter line) (λ n. (record states { bytes_read_remote = n }, t))
      else if has_prefix line (codes "Cluster.BytesReadUfsAll ")
      then read_value (format.counter line) (λ n. (record states { bytes_read_ufs_all = n }, t))
      else if has_prefix line (codes "Cluster.BytesReadLocalThroughput ")
      then read_value (format.gauge line) (λ n. (states, record t { local = n }))
      else if has_prefix line (codes "Cluster.BytesReadRemoteThroughput ")
      then read_value (format.gauge line) (λ n. (states, record t { remote = n }))
      else if has_prefix line (codes "Cluster.BytesReadUfsThroughput ")
      then read_value (format.gauge line) (λ n. (states, record t { ufs = n }))
      else some (states, t)

  unfoldable pub metric_lines : Readings → List Text → Option Readings
  metric_lines r [] = some r
  metric_lines r (line ∷ lines) = elim (metric_line r (trim_space line)) [
    | none ↦ none
    | some next ↦ metric_lines next lines
  ]

  -- A share of a whole, which is "0.0%" of nothing.
  abbrev pub ratio : ℤ → ℤ → Text
  ratio part whole = if is_zero whole then codes "0.0%" else format.percentage part whole

  -- The ratios, of what was read since the last states.
  unfoldable pub with_ratios : HitStates → Readings → HitStates
  with_ratios last (states, t) =
      let local = sub64 states.bytes_read_local last.bytes_read_local in
      let remote = sub64 states.bytes_read_remote last.bytes_read_remote in
      let ufs = sub64 states.bytes_read_ufs_all last.bytes_read_ufs_all in
      let total = add64 (add64 local remote) ufs in
      let throughput = add64 (add64 t.local t.remote) t.ufs in
      record states {
        local_hit_ratio = ratio local total;
        remote_hit_ratio = ratio remote total;
        cache_hit_ratio = ratio (add64 local remote) total;
        local_throughput_ratio = ratio t.local throughput;
        remote_throughput_ratio = ratio t.remote throughput;
        cache_throughput_ratio = ratio (add64 t.local t.remote) throughput;
      }

  -- ParseReportMetric; `none` is a panic, and without last states there are no ratios.
  unfoldable pub parse_report_metric : Text → HitStates → Option HitStates → Option HitStates
  parse_report_metric metrics states last =
      elim (metric_lines (states, record { local = pos 0; remote = pos 0; ufs = pos 0 })
        (split b'\n' metrics)) [
          | none ↦ none
          | some r ↦ (elim last [ none ↦ some r.0 | some l ↦ some (with_ratios l r) ])
        ]
