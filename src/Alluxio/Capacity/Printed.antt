-- ===== src/Alluxio/Capacity/Printed.antt =====
-- The report that Alluxio prints of its workers, and how GetWorkerUsedCapacity of
-- pkg/ddc/alluxio/utils.go reads it.
use fluid_data_table.Base.{
  ℕ, suc, ◌+◌, true, false, some, List, [], ◌∷◌, ◌++◌, ◌≡◌, refl, ap, ◌∙◌, arith, length, All,
}
use fluid_data_table.Base.Text.{Text, codes, split, join, split-join, has_prefix, has_byte}
use fluid_data_table.Base.Dict.{Dict, insert}
use fluid_data_table.Base.Int.{ℤ}
use fluid_data_table.Base.Strconv.{fields}
use fluid_data_table.Base.Strconv.Words.{
  IsWord, pad, column, fields-column, fields_word, fields-pad,
}
use fluid_data_table.Datatable.World.{returned}
use fluid_data_table.Alluxio.Capacity.Workers.{drop, workers_of, capacity_loop_ends}
use fluid_data_table.Alluxio.Capacity.{start_index, entry_of, get_worker_used_capacity}

-- A worker of Alluxio's report: two lines of columns. A gap is the number of blanks after the first
-- one behind a word, and the indent the number of blanks before the second line.
pub record Worker : Type 0 where
  pub name : Text
  pub after_name : ℕ
  pub heartbeat : Text
  pub after_heartbeat : ℕ
  pub after_capacity : ℕ
  pub capacity : Text
  pub indent : ℕ
  pub after_used : ℕ
  pub used : Text
  pub after_size : ℕ
  pub share : Text

abbrev pub first_line : Worker → Text
first_line w =
    column w.name w.after_name
      (column w.heartbeat w.after_heartbeat (column (codes "capacity") w.after_capacity w.capacity))

abbrev pub second_line : Worker → Text
second_line w =
    pad w.indent (column (codes "used") w.after_used (column w.used w.after_size w.share))

abbrev pub IsWorker : Worker → Type 0
IsWorker w =
    IsWord w.name
    × IsWord w.heartbeat
    × IsWord w.capacity
    × IsWord w.used
    × IsWord w.share
    × (has_byte b'\n' (first_line w) ≡ false)
    × (has_byte b'\n' (second_line w) ≡ false)

abbrev pub printed : List Worker → List Text
printed [] = []
printed (w ∷ ws) = first_line w ∷ second_line w ∷ printed ws

-- What the map is to be: a worker's used capacity under its name, the last one of a name.
abbrev pub recorded : (Text → ℤ) → List Worker → Dict ℤ → Dict ℤ
recorded size [] m = m
recorded size (w ∷ ws) m = recorded size ws (insert w.name (size w.used) m)

first_fields :
    (w : Worker)
    → IsWorker w
    → fields (first_line w) ≡ w.name ∷ w.heartbeat ∷ codes "capacity" ∷ w.capacity ∷ []
first_fields w h =
    fields-column w.name w.after_name _ h.0
    ∙ ap (λ ws. w.name ∷ ws)
        (fields-column w.heartbeat w.after_heartbeat _ h.1
          ∙ ap (λ ws. w.heartbeat ∷ ws)
              (fields-column (codes "capacity") w.after_capacity w.capacity (refl, refl)
                ∙ ap (λ ws. codes "capacity" ∷ ws) (fields_word w.capacity h.2.0 h.2.1)))

second_fields :
    (w : Worker) → IsWorker w → fields (second_line w) ≡ codes "used" ∷ w.used ∷ w.share ∷ []
second_fields w h =
    fields-pad w.indent _
    ∙ (fields-column (codes "used") w.after_used _ (refl, refl)
        ∙ ap (λ ws. codes "used" ∷ ws)
            (fields-column w.used w.after_size w.share h.3
              ∙ ap (λ ws. w.used ∷ ws) (fields_word w.share h.4.0 h.4.1)))

entry_of_worker :
    (w : Worker)
    → IsWorker w
    → entry_of (fields (first_line w) ++ fields (second_line w)) ≡ some (w.name, w.used)
entry_of_worker w h =
    ap (λ ws. entry_of (ws ++ fields (second_line w))) (first_fields w h)
    ∙ ap (λ ws. entry_of ((w.name ∷ w.heartbeat ∷ codes "capacity" ∷ w.capacity ∷ []) ++ ws))
        (second_fields w h)

workers_of-printed :
    (size : Text → ℤ) (ws : List Worker) (m : Dict ℤ)
    → All IsWorker ws
    → workers_of size (printed ws) m ≡ returned (recorded size ws m)
unfolding workers_of
workers_of-printed size [] m h = refl
workers_of-printed size (w ∷ ws) m h =
    ground
      (arith, entry_of_worker w h.0, workers_of-printed size ws (insert w.name (size w.used) m) h.1)

-- The lines before the table and its title.
abbrev pub NoTitle : Text → Type 0
NoTitle line = (has_prefix line (codes "Worker Name") ≡ false) × (has_byte b'\n' line ≡ false)

start_index-append :
    (i : ℕ) (header : List Text) (title : Text) (rest : List Text)
    → All NoTitle header
    → has_prefix title (codes "Worker Name") ≡ true
    → start_index i (header ++ title ∷ rest) ≡ some (suc (i + length header))
unfolding start_index
start_index-append i [] title rest h k = ground arith
start_index-append i (line ∷ header) title rest h k =
    ground (arith, h.0.0, start_index-append (suc i) header title rest h.1 k)

drop-append :
    (header : List Text) (title : Text) (rest : List Text)
    → drop (suc (length header)) (header ++ title ∷ rest) ≡ rest
drop-append [] title rest = refl
drop-append (line ∷ header) title rest = drop-append header title rest

lines_of_report :
    (header : List Text) (title : Text) (ws : List Worker)
    → All NoTitle header
    → has_byte b'\n' title ≡ false
    → All IsWorker ws
    → All (λ (v : Text). has_byte b'\n' v ≡ false) (header ++ title ∷ printed ws)
lines_of_report [] title [] h k hw = (k, tt)
lines_of_report [] title (w ∷ ws) h k hw =
    (k, (hw.0.5, (hw.0.6, (lines_of_report [] title ws h k hw.1).1)))
lines_of_report (line ∷ header) title ws h k hw = (h.0.1, lines_of_report header title ws h.1 k hw)

split_report :
    (header : List Text) (title : Text) (ws : List Worker)
    → All NoTitle header
    → has_byte b'\n' title ≡ false
    → All IsWorker ws
    → split b'\n' (join (b'\n' ∷ []) (header ++ title ∷ printed ws)) ≡ header ++ title ∷ printed ws
split_report [] title ws h k hw = split-join b'\n' title _ (lines_of_report [] title ws h k hw)
split_report (line ∷ header) title ws h k hw =
    split-join b'\n' line _ (lines_of_report (line ∷ header) title ws h k hw)

-- GetWorkerUsedCapacity ends on a report of any number of workers, and the map has the used
-- capacity of each worker under its name, the last one where a name is repeated. The report has lines
-- that do not begin with "Worker Name", a title that does, and then two lines for each worker: its
-- name, its heartbeat, the word "capacity" and its capacity, then blanks, the word "used", what is
-- used and a share. These words are not empty and have no white space. One or more blanks are between
-- them, a number of its own in every place, and no line has a line break.
pub get_worker_used_capacity_ends :
    (size : Text → ℤ) (header : List Text) (title : Text) (ws : List Worker)
    → All NoTitle header
    → has_prefix title (codes "Worker Name") ≡ true
    → has_byte b'\n' title ≡ false
    → All IsWorker ws
    → get_worker_used_capacity size (join (b'\n' ∷ []) (header ++ title ∷ printed ws))
      ≡ some (returned (recorded size ws []))
unfolding get_worker_used_capacity
get_worker_used_capacity_ends size header title ws h t k hw =
    let lines : List Text = header ++ title ∷ printed ws in
    let start = start_index-append 0 header title (printed ws) h t in
    let read = split_report header title ws h k hw in
    let ends =
      capacity_loop_ends size (length lines) lines (suc (length header)) [] (omega arith) in
    ground (arith, drop-append header title (printed ws), workers_of-printed size ws [] hw)
