-- ===== src/Alluxio/Output/Mounted.antt =====
-- IsMounted of pkg/ddc/alluxio/operations/base.go against the table of mounts that Alluxio prints.
use fluid_data_table.Base.{
  ℕ, Bool, false, none, some, List, [], ◌∷◌, ◌≡◌, refl, ap, ◌∙◌, arith, if◌then◌else◌, is_empty,
  any, All, map, get_elem?,
}
use fluid_data_table.Base.Text.{Text, codes, join, split, split-join, has_byte, str_eq}
use fluid_data_table.Base.Strconv.{fields}
use fluid_data_table.Base.Strconv.Words.{IsWord, column, fields-column, fields_nil}
use fluid_data_table.Datatable.World.{Outcome, returned, panicked}
use fluid_data_table.Alluxio.Shell.{Pod, Reply, exec}
use fluid_data_table.Alluxio.Output.{is_mounted_in, is_mounted}

-- A row of the table: the address in the store below, the path in Alluxio, and the rest, with the
-- number of blanks after the first one behind each of its first three words.
pub record MountRow : Type 0 where
  pub ufs : Text
  pub after_ufs : ℕ
  pub after_on : ℕ
  pub path : Text
  pub after_path : ℕ
  pub info : Text

abbrev pub line_of : MountRow → Text
line_of row =
    column row.ufs row.after_ufs
      (column (codes "on") row.after_on (column row.path row.after_path (b'(' ∷ row.info)))

abbrev pub IsRow : MountRow → Type 0
IsRow row = IsWord row.ufs × IsWord row.path × (has_byte b'\n' (line_of row) ≡ false)

third_field : (row : MountRow) → IsRow row → get_elem? (fields (line_of row)) 2 ≡ some row.path
third_field row h =
    ap (λ (ws : List Text). get_elem? ws 2)
      (fields-column row.ufs row.after_ufs _ h.0
        ∙ ap (λ (ws : List Text). row.ufs ∷ ws)
            (fields-column (codes "on") row.after_on _ (refl, refl)
              ∙ ap (λ (ws : List Text). codes "on" ∷ ws)
                  (fields-column row.path row.after_path (b'(' ∷ row.info) h.1)))

is_mounted_in_table :
    (path : Text) (table : List MountRow)
    → All IsRow table
    → is_mounted_in path (map line_of table)
      ≡ returned (any (λ (row : MountRow). str_eq row.path path) table)
unfolding is_mounted_in
is_mounted_in_table path [] h = refl
is_mounted_in_table path (row ∷ table) h =
    ground (arith, third_field row h.0, is_mounted_in_table path table h.1)

lines_of_table :
    (table : List MountRow)
    → All IsRow table
    → All (λ (v : Text). has_byte b'\n' v ≡ false) (map line_of table)
lines_of_table [] h = tt
lines_of_table (row ∷ table) h = (h.0.2, lines_of_table table h.1)

-- What is read from the printed table: the empty table is an empty line, which panics.
abbrev pub is_in_table : Text → List MountRow → Outcome Bool
is_in_table path table =
    if is_empty table
    then panicked
    else returned (any (λ (row : MountRow). str_eq row.path path) table)

read_table :
    (path : Text) (table : List MountRow)
    → All IsRow table
    → is_mounted_in path (split b'\n' (join (b'\n' ∷ []) (map line_of table)))
      ≡ is_in_table path table
unfolding is_mounted_in split join
read_table path [] h = ground (arith, fields_nil)
read_table path (row ∷ table) h =
    ap (is_mounted_in path)
      (split-join b'\n' (line_of row) (map line_of table) (lines_of_table (row ∷ table) h))
    ∙ is_mounted_in_table path (row ∷ table) h

-- If the command succeeds in time and prints a table of mounts, then IsMounted says whether the path
-- is in the table; where the table is empty, it panics. Each line of the table has an address, the
-- word "on", a path and a text that begins with a bracket, with one or more blanks between them, a
-- number of its own in every place; no address and no path is empty or has white space, and no line
-- has a line break.
pub is_mounted_lem :
    {S : Type 0} (pod : Pod S) (path : Text) (table : List MountRow) (r : Reply) (s s1 : S)
    → All IsRow table
    → exec pod (codes "alluxio" ∷ codes "fs" ∷ codes "mount" ∷ []) s ≡ (r, s1)
    → r.error ≡ none
    → r.stdout ≡ join (b'\n' ∷ []) (map line_of table)
    → is_mounted pod path s ≡ (is_in_table path table, s1)
unfolding is_mounted
is_mounted_lem pod path table r s s1 h e f g = ground (arith, read_table path table h)
