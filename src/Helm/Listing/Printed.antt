-- ===== src/Helm/Listing/Printed.antt =====
-- ListReleaseMap of pkg/utils/helm/utils.go against the table that `helm list` prints.
use mathlib.Core.List.{append-nil}
use fluid_data_table.Base.{
  ℕ, zero, suc, true, false, Option, none, some, List, [], ◌∷◌, ◌++◌, ◌≡◌, refl, ap, ◌∙◌, arith,
  if◌then◌else◌, All, map,
}
use fluid_data_table.Base.Text.{
  Text, codes, join, split, split-join, has_byte, contains, has_prefix, trim_left, trim_right,
  str_eq,
}
use fluid_data_table.Base.Dict.{Dict, lookup, insert, lookup-insert}
use fluid_data_table.Base.Result.{ok}
use fluid_data_table.Base.Strconv.{fields}
use fluid_data_table.Base.Strconv.Words.{
  IsWord, pad, column, fields-column, fields-append, fields-pad, fields_word, fields_nil,
}
use fluid_data_table.Base.Strconv.Trimmed.{
  fields-trim_left, fields-trim_right, contains-trim_left, contains-trim_right,
}
use fluid_data_table.Process.{Machine, Ended}
use fluid_data_table.Helm.{helm_cmd}
use fluid_data_table.Helm.Listing.{
  trimmed, last_of, add_release, read_lines, helm_list, list_release_map,
}

-- A row of the table: the name and the columns after it, each with the blanks that follow, and the
-- last column.
pub record ReleaseRow : Type 0 where
  pub name : Text
  pub gap : ℕ
  pub columns : List (Text × ℕ)
  pub app_version : Text
  pub tail : ℕ

abbrev pub columns_text : List (Text × ℕ) → Text → Text
columns_text [] t = t
columns_text ((w, n) ∷ cols) t = column w n (columns_text cols t)

abbrev pub row_text : ReleaseRow → Text
row_text row =
    column row.name row.gap (columns_text row.columns (row.app_version ++ pad row.tail []))

abbrev pub IsRelease : ReleaseRow → Type 0
IsRelease row =
    IsWord row.name
    × All (λ (c : Text × ℕ). IsWord c.0) row.columns
    × IsWord row.app_version
    × (has_byte b'\n' (row_text row) ≡ false)
    × (contains (row_text row) (codes "NAME") ≡ false)

-- The rows, and the empty line after the last one.
abbrev pub row_lines : List ReleaseRow → List Text
row_lines [] = [] ∷ []
row_lines (row ∷ rows) = row_text row ∷ row_lines rows

abbrev pub table_text : Text → List ReleaseRow → Text
table_text header rows = join (b'\n' ∷ []) ((codes "NAME" ++ header) ∷ row_lines rows)

-- The last column of the last row that has a name.
unfoldable pub version_of : Text → List ReleaseRow → Option Text
version_of k [] = none
version_of k (row ∷ rows) = elim (version_of k rows) [
  | some v ↦ some v
  | none ↦ if str_eq row.name k then some row.app_version else none
]

fields_tail : (w : Text) (n : ℕ) → IsWord w → fields (w ++ pad n []) ≡ w ∷ []
fields_tail w zero h = ap fields (append-nil w) ∙ fields_word w h.0 h.1
fields_tail w (suc n) h =
    fields-append w b' ' (pad n []) h.0 h.1 refl
    ∙ ap (λ (ws : List Text). w ∷ ws) (fields-pad n [] ∙ fields_nil)

fields-columns_text :
    (cols : List (Text × ℕ)) (t : Text)
    → All (λ (c : Text × ℕ). IsWord c.0) cols
    → fields (columns_text cols t) ≡ map (λ (c : Text × ℕ). c.0) cols ++ fields t
fields-columns_text [] t h = refl
fields-columns_text ((w, n) ∷ cols) t h =
    fields-column w n (columns_text cols t) h.0
    ∙ ap (λ (ws : List Text). w ∷ ws) (fields-columns_text cols t h.1)

fields-row_text :
    (row : ReleaseRow)
    → IsRelease row
    → fields (row_text row)
      ≡ row.name ∷ (map (λ (c : Text × ℕ). c.0) row.columns ++ row.app_version ∷ [])
fields-row_text row h =
    fields-column row.name row.gap _ h.0
    ∙ ap (λ (ws : List Text). row.name ∷ ws)
        (fields-columns_text row.columns _ h.1
          ∙ ap (λ (ws : List Text). map (λ (c : Text × ℕ). c.0) row.columns ++ ws)
              (fields_tail row.app_version row.tail h.2))

last_of-append : (x v : Text) (ws : List Text) → last_of x (ws ++ v ∷ []) ≡ v
last_of-append x v [] = refl
last_of-append x v (w ∷ ws) = last_of-append w v ws

add_release-append :
    (name v : Text) (ws : List Text) (releases : Dict Text)
    → add_release (name ∷ (ws ++ v ∷ [])) releases ≡ insert name v releases
add_release-append name v [] releases = refl
add_release-append name v (w ∷ ws) releases =
    ap (λ u. insert name u releases) (last_of-append w v ws)

-- The header is left out.
header_has_name :
    (header : Text) → contains (trimmed (codes "NAME" ++ header)) (codes "NAME") ≡ true
unfolding trimmed contains has_prefix trim_left trim_right
header_has_name header = ground arith

trimmed_row :
    (row : ReleaseRow)
    → IsRelease row
    → (contains (trimmed (row_text row)) (codes "NAME") ≡ false)
      × (fields (trimmed (row_text row)) ≡ fields (row_text row))
unfolding trimmed
trimmed_row row h = (
  contains-trim_right (trim_left b' ' (row_text row)) (codes "NAME")
      (contains-trim_left (row_text row) (codes "NAME") h.4),
  fields-trim_right (trim_left b' ' (row_text row)) ∙ fields-trim_left (row_text row),
)

abbrev pub released : List ReleaseRow → Dict Text → Dict Text
released [] releases = releases
released (row ∷ rows) releases = released rows (insert row.name row.app_version releases)

added_row :
    (row : ReleaseRow) (releases : Dict Text)
    → IsRelease row
    → add_release (fields (trimmed (row_text row))) releases
      ≡ insert row.name row.app_version releases
added_row row releases h =
    ap (λ ws. add_release ws releases) ((trimmed_row row h).1 ∙ fields-row_text row h)
    ∙ add_release-append row.name row.app_version (map (λ (c : Text × ℕ). c.0) row.columns) releases

trimmed_nil : (contains (trimmed []) (codes "NAME") ≡ false) × (fields (trimmed []) ≡ [])
unfolding trimmed contains has_prefix trim_left trim_right
trimmed_nil = (refl, fields_nil)

read_rows :
    (rows : List ReleaseRow) (releases : Dict Text)
    → All IsRelease rows
    → read_lines add_release (row_lines rows) releases ≡ released rows releases
unfolding read_lines
read_rows [] releases h = ground (arith, trimmed_nil)
read_rows (row ∷ rows) releases h = ground (
  arith,
  trimmed_row row h.0,
  added_row row releases h.0,
  read_rows rows (insert row.name row.app_version releases) h.1,
)

lookup_nil : (k : Text) → lookup {V = Text} k [] ≡ none
unfolding lookup
lookup_nil k = refl

lookup-released :
    (k : Text) (rows : List ReleaseRow) (releases : Dict Text)
    → lookup k (released rows releases)
      ≡ elim (version_of k rows) [ some v ↦ some v | none ↦ lookup k releases ]
unfolding version_of
lookup-released k [] releases = refl
lookup-released k (row ∷ rows) releases = ground (
  arith,
  lookup-released k rows (insert row.name row.app_version releases),
  lookup-insert row.name k row.app_version releases,
)

abbrev pub IsLine : Text → Type 0
IsLine line = has_byte b'\n' line ≡ false

row_lines-All : (rows : List ReleaseRow) → All IsRelease rows → All IsLine (row_lines rows)
unfolding has_byte
row_lines-All [] h = (refl, tt)
row_lines-All (row ∷ rows) h = (h.0.3, row_lines-All rows h.1)

read_table :
    (header : Text) (rows : List ReleaseRow)
    → IsLine (codes "NAME" ++ header)
    → All IsRelease rows
    → read_lines add_release (split b'\n' (table_text header rows)) [] ≡ released rows []
read_table header rows n h =
    ap (λ lines. read_lines add_release lines [])
      (split-join b'\n' (codes "NAME" ++ header) (row_lines rows) (n, row_lines-All rows h))
    ∙ unfold read_lines in ground (arith, header_has_name header, read_rows rows [] h)

-- If `helm` is found and its list command succeeds, then ListReleaseMap reads the table that it
-- prints: for a header that begins with "NAME" and any number of rows, each one line without "NAME"
-- of a name, further columns and a last column, which are words with blanks between them, it returns
-- without an error a map that has for each name the last column of the last row with that name, and
-- no other entry.
pub list_release_map-table_text :
    {S : Type 0} (m : Machine S) (namespace helm header k : Text) (rows : List ReleaseRow)
    (r : Ended) (s s1 : S)
    → IsLine (codes "NAME" ++ header)
    → All IsRelease rows
    → m.look_path helm_cmd s ≡ ok helm
    → m.run helm_cmd (codes "list" ∷ codes "-n" ∷ namespace ∷ []) s ≡ (ok r, s1)
    → r.error ≡ none
    → r.stdout ≡ table_text header rows
    → (list_release_map m namespace s ≡ (ok (released rows []), s1))
      × (lookup k (released rows []) ≡ version_of k rows)
unfolding list_release_map helm_list
list_release_map-table_text m namespace helm header k rows r s s1 n h found ran e out = (
  ground (arith, read_table header rows n h),
  ground (arith, lookup-released k rows [], lookup_nil k),
)
