-- ===== src/Helm/Listing.antt =====
-- The lists of releases of pkg/utils/helm/utils.go: ListReleases, ListReleaseMap and
-- ListAllReleasesWithDetail.
pub mod Printed
use fluid_data_table.Base.{
  ℕ, Bool, true, false, not, ltb, Option, none, some, List, [], ◌∷◌, if◌then◌else◌, length,
}
use fluid_data_table.Base.Text.{Text, codes, split, contains, trim_left, trim_right}
use fluid_data_table.Base.Strconv.{fields}
use fluid_data_table.Base.Dict.{Dict, insert}
use fluid_data_table.Base.Result.{Error, Result, ok, err}
use fluid_data_table.Process.{Machine, output_of}
use fluid_data_table.Helm.{helm_cmd}

-- strings.Trim(line, " ")
unfoldable pub trimmed : Text → Text
trimmed line = trim_right b' ' (trim_left b' ' line)

-- The last column, `cols[len(cols)-1]`, of a line that has the first and others.
abbrev pub last_of {ℓ} : {A : Type ℓ} → A → List A → A
last_of x [] = x
last_of x (y ∷ ys) = last_of y ys

-- What a line adds to the map of ListReleaseMap.
abbrev pub add_release : List Text → Dict Text → Dict Text
add_release [] releases = releases
add_release (name ∷ []) releases = releases
add_release (name ∷ col ∷ cols) releases = insert name (last_of col cols) releases

-- What a line adds to the map of ListAllReleasesWithDetail.
abbrev pub add_detail : List Text → Dict (List Text) → Dict (List Text)
add_detail [] releases = releases
add_detail (name ∷ cols) releases =
    if ltb 3 (length (name ∷ cols)) then insert name (name ∷ cols) releases else releases

-- The loop over the lines; lines with "NAME" are left out.
unfoldable pub read_lines {ℓ} :
    {V : Type ℓ} → (List Text → Dict V → Dict V) → List Text → Dict V → Dict V
unfolding trimmed
read_lines add [] releases = releases
read_lines add (line ∷ lines) releases = read_lines add lines (
    if contains (trimmed line) (codes "NAME")
    then releases
    else add (fields (trimmed line)) releases)

module _ {S : Type 0} (m : Machine S) where
  -- The output of a list command.
  unfoldable pub helm_list : List Text → S → Result Text × S
  helm_list args s = elim (m.look_path helm_cmd s) [
    | err e ↦ (err e, s)
    | ok binary ↦ (let (r, s1) = m.run helm_cmd args s in (output_of r, s1))
  ]

  abbrev pub read_output {ℓ} : {A : Type ℓ} → (Text → A) → Result Text × S → Result A × S
  read_output read (r, s) = (elim r [ err e ↦ err e | ok out ↦ ok (read out) ], s)

  -- ListReleases
  unfoldable pub list_releases : Text → S → Result (List Text) × S
  list_releases namespace s =
      read_output (split b'\n')
        (helm_list (codes "list" ∷ codes "-q" ∷ codes "-n" ∷ namespace ∷ []) s)

  -- ListReleaseMap
  unfoldable pub list_release_map : Text → S → Result (Dict Text) × S
  list_release_map namespace s =
      read_output (λ out. read_lines add_release (split b'\n' out) [])
        (helm_list (codes "list" ∷ codes "-n" ∷ namespace ∷ []) s)

  -- ListAllReleasesWithDetail
  unfoldable pub list_all_releases_with_detail : Text → S → Result (Dict (List Text)) × S
  list_all_releases_with_detail namespace s =
      read_output (λ out. read_lines add_detail (split b'\n' out) [])
        (helm_list (codes "list" ∷ codes "--all" ∷ codes "-n" ∷ namespace ∷ []) s)
