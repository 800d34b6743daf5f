-- ===== src/Datatable/Hive/Location.antt =====
-- TableLocationNotChange of pkg/utils/hive/hiveClient.go: where the location of a table is.
use fluid_data_table.Base.{
  Bool, true, false, Option, none, some, List, [], ◌∷◌, ◌≡◌, refl, arith, any, map, if◌then◌else◌,
  All, inl, inr, Bool-cases,
}
use fluid_data_table.Base.Text.{Text, codes, contains, has_prefix, drop_bytes}
use fluid_data_table.Base.Result.{Result, ok, err, message}
use fluid_data_table.Datatable.World.{Outcome, returned, failed, panicked}

-- The second part of strings.SplitN(line, separator, 2), if there is one.
unfoldable pub after_separator : Text → Text → Option Text
after_separator separator [] = none
after_separator separator (x ∷ xs) =
    if has_prefix (x ∷ xs) separator
    then some (drop_bytes separator (x ∷ xs))
    else after_separator separator xs

-- The separator is these three bytes, and not white space.
abbrev pub separator : Text
separator = codes "\\s+"

abbrev pub location_tag : Text
location_tag = codes "Location:"

-- The answer for the line with the location: whether it has changed, and the location if it has not.
unfoldable pub location_in : Text → Outcome (Bool × Text)
unfolding after_separator
location_in line = elim (after_separator separator line) [
  | none ↦ panicked
  | some location ↦
      if contains location (codes "hdfs") then returned (false, location) else returned (true, [])
]

-- The rows of the answer; a row that cannot be read leaves the line before.
unfoldable pub find_location : List (Result Text) → Text → Outcome (Bool × Text)
find_location [] line = failed (message (codes "fail to get the location"))
find_location (ok text ∷ rows) line =
    if contains text location_tag then location_in text else find_location rows text
find_location (err e ∷ rows) line =
    if contains line location_tag then location_in line else find_location rows line

-- TableLocationNotChange, of the answer to "desc formatted": a query that fails is logged, and its
-- missing rows are used.
unfoldable pub table_location_not_change : Result (List (Result Text)) → Outcome (Bool × Text)
table_location_not_change (err e) = panicked
table_location_not_change (ok rows) = find_location rows []

-- A text without the separator has no second part.
after_separator_absent : (p s : Text) → contains s p ≡ false → after_separator p s ≡ none
unfolding contains after_separator
after_separator_absent p [] h = refl
after_separator_absent p (x ∷ xs) h = ground (arith, after_separator_absent p xs)

find_location_panics :
    (lines : List Text) (line : Text)
    → All (λ (t : Text). contains t separator ≡ false) lines
    → any (λ (t : Text). contains t location_tag) lines ≡ true
    → find_location (map (λ (t : Text). ok t) lines) line ≡ panicked
unfolding find_location location_in
find_location_panics [] line h k = ground arith
find_location_panics (t ∷ lines) line h k = elim (Bool-cases (contains t location_tag)) [
  | inl c ↦ ground (arith, after_separator_absent separator t h.0)
  | inr c ↦ ground (arith, find_location_panics lines t h.1)
]

-- TableLocationNotChange panics on every answer that has a line with "Location:", as long as no line
-- has the three bytes of the regular expression `\s+` in it.
pub table_location_not_change_panics :
    (lines : List Text)
    → All (λ (t : Text). contains t separator ≡ false) lines
    → any (λ (t : Text). contains t location_tag) lines ≡ true
    → table_location_not_change (ok (map (λ (t : Text). ok t) lines)) ≡ panicked
unfolding table_location_not_change
table_location_not_change_panics lines h k = find_location_panics lines [] h k
