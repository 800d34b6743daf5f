-- ===== src/Alluxio/Output/Totals.antt =====
-- Du and Count of pkg/ddc/alluxio/operations/base.go on what Alluxio prints.
use fluid_data_table.Base.{ℕ, false, none, some, [], ◌∷◌, ◌++◌, ◌≡◌, refl, ap, ◌∙◌, arith}
use fluid_data_table.Base.Text.{
  trim_left, trim_right, Text, codes, split_single, split-append, has_byte, has_byte-append,
}
use fluid_data_table.Base.Int.{ℤ}
use fluid_data_table.Base.Strconv.{fields, parse_int}
use fluid_data_table.Base.Strconv.Words.{IsWord, column, fields-column, fields_word}
use fluid_data_table.Datatable.World.{returned}
use fluid_data_table.Alluxio.Shell.{Pod, Reply, exec, exec_without_timeout}
use fluid_data_table.Alluxio.Operations.{run_succeeds}
use fluid_data_table.Alluxio.Output.{
  trim_left, trim_right, second_line, read_usage, du, read_counts, count, parse_uint, to_int64,
}

trim_right_absent : (c : ℕ) (s : Text) → has_byte c s ≡ false → trim_right c s ≡ s
unfolding trim_right has_byte
trim_right_absent c [] h = refl
trim_right_absent c (x ∷ []) h = ground arith
trim_right_absent c (x ∷ y ∷ s) h = ground (arith, trim_right_absent c (y ∷ s))

trim_right-append : (c : ℕ) (s : Text) → has_byte c s ≡ false → trim_right c (s ++ c ∷ []) ≡ s
unfolding trim_right has_byte
trim_right-append c [] h = ground arith
trim_right-append c (x ∷ []) h = ground arith
trim_right-append c (x ∷ y ∷ s) h = ground (arith, trim_right-append c (y ∷ s))

trim_left_absent : (c : ℕ) (s : Text) → has_byte c s ≡ false → trim_left c s ≡ s
unfolding trim_left has_byte
trim_left_absent c [] h = refl
trim_left_absent c (x ∷ s) h = ground arith

unbracketed :
    (s : Text)
    → has_byte b'(' s ≡ false
    → has_byte b')' s ≡ false
    → trim_right b')' (trim_left b'(' (b'(' ∷ (s ++ b')' ∷ []))) ≡ s
unfolding trim_left has_byte
unbracketed s h k =
    let e : has_byte b'(' (s ++ b')' ∷ []) ≡ false =
      ground (arith, has_byte-append b'(' s (b')' ∷ [])) in
    ap (trim_right b')') (trim_left_absent b'(' (s ++ b')' ∷ []) e) ∙ trim_right-append b')' s k

second_line-append :
    (header line : Text)
    → has_byte b'\n' header ≡ false
    → has_byte b'\n' line ≡ false
    → second_line (header ++ b'\n' ∷ line) ≡ some (fields line)
unfolding second_line
second_line-append header line h k =
    ground (arith, split-append b'\n' header line h, split_single b'\n' line k)

-- A line of `du`: the sizes, the share in brackets, and the path, with blanks between them.
abbrev pub bracketed : Text → Text
bracketed s = b'(' ∷ (s ++ b')' ∷ [])

abbrev pub usage_line : ℕ → Text → Text → Text → Text → Text
usage_line n ufs cached share path =
    column ufs n (column cached n (column (bracketed share) n path))

usage_fields :
    (n : ℕ) (ufs cached share path : Text)
    → IsWord ufs
    → IsWord cached
    → IsWord (bracketed share)
    → IsWord path
    → fields (usage_line n ufs cached share path) ≡ ufs ∷ cached ∷ bracketed share ∷ path ∷ []
usage_fields n ufs cached share path h1 h2 h3 h4 = ground (
  arith,
  fields-column ufs n (column cached n (column (bracketed share) n path)) h1,
  fields-column cached n (column (bracketed share) n path) h2,
  fields-column (bracketed share) n path h3,
  fields_word path h4.0 h4.1,
)

counts_fields :
    (n : ℕ) (files folders total : Text)
    → IsWord files
    → IsWord folders
    → IsWord total
    → fields (column files n (column folders n total)) ≡ files ∷ folders ∷ total ∷ []
counts_fields n files folders total h1 h2 h3 = ground (
  arith,
  fields-column files n (column folders n total) h1,
  fields-column folders n total h2,
  fields_word total h3.0 h3.1,
)

-- The fields of the line are read as a usage.
usage_of_fields :
    (stdout ufs cached share path : Text) (u c : ℤ)
    → second_line stdout ≡ some (ufs ∷ cached ∷ bracketed share ∷ path ∷ [])
    → parse_int ufs ≡ some u
    → parse_int cached ≡ some c
    → trim_right b')' (trim_left b'(' (bracketed share)) ≡ share
    → read_usage stdout ≡ returned (record { ufs = u; cached = c; cached_percentage = share })
unfolding read_usage
usage_of_fields stdout ufs cached share path u c h p q t = ground arith

counts_of_fields :
    (stdout files folders total : Text) (a b c : ℕ)
    → second_line stdout ≡ some (files ∷ folders ∷ total ∷ [])
    → parse_uint files ≡ some a
    → parse_uint folders ≡ some b
    → parse_uint total ≡ some c
    → read_counts stdout ≡ returned (to_int64 a, (to_int64 b, to_int64 c))
unfolding read_counts
counts_of_fields stdout files folders total a b c h p q t = ground arith

-- If the command succeeds in time and prints a header and a line with two sizes, a share in brackets
-- and a path, then Du returns the sizes and the share without its brackets.
pub du_lem :
    {S : Type 0} (pod : Pod S) (path header : Text) (n : ℕ) (ufs cached share : Text) (u c : ℤ)
    (r : Reply) (s s1 : S)
    → IsWord ufs × IsWord cached × IsWord (bracketed share) × IsWord path
    → has_byte b'\n' header ≡ false
    → has_byte b'\n' (usage_line n ufs cached share path) ≡ false
    → has_byte b'(' share ≡ false
    → has_byte b')' share ≡ false
    → parse_int ufs ≡ some u
    → parse_int cached ≡ some c
    → exec pod (codes "alluxio" ∷ codes "fs" ∷ codes "du" ∷ codes "-s" ∷ path ∷ []) s ≡ (r, s1)
    → r.error ≡ none
    → r.stdout ≡ header ++ b'\n' ∷ usage_line n ufs cached share path
    → du pod path s ≡ (returned (record { ufs = u; cached = c; cached_percentage = share }), s1)
unfolding du
du_lem pod path header n ufs cached share u c r s s1 w h1 h2 h3 h4 p1 p2 e f g =
    let line = second_line-append header (usage_line n ufs cached share path) h1 h2 in
    let words = usage_fields n ufs cached share path w.0 w.1 w.2 w.3 in
    let k : second_line r.stdout ≡ some (ufs ∷ cached ∷ bracketed share ∷ path ∷ []) =
      ap second_line g ∙ (line ∙ ap some words) in
    run_succeeds pod _ read_usage r s s1 e f
    ∙ ap (λ o. (o, s1))
        (usage_of_fields r.stdout ufs cached share path u c k p1 p2 (unbracketed share h3 h4))

-- If the command succeeds and prints a header and a line with three numbers below 2^64, then Count
-- returns them as signed numbers: each one below 2^63 is itself, and any other comes out negative.
pub count_lem :
    {S : Type 0} (pod : Pod S) (path header : Text) (n : ℕ) (files folders total : Text) (a b c : ℕ)
    (r : Reply) (s s1 : S)
    → IsWord files × IsWord folders × IsWord total
    → has_byte b'\n' header ≡ false
    → has_byte b'\n' (column files n (column folders n total)) ≡ false
    → parse_uint files ≡ some a
    → parse_uint folders ≡ some b
    → parse_uint total ≡ some c
    → exec_without_timeout pod (codes "alluxio" ∷ codes "fs" ∷ codes "count" ∷ path ∷ []) s
      ≡ (r, s1)
    → r.error ≡ none
    → r.stdout ≡ header ++ b'\n' ∷ column files n (column folders n total)
    → count pod path s ≡ (returned (to_int64 a, (to_int64 b, to_int64 c)), s1)
unfolding count
count_lem pod path header n files folders total a b c r s s1 w h1 h2 p1 p2 p3 e f g =
    let line = second_line-append header (column files n (column folders n total)) h1 h2 in
    let words = counts_fields n files folders total w.0 w.1 w.2 in
    let k : second_line r.stdout ≡ some (files ∷ folders ∷ total ∷ []) =
      ap second_line g ∙ (line ∙ ap some words) in
    let o = counts_of_fields r.stdout files folders total a b c k p1 p2 p3 in ground arith
