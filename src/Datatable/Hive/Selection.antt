-- ===== src/Datatable/Hive/Selection.antt =====
-- GetSuitablePartition of pkg/utils/hive/hiveClient.go: which of the printed partitions it chooses.
use fluid_data_table.Base.{
  true, List, [], ◌∷◌, ◌++◌, ◌≡◌, refl, arith, All, map, keep, ==_iff, inl, inr, Bool-cases, ap,
}
use fluid_data_table.Base.Text.{Text, codes, has_prefix, contains}
use fluid_data_table.Base.Dict.{Dict}
use fluid_data_table.Base.Strconv.{trim_space}
use fluid_data_table.Base.Result.{Result, ok}
use fluid_data_table.Datatable.World.{Env, State, returned, continue, run_query, ◌>>=◌}
use fluid_data_table.Datatable.Hive.{has_columns, get_suitable_partition, line_is_suitable, scanned}
use fluid_data_table.Datatable.Hive.Partitions.{equals}

-- A text has another one in it.
abbrev pub IsPart : Text → Text → Type 0
IsPart p s = (a : Text) × (b : Text) × (s ≡ a ++ (p ++ b))

-- The text `k=v` of every column stands somewhere in the line.
abbrev pub HasColumns : Dict Text → Text → Type 0
HasColumns columns line = All (λ c. IsPart (equals c) line) columns

-- The second list has exactly the elements of the first one with a property, in the same order.
pub data Selection (P : Text → Type 0) : List Text → List Text → Type 0 where
  no_more : Selection P [] []
  chosen : {x : Text} {xs ys : List Text} → P x → Selection P xs ys → Selection P (x ∷ xs) (x ∷ ys)
  left_out : {x : Text} {xs ys : List Text} → ¬ P x → Selection P xs ys → Selection P (x ∷ xs) ys

has_prefix→part : (s p : Text) → has_prefix s p ≡ true → (b : Text) × (s ≡ p ++ b)
unfolding has_prefix
has_prefix→part s [] h = (s, refl)
has_prefix→part [] (c ∷ p) h = ground arith
has_prefix→part (x ∷ s) (c ∷ p) h =
    let (b, e) = has_prefix→part s p (ground arith) in
    let same = (==_iff x c).0 (ground arith) in (b, cc)

has_prefix-append : (p b : Text) → has_prefix (p ++ b) p ≡ true
unfolding has_prefix
has_prefix-append [] b = refl
has_prefix-append (c ∷ p) b = ground (arith, has_prefix-append p b)

has_prefix→contains : (s p : Text) → has_prefix s p ≡ true → contains s p ≡ true
unfolding contains
has_prefix→contains [] p h = h
has_prefix→contains (x ∷ s) p h = ground arith

contains-append : (a p b : Text) → contains (a ++ (p ++ b)) p ≡ true
unfolding contains
contains-append [] p b = has_prefix→contains (p ++ b) p (has_prefix-append p b)
contains-append (x ∷ a) p b = ground (arith, contains-append a p b)

contains→part : (s p : Text) → contains s p ≡ true → IsPart p s
unfolding contains
contains→part [] p h = let (b, e) = has_prefix→part [] p h in ([], b, e)
contains→part (x ∷ s) p h = elim (Bool-cases (has_prefix (x ∷ s) p)) [
  | inl k ↦ (let (b, e) = has_prefix→part (x ∷ s) p k in ([], b, e))
  | inr k ↦ (let (a, b, e) = contains→part s p (ground arith) in (x ∷ a, b, cc))
]

part→contains : (s p : Text) → IsPart p s → contains s p ≡ true
part→contains s p (a, b, e) = rw e (contains-append a p b)

module _ (env : Env) where
  has_columns→ :
      (line : Text) (columns : Dict Text)
      → has_columns env line columns ≡ true
      → HasColumns columns line
  unfolding has_columns
  has_columns→ line [] h = tt
  has_columns→ line ((k, v) ∷ columns) h =
      let p : contains line (equals (k, v)) ≡ true = ground arith in
      let q : has_columns env line columns ≡ true = ground arith in
      (contains→part line (equals (k, v)) p, has_columns→ line columns q)

  →has_columns :
      (line : Text) (columns : Dict Text)
      → HasColumns columns line
      → has_columns env line columns ≡ true
  unfolding has_columns
  →has_columns line [] h = refl
  →has_columns line ((k, v) ∷ columns) (h, hs) =
      ground (arith, part→contains line (equals (k, v)) h, →has_columns line columns hs)

  Selection-keep :
      (columns : Dict Text) (others : List (Dict Text)) (lines : List Text)
      → Selection
          (HasColumns columns)
          lines
          (keep (λ l. line_is_suitable env l (columns ∷ others)) lines)
  Selection-keep columns others [] = no_more
  Selection-keep columns others (l ∷ lines) = elim (Bool-cases (has_columns env l columns)) [
    | inl k ↦ rw (k, keep) (chosen (has_columns→ l columns k) (Selection-keep columns others lines))
    | inr k ↦
        rw (k, keep)
          (left_out (λ h. absurd (let p = →has_columns l columns h in ground arith))
            (Selection-keep columns others lines))
  ]

  scanned-map : (line : Text) (lines : List Text) → scanned env line (map ok lines) ≡ lines
  unfolding scanned
  scanned-map line [] = refl
  scanned-map line (l ∷ lines) = ap (λ ls. l ∷ ls) (scanned-map l lines)

  -- If Hive chooses the schema, and lists partitions whose rows can all be read, then
  -- GetSuitablePartition returns exactly the trimmed rows in which the text `k=v` of every column of
  -- the first wanted partition stands somewhere, in their order; the other wanted partitions count
  -- for nothing.
  pub get_suitable_partition_lem :
      (schema_name table_name : Text) (columns : Dict Text) (others : List (Dict Text))
      (used : List (Result Text)) (lines : List Text) (s s1 s2 : State)
      → run_query env (codes "use " ++ schema_name) s ≡ (returned used, s1)
      → run_query env (codes "show partitions " ++ table_name) s1 ≡ (returned (map ok lines), s2)
      → (names : List Text) × (get_suitable_partition env schema_name table_name
            (columns ∷ others)
            s
          ≡ (returned names, s2))
        × Selection (HasColumns columns) (map trim_space lines) names
  unfolding get_suitable_partition ◌>>=◌
  get_suitable_partition_lem schema_name table_name columns others used lines s s1 s2 h1 h2 = (
    keep (λ l. line_is_suitable env l (columns ∷ others)) (map trim_space lines),
    rw (h1, continue) (rw (h2, continue) (rw (scanned-map [] lines) refl)),
    Selection-keep columns others (map trim_space lines),
  )
