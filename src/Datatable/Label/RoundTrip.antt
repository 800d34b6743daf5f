-- ===== src/Datatable/Label/RoundTrip.antt =====
-- What GetTableInfoFromLabel reads back from the labels that the controller writes.
use fluid_data_table.Base.{
  ℕ, suc, ◌+◌, ◌<◌, ◌≡◌, refl, ◌↔◌, true, false, none, some, List, [], ◌∷◌, ◌++◌, arith, length,
  ◌==◌, if◌then◌else◌, Bool-cases, inl, inr,
}
use fluid_data_table.Base.Text.{
  Text, has_byte, split, push_front, replace_byte, split-append, split_single, replace_byte_back,
  has_byte-replace_byte, replace_byte_absent,
}
use fluid_data_table.Datatable.Label.{
  datatable_pre, dash, equals, dot, get_datatable_common_label,
  get_partition_datatable_common_label, infos_to_table_info, get_table_info_from_label,
}
use mathlib.Core.List.{append_assoc}

pre_clean : has_byte dash datatable_pre ≡ false
unfolding has_byte
pre_clean = refl

-- The parts of a label of two names without a dash, and of a rest.
split_label :
    (s t r : Text)
    → has_byte dash s ≡ false
    → has_byte dash t ≡ false
    → split dash (get_datatable_common_label s t ++ (dash ∷ r))
      ≡ datatable_pre ∷ s ∷ t ∷ split dash r
unfolding get_datatable_common_label
split_label s t r hs ht = simp append_assoc (
    rw (split-append dash datatable_pre (s ++ (dash ∷ (t ++ (dash ∷ r)))) pre_clean)
      (rw (split-append dash s (t ++ (dash ∷ r)) hs, split-append dash t r ht)))

-- The text that stands for a partition in its label.
abbrev label_name : Text → Text
label_name p = if has_byte equals p then replace_byte equals dot p else p

label_name_clean : (p : Text) → has_byte dash p ≡ false → has_byte dash (label_name p) ≡ false
label_name_clean p h = ground (arith, has_byte-replace_byte dash equals dot p)

label_name_back : (p : Text) → has_byte dot p ≡ false → replace_byte dot equals (label_name p) ≡ p
label_name_back p h = elim (Bool-cases (has_byte equals p)) [
  | inl e ↦ rw e (replace_byte_back equals dot p h)
  | inr e ↦ rw e (replace_byte_absent dot equals p h)
]

-- A table label is read back as its schema and its table, if neither name has a dash.
pub get_table_info-get_datatable_common_label :
    (s t : Text)
    → has_byte dash s ≡ false
    → has_byte dash t ≡ false
    → get_table_info_from_label (get_datatable_common_label s t)
      ≡ some (record { schema_name = s; table_name = t; partition_name = [] })
unfolding get_table_info_from_label get_datatable_common_label
get_table_info-get_datatable_common_label s t hs ht =
    rw (split-append dash datatable_pre (s ++ (dash ∷ t)) pre_clean)
      (rw (split-append dash s t hs, split_single dash t ht))

-- A partition label is read back exactly, if no name has a dash and the partition has no dot.
pub get_table_info-get_partition_datatable_common_label :
    (s t p : Text)
    → has_byte dash s ≡ false
    → has_byte dash t ≡ false
    → has_byte dash p ≡ false
    → has_byte dot p ≡ false
    → get_table_info_from_label (get_partition_datatable_common_label s t p)
      ≡ some (record { schema_name = s; table_name = t; partition_name = p })
unfolding get_table_info_from_label get_partition_datatable_common_label
get_table_info-get_partition_datatable_common_label s t p hs ht hp hd =
    rw (split_label s t (label_name p) hs ht)
      (rw (split_single dash (label_name p) (label_name_clean p hp), label_name_back p hd))

-- The number of times a byte occurs in a text.
abbrev pub count_byte : ℕ → Text → ℕ
count_byte c [] = 0
count_byte c (x ∷ xs) = (if x == c then 1 else 0) + count_byte c xs

length-push_front : (x : ℕ) (ws : List Text) → 0 < length ws → length (push_front x ws) ≡ length ws
length-push_front x [] h = absurd (omega arith)
length-push_front x (w ∷ ws) h = refl

length-split : (c : ℕ) (s : Text) → length (split c s) ≡ suc (count_byte c s)
unfolding split
length-split c [] = refl
length-split c (x ∷ xs) = ground (arith, length-split c xs, length-push_front x (split c xs))

has_byte→count_byte : (c : ℕ) (s : Text) → has_byte c s ≡ true → 0 < count_byte c s
unfolding has_byte
has_byte→count_byte c [] h = cc
has_byte→count_byte c (x ∷ xs) h = ground (arith, has_byte→count_byte c xs)

has_byte_kept :
    (s : Text) → has_byte dash s ≡ true → has_byte dash (replace_byte equals dot s) ≡ true
unfolding has_byte replace_byte
has_byte_kept [] h = cc
has_byte_kept (x ∷ xs) h = ground (arith, has_byte_kept xs)

has_byte-label_name : (p : Text) → has_byte dash p ≡ true → has_byte dash (label_name p) ≡ true
has_byte-label_name p h = ground (arith, has_byte_kept p)

-- More than four parts are read as a label without a partition.
infos_of_many :
    (d s t : Text) (ps : List Text)
    → 1 < length ps
    → infos_to_table_info (d ∷ s ∷ t ∷ ps)
      ≡ some (record { schema_name = s; table_name = t; partition_name = [] })
unfolding infos_to_table_info
infos_of_many d s t [] h = absurd (omega arith)
infos_of_many d s t (p ∷ []) h = absurd (omega arith)
infos_of_many d s t (p ∷ q ∷ ps) h = refl

-- With a dash in the partition, and none in the schema and in the table, the label is read back as
-- the label of the whole table: the partition is lost.
pub get_table_info_of_dashed_partition :
    (s t p : Text)
    → has_byte dash s ≡ false
    → has_byte dash t ≡ false
    → has_byte dash p ≡ true
    → get_table_info_from_label (get_partition_datatable_common_label s t p)
      ≡ some (record { schema_name = s; table_name = t; partition_name = [] })
unfolding get_table_info_from_label get_partition_datatable_common_label
get_table_info_of_dashed_partition s t p hs ht hp = rw (split_label s t (label_name p) hs ht) (
    infos_of_many datatable_pre s t (split dash (label_name p)) (
      omega (
        arith,
        length-split dash (label_name p),
        has_byte→count_byte dash (label_name p) (has_byte-label_name p hp),
      )))

infos_none : (ws : List Text) → (infos_to_table_info ws ≡ none) ↔ (length ws < 3)
unfolding infos_to_table_info
infos_none [] = ((λ e. omega arith), λ h. refl)
infos_none (a ∷ []) = ((λ e. omega arith), λ h. refl)
infos_none (a ∷ b ∷ []) = ((λ e. omega arith), λ h. refl)
infos_none (a ∷ b ∷ c ∷ []) = ((λ e. cc), λ h. absurd (omega arith))
infos_none (a ∷ b ∷ c ∷ d ∷ []) = ((λ e. cc), λ h. absurd (omega arith))
infos_none (a ∷ b ∷ c ∷ d ∷ e ∷ ws) = ((λ e. cc), λ h. absurd (omega arith))

-- Reading a label fails, with an index out of range, exactly when it has fewer than two dashes.
pub get_table_info_panics :
    (label : Text) → (get_table_info_from_label label ≡ none) ↔ (count_byte dash label < 2)
unfolding get_table_info_from_label
get_table_info_panics label = (
  (λ e. omega (arith, (infos_none (split dash label)).0 e, length-split dash label)),
  (λ h. (infos_none (split dash label)).1 (omega (arith, length-split dash label))),
)
