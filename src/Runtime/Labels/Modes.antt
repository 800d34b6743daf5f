-- ===== src/Runtime/Labels/Modes.antt =====
-- The update mode and the patch mode of pkg/utils/label.go change labels alike.
use fluid_data_table.Base.{
  Option, none, some, List, [], ◌∷◌, if◌then◌else◌, ◌≡◌, refl, arith, inl, inr, sym, ◌∙◌,
}
use fluid_data_table.Base.Text.{Text, str_eq}
use fluid_data_table.Base.Dict.{Dict, insert, lookup, lookup-insert, lookup-erase}
use fluid_data_table.Base.Result.{Result-cases, ok}
use fluid_data_table.Runtime.Labels.{
  LabelToModify, change_label, change_labels, label_value_pair, patched_value,
}

-- What a strategic merge patch makes of the value of a key: a value replaces it, and null removes it.
abbrev pub merged : Option (Option Text) → Option Text → Option Text
merged none old = old
merged (some new) old = new

change_label-lookup :
    (l : LabelToModify) (labels next : Dict Text) (k : Text)
    → change_label l labels ≡ ok next
    → lookup k next ≡ (if str_eq l.label_key k then patched_value l else lookup k labels)
unfolding change_label
change_label-lookup l labels next k h =
    ground
      (arith, lookup-insert l.label_key k l.label_value labels, lookup-erase l.label_key k labels)

change_labels-cons :
    (l : LabelToModify) (ls : List LabelToModify) (labels mid : Dict Text)
    → change_label l labels ≡ ok mid
    → change_labels (l ∷ ls) labels ≡ change_labels ls mid
unfolding change_labels
change_labels-cons l ls labels mid j = rw (j, change_labels) refl

merge_step :
    (ls : List LabelToModify) (pairs : Dict (Option Text)) (labels next : Dict Text)
    → change_labels ls labels ≡ ok next
    → (k : Text) (old : Option Text) → merged (lookup k pairs) old ≡ lookup k labels
    → lookup k next ≡ merged (lookup k (label_value_pair ls pairs)) old
unfolding change_labels label_value_pair
merge_step [] pairs labels next h k old e = ground arith
merge_step (l ∷ ls) pairs labels next h k old e = elim (Result-cases (change_label l labels)) [
  | inr (x, j) ↦ ground arith
  | inl (mid, j) ↦
      merge_step ls (insert l.label_key (patched_value l) pairs) mid next
        (sym (change_labels-cons l ls labels mid j) ∙ h) k old
        (ground (
          arith,
          change_label-lookup l labels mid k j,
          lookup-insert l.label_key k (patched_value l) pairs,
        ))
]

-- Where the update mode accepts the changes, the labels that it writes are those that the patch of
-- the patch mode, merged key by key, makes of the old labels.
pub change_labels-label_value_pair :
    (ls : List LabelToModify) (labels next : Dict Text) (k : Text)
    → change_labels ls labels ≡ ok next
    → lookup k next ≡ merged (lookup k (label_value_pair ls [])) (lookup k labels)
unfolding lookup
change_labels-label_value_pair ls labels next k h =
    merge_step ls [] labels next h k (lookup k labels) refl
