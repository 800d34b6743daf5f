-- ===== src/Runtime/Labels.antt =====
-- The changes of a node's labels: LabelsToModify of pkg/common/label.go, and the two ways to make
-- them in pkg/utils/label.go.
pub mod Modes
use fluid_data_table.Base.{
  Bool, true, false, not, Option, none, some, List, [], ◌∷◌, ◌++◌, if◌then◌else◌, map,
}
use fluid_data_table.Base.Text.{Text, codes}
use fluid_data_table.Base.Dict.{Dict, insert, erase, has_key}
use fluid_data_table.Base.Result.{Error, Result, ok, err, message}

-- OperationType, and LabelToModify with its fields
pub data OperationType : Type 0 where
  add_label delete_label update_label : OperationType

pub record LabelToModify : Type 0 where
  pub label_key : Text
  pub label_value : Text
  pub operation_type : OperationType

-- operator: a deletion has no value.
unfoldable pub operator : List LabelToModify → Text → Text → OperationType → List LabelToModify
operator labels key value delete_label =
    labels ++ (record { label_key = key; label_value = []; operation_type = delete_label } ∷ [])
operator labels key value add_label =
    labels ++ (record { label_key = key; label_value = value; operation_type = add_label } ∷ [])
operator labels key value update_label =
    labels ++ (record { label_key = key; label_value = value; operation_type = update_label } ∷ [])

-- Add, Update and Delete
abbrev pub add : List LabelToModify → Text → Text → List LabelToModify
add labels key value = operator labels key value add_label

abbrev pub update : List LabelToModify → Text → Text → List LabelToModify
update labels key value = operator labels key value update_label

abbrev pub delete : List LabelToModify → Text → List LabelToModify
delete labels key = operator labels key [] delete_label

-- One round of the loop of ChangeNodeLabelWithUpdateMode.
unfoldable pub change_label : LabelToModify → Dict Text → Result (Dict Text)
change_label l labels = elim l.operation_type [
  | add_label ↦
      if has_key l.label_key labels
      then err (message (codes "fail to add the label"))
      else ok (insert l.label_key l.label_value labels)
  | update_label ↦
      if not (has_key l.label_key labels)
      then err (message (codes "fail to update the label"))
      else ok (insert l.label_key l.label_value labels)
  | delete_label ↦
      if not (has_key l.label_key labels)
      then err (message (codes "fail to delete the label"))
      else ok (erase l.label_key labels)
]

-- ChangeNodeLabelWithUpdateMode up to its call of Update: the labels that it writes.
unfoldable pub change_labels : List LabelToModify → Dict Text → Result (Dict Text)
change_labels [] labels = ok labels
change_labels (l ∷ ls) labels = elim (change_label l labels) [
  | err e ↦ err e
  | ok next ↦ change_labels ls next
]

-- The patch of ChangeNodeLabelWithPatchMode: a value for a key, or null.
abbrev pub patched_value : LabelToModify → Option Text
patched_value l = elim l.operation_type [
  | add_label ↦ some l.label_value
  | update_label ↦ some l.label_value
  | delete_label ↦ none
]

unfoldable pub label_value_pair : List LabelToModify → Dict (Option Text) → Dict (Option Text)
label_value_pair [] pairs = pairs
label_value_pair (l ∷ ls) pairs = label_value_pair ls (insert l.label_key (patched_value l) pairs)

-- The keys of the changes, which both ways return.
abbrev pub modified_labels : List LabelToModify → List Text
modified_labels ls = map (λ (l : LabelToModify). l.label_key) ls

-- The two ways with their calls of the API server: the update of the node with its labels, and the
-- patch.
module _ {S : Type 0} where
  abbrev pub modified : List LabelToModify → Option Error × S → Result (List Text) × S
  modified changes (none, s) = (ok (modified_labels changes), s)
  modified changes (some e, s) = (err e, s)

  -- ChangeNodeLabelWithUpdateMode
  unfoldable pub change_node_label_with_update_mode :
      (Dict Text → S → Option Error × S)
      → List LabelToModify
      → Dict Text
      → S
      → Result (List Text) × S
  change_node_label_with_update_mode update_node changes labels s =
      elim (change_labels changes labels) [
        | err e ↦ (err e, s)
        | ok next ↦ modified changes (update_node next s)
      ]

  -- ChangeNodeLabelWithPatchMode
  unfoldable pub change_node_label_with_patch_mode :
      (Dict (Option Text) → S → Option Error × S) → List LabelToModify → S → Result (List Text) × S
  change_node_label_with_patch_mode patch_node changes s =
      modified changes (patch_node (label_value_pair changes []) s)
