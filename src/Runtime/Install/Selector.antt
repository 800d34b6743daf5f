-- ===== src/Runtime/Install/Selector.antt =====
-- The nodes of the workers: the label that LabelCacheNode of pkg/utils/lifecycle/node.go gives a node,
-- and the selector that InstallRelease of pkg/utils/helm/utils.go gives the workers.
use mathlib.Core.List.{append_assoc}
use fluid_data_table.Base.{
  ◌<◌, false, Option, none, some, List, [], ◌∷◌, ◌++◌, ◌≡◌, refl, ap, ◌∙◌, arith, if◌then◌else◌,
  if_cases, length, length-append,
}
use fluid_data_table.Base.Text.{Text, codes, str_eq, str_eq_refl}
use fluid_data_table.Base.Int.{ℤ}
use fluid_data_table.Base.Dict.{Dict, lookup, insert, lookup-insert}
use fluid_data_table.Runtime.Labels.{
  LabelToModify, label_value_pair, patched_value, operator, add, add_label,
}
use fluid_data_table.Schedule.Info.{
  RuntimeInfo, StorageMap, capacity_prefix, storage_label, get_storage_label_name,
  get_common_label_name, get_runtime_label_name, get_label_name_for_memory, get_exclusive_key,
  get_exclusive_value, get_level_storage_map,
}
use fluid_data_table.Schedule.Assign.{
  NodeApi, add_capacity, label_node_with_capacity_info, cache_labels,
}
use fluid_data_table.Helm.{worker_selector}

label_value_pair-append :
    (labels : List LabelToModify) (l : LabelToModify) (pairs : Dict (Option Text))
    → label_value_pair (labels ++ l ∷ []) pairs
      ≡ insert l.label_key (patched_value l) (label_value_pair labels pairs)
unfolding label_value_pair
label_value_pair-append [] l pairs = refl
label_value_pair-append (k ∷ labels) l pairs =
    label_value_pair-append labels l (insert k.label_key (patched_value k) pairs)

-- What the patch has for a key after one more addition.
lookup-add :
    (labels : List LabelToModify) (key value k : Text)
    → lookup k (label_value_pair (add labels key value) [])
      ≡ (if str_eq key k then some (some value) else lookup k (label_value_pair labels []))
unfolding operator
lookup-add labels key value k =
    let l : LabelToModify = record {
      label_key = key;
      label_value = value;
      operation_type = add_label;
    } in
    ap (lookup k) (label_value_pair-append labels l [])
    ∙ lookup-insert key k (some value) (label_value_pair labels [])

-- A longer key is another key.
str_eq_longer : (s t : Text) → length t < length s → str_eq s t ≡ false
unfolding str_eq
str_eq_longer [] t h = absurd (omega arith)
str_eq_longer (x ∷ s) [] h = refl
str_eq_longer (x ∷ s) (y ∷ t) h = ground (arith, str_eq_longer s t)

longer : (p a b rest : Text) → length (p ++ rest) < length (p ++ (a ++ (b ++ b'-' ∷ rest)))
longer p a b rest = omega (
  arith,
  length-append p rest,
  length-append p (a ++ (b ++ b'-' ∷ rest)),
  length-append a (b ++ b'-' ∷ rest),
  length-append b (b'-' ∷ rest),
)

longer_still :
    (p a b c rest : Text) → length (p ++ rest) < length (p ++ (a ++ (b ++ b'-' ∷ (c ++ rest))))
longer_still p a b c rest = omega (
  arith,
  length-append p rest,
  length-append p (a ++ (b ++ b'-' ∷ (c ++ rest))),
  length-append a (b ++ b'-' ∷ (c ++ rest)),
  length-append b (b'-' ∷ (c ++ rest)),
  length-append c rest,
)

storage_is_other :
    (info : RuntimeInfo) (read storage : Text)
    → str_eq (get_storage_label_name info read storage) (get_common_label_name info) ≡ false
unfolding get_common_label_name get_storage_label_name
storage_is_other info read storage = str_eq_longer _ _ (
    longer_still (capacity_prefix info) read info.runtime_type storage
      (info.namespace ++ b'-' ∷ info.name))

runtime_is_other :
    (info : RuntimeInfo) → str_eq (get_runtime_label_name info) (get_common_label_name info) ≡ false
unfolding get_common_label_name get_runtime_label_name
runtime_is_other info =
    str_eq_longer _ _
      (longer (capacity_prefix info) [] info.runtime_type (info.namespace ++ b'-' ∷ info.name))

exclusive_is_other :
    (info : RuntimeInfo) → str_eq get_exclusive_key (get_common_label_name info) ≡ false
unfolding get_common_label_name str_eq
exclusive_is_other info = ground arith

storage_label_is_other :
    (info : RuntimeInfo) (old new : Text)
    → str_eq (storage_label info old new) (get_common_label_name info) ≡ false
storage_label_is_other info old new =
    ground
      (arith, storage_is_other info (codes "human-") old, storage_is_other info (codes "h-") new)

-- What the patch has for the common label.
abbrev common_value : RuntimeInfo → List LabelToModify → Option (Option Text)
common_value info labels = lookup (get_common_label_name info) (label_value_pair labels [])

common_value-add :
    (info : RuntimeInfo) (labels : List LabelToModify) (key value : Text)
    → str_eq key (get_common_label_name info) ≡ false
    → common_value info (add labels key value) ≡ common_value info labels
common_value-add info labels key value h =
    ground (arith, lookup-add labels key value (get_common_label_name info))

module _ {S : Type 0} (api : NodeApi S) (info : RuntimeInfo) where
  common_value-add_capacity :
      (labels : List LabelToModify) (old new : Text) (n : Option ℤ)
      → common_value info (add_capacity api labels (storage_label info old new) n)
        ≡ common_value info labels
  common_value-add_capacity labels old new none = refl
  common_value-add_capacity labels old new (some n) =
      common_value-add info labels (storage_label info old new) (api.bytes_size n)
        (storage_label_is_other info old new)

  common_value-label_node :
      (labels : List LabelToModify)
      → common_value info (label_node_with_capacity_info api info labels) ≡ common_value info labels
  unfolding label_node_with_capacity_info
  common_value-label_node labels =
      let m : StorageMap = get_level_storage_map info in
      let memory : List LabelToModify =
        add_capacity api labels (get_label_name_for_memory info) m.memory in
      common_value-add info _ _ _ (storage_label_is_other info (codes "total-") (codes "t-"))
      ∙ (common_value-add_capacity memory (codes "disk-") (codes "d-") m.disk
          ∙ common_value-add_capacity labels (codes "mem-") (codes "m-") m.memory)

  abbrev with_common : List LabelToModify
  with_common =
      add (add [] (get_runtime_label_name info) (codes "true")) (get_common_label_name info)
        (codes "ok")

  common_value-with_common : common_value info with_common ≡ some (some (codes "ok"))
  common_value-with_common = ground (
    arith,
    lookup-add (add [] (get_runtime_label_name info) (codes "true")) (get_common_label_name info)
        (codes "ok") (get_common_label_name info),
    str_eq_refl (get_common_label_name info),
  )

  common_value-exclusive :
      common_value info (add with_common get_exclusive_key (get_exclusive_value info))
      ≡ some (some (codes "ok"))
  common_value-exclusive =
      common_value-add info with_common get_exclusive_key (get_exclusive_value info)
        (exclusive_is_other info)
      ∙ common_value-with_common

  common_value-cache_labels :
      common_value info (cache_labels api info []) ≡ some (some (codes "ok"))
  unfolding cache_labels
  common_value-cache_labels =
      common_value-label_node _
      ∙ if_cases
          (λ (labels : List LabelToModify). common_value info labels ≡ some (some (codes "ok")))
          info.exclusive _ _ (λ h. common_value-exclusive) (λ h. common_value-with_common)

  selector_key :
      info.deprecated_node_label ≡ false
      → worker_selector info.name info.namespace
        ≡ codes "worker.nodeSelector." ++ (get_common_label_name info ++ codes "=ok")
  unfolding worker_selector get_common_label_name
  selector_key h = rw h (simp append_assoc)

  -- The label that LabelCacheNode gives a node is the one that the workers are sent to: where the
  -- runtime's labels are not deprecated, the node selector that InstallRelease sets consists of the
  -- key and the value that the patch of LabelCacheNode has for the common label, whatever the tiers
  -- of the store are and whether or not the runtime is exclusive.
  pub worker_selector-cache_labels :
      info.deprecated_node_label ≡ false
      → (worker_selector info.name info.namespace
          ≡ codes "worker.nodeSelector." ++ (get_common_label_name info ++ codes "=ok"))
        × (lookup (get_common_label_name info) (label_value_pair (cache_labels api info []) [])
            ≡ some (some (codes "ok")))
  worker_selector-cache_labels h = (selector_key h, common_value-cache_labels)
