-- ===== src/Schedule/Assign.antt =====
-- pkg/utils/lifecycle: the choice of the nodes for a runtime's workers (schedule.go), and the labels
-- that bind a node to a runtime (node.go).
pub mod Choice
use fluid_data_table.Base.{
  ℕ, ◌+◌, Bool, true, false, not, ◌==◌, leb, Option, none, some, List, [], ◌∷◌, ◌++◌, if◌then◌else◌,
  is_empty, length,
}
use fluid_data_table.Base.Text.{Text, codes, str_eq}
use fluid_data_table.Base.Int.{ℤ, pos, ltb_ℤ, ◌+ℤ◌}
use fluid_data_table.Base.Dict.{Dict, insert, lookup, has_key}
use fluid_data_table.Base.Result.{Error, Result, ok, err, is_not_found}
use fluid_data_table.Runtime.Types.{Step}
use fluid_data_table.Runtime.Labels.{LabelToModify, add, delete, label_value_pair, modified_labels}
use fluid_data_table.Schedule.Node.{Node, is_ready}
use fluid_data_table.Schedule.Info.{
  RuntimeInfo, StorageMap, get_level_storage_map, get_common_label_name, get_runtime_label_name,
  get_label_name_for_memory, get_label_name_for_disk, get_label_name_for_total, get_exclusive_key,
  get_exclusive_value,
}

-- AlreadyAssigned
unfoldable pub already_assigned : RuntimeInfo → Node → Bool
already_assigned info node =
    if is_empty node.labels then false else has_key (get_common_label_name info) node.labels

abbrev pub fits : Option ℤ → ℕ → Bool
fits none memory = true
fits (some requirement) memory = not (ltb_ℤ (pos memory) requirement)

-- CanbeAssigned: only the memory is compared.
unfoldable pub can_be_assigned : RuntimeInfo → Node → Bool
can_be_assigned info node =
    if has_key get_exclusive_key node.labels
    then false
    else fits (get_level_storage_map info).memory node.memory

-- The loop of AssignDatasetToNodes: the scheduled nodes by name, and the new ones.
unfoldable pub assign_loop :
    RuntimeInfo → ℕ → List Node → Dict Node → List Node → Dict Node × List Node
assign_loop info desired [] current new = (current, new)
assign_loop info desired (node ∷ nodes) current new =
    let skip = assign_loop info desired nodes current new in
    let known = assign_loop info desired nodes (insert node.name node current) new in
    let chosen =
      assign_loop info desired nodes (insert node.name node current) (new ++ (node ∷ [])) in
    if length current == desired
    then (current, new)
    else if has_key node.name current
    then skip
    else if not (is_ready node)
    then skip
    else if node.unschedulable
    then skip
    else if already_assigned info node
    then known
    else if can_be_assigned info node
    then chosen
    else skip

-- The map of the nodes that are scheduled already.
abbrev pub by_name : List Node → Dict Node → Dict Node
by_name [] m = m
by_name (node ∷ nodes) m = by_name nodes (insert node.name node m)

-- The calls of the API server about nodes, over a state of the cluster.
pub record NodeApi (S : Type 0) : Type 1 where
  pub list_nodes : S → Result (List Node) × S
  -- labels.Parse of `key=true`, and the nodes that have the label
  pub parse_selector : Text → Option Error
  pub list_labelled : Text → S → Result (List Node) × S
  pub get_node : Text → S → Result Node × S
  pub patch_node : Text → Dict (Option Text) → Step S
  pub retry_on_conflict : (X : Type 0) → Step X → Step X
  -- wait.Poll for a node that has all labels of a list; it ends also when the time is up
  pub wait_for_labels : Text → List Text → S → S
  -- units.BytesSize
  pub bytes_size : ℤ → Text

module _ {S : Type 0} (api : NodeApi S) where
  abbrev pub capacity : Option ℤ → ℤ
  capacity none = pos 0
  capacity (some n) = n

  abbrev pub add_capacity : List LabelToModify → Text → Option ℤ → List LabelToModify
  add_capacity labels key none = labels
  add_capacity labels key (some n) = add labels key (api.bytes_size n)

  -- labelNodeWithCapacityInfo
  unfoldable pub label_node_with_capacity_info :
      RuntimeInfo → List LabelToModify → List LabelToModify
  label_node_with_capacity_info info labels =
      let m : StorageMap = get_level_storage_map info in
      add
        (add_capacity (add_capacity labels (get_label_name_for_memory info) m.memory)
          (get_label_name_for_disk info) m.disk)
        (get_label_name_for_total info) (api.bytes_size (capacity m.memory +ℤ capacity m.disk))

  -- The labels of LabelCacheNode: the common label gets the value "ok".
  unfoldable pub cache_labels : RuntimeInfo → List LabelToModify → List LabelToModify
  cache_labels info labels =
      let both : List LabelToModify =
        add (add labels (get_runtime_label_name info) (codes "true")) (get_common_label_name info)
          (codes "ok") in
      label_node_with_capacity_info info
        (if info.exclusive then add both get_exclusive_key (get_exclusive_value info) else both)

  -- The function that LabelCacheNode retries; the changes are a variable of the function around it.
  unfoldable pub label_step : RuntimeInfo → Text → Step (List LabelToModify × S)
  label_step info name (labels, s) =
      let (n, s1) = api.get_node name s in
      elim n [
        | err e ↦ (some e, (labels, s1))
        | ok node ↦
            (let (x, s2) =
                api.patch_node name (label_value_pair (cache_labels info labels) []) s1 in
              (x, (cache_labels info labels, s2)))
      ]

  -- LabelCacheNode: a wait that runs out of time ends it as well, and no error is returned.
  unfoldable pub label_cache_node : RuntimeInfo → Node → Step S
  label_cache_node info node s =
      let (x, (labels, s1)) =
        api.retry_on_conflict (List LabelToModify × S) (label_step info node.name) ([], s) in
      elim x [
        | some e ↦ (some e, s1)
        | none ↦ (none, api.wait_for_labels node.name (modified_labels labels) s1)
      ]

  -- The labels that a node loses.
  abbrev pub deletions : RuntimeInfo → List LabelToModify → List LabelToModify
  deletions info labels =
      delete
        (delete
          (delete
            (delete (delete labels (get_runtime_label_name info)) (get_label_name_for_total info))
            (get_label_name_for_disk info))
          (get_label_name_for_memory info))
        (get_common_label_name info)

  abbrev pub owned : RuntimeInfo → Node → Bool
  owned info node = elim (lookup get_exclusive_key node.labels) [
    | none ↦ false
    | some v ↦ str_eq v (get_exclusive_value info)
  ]

  -- The function that UnlabelCacheNode retries.
  unfoldable pub unlabel_step : RuntimeInfo → Text → Step (List LabelToModify × S)
  unlabel_step info name (labels, s) =
      let (n, s1) = api.get_node name s in
      elim n [
        | err e ↦ (some e, (labels, s1))
        | ok node ↦
            (let gone : List LabelToModify =
                if owned info node
                then delete (deletions info labels) get_exclusive_key
                else deletions info labels in
              let (x, s2) = api.patch_node name (label_value_pair gone []) s1 in (x, (gone, s2)))
      ]

  -- UnlabelCacheNode
  unfoldable pub unlabel_cache_node : RuntimeInfo → Node → Step S
  unlabel_cache_node info node s =
      let (x, (labels, s1)) =
        api.retry_on_conflict (List LabelToModify × S) (unlabel_step info node.name) ([], s) in
      (x, s1)

  unfoldable pub label_all_nodes : RuntimeInfo → List Node → Step S
  label_all_nodes info [] s = (none, s)
  label_all_nodes info (node ∷ nodes) s =
      let (x, s1) = label_cache_node info node s in
      elim x [ some e ↦ (some e, s1) | none ↦ label_all_nodes info nodes s1 ]

  -- The end of AssignDatasetToNodes: with an error of a label the count is returned beside it.
  abbrev pub counted : ℕ → Option Error × S → (ℕ × Option Error) × S
  counted n (x, s) = ((n, x), s)

  -- The result of a list that was not found, as an empty list.
  abbrev pub found_nodes : Result (List Node) → Result (List Node)
  found_nodes (ok nodes) = ok nodes
  found_nodes (err e) = if is_not_found e then ok [] else err e

  -- With no new node that error is still there at the end.
  abbrev pub stale : Result (List Node) → Option Error
  stale (ok nodes) = none
  stale (err e) = some e

  -- AssignDatasetToNodes: how many nodes are scheduled, and an error.
  unfoldable pub assign_dataset_to_nodes : RuntimeInfo → ℕ → S → (ℕ × Option Error) × S
  assign_dataset_to_nodes info desired s =
      let (all, s1) = api.list_nodes s in
      elim all [
        | err e ↦ ((0, some e), s1)
        | ok nodes ↦ (elim (api.parse_selector (get_common_label_name info)) [
          | some e ↦ ((0, some e), s1)
          | none ↦
              (let (old, s2) = api.list_labelled (get_common_label_name info) s1 in
                elim (found_nodes old) [
                  | err e ↦ ((0, some e), s2)
                  | ok scheduled ↦
                      (let (current, new) =
                          assign_loop info desired nodes (by_name scheduled []) [] in
                        counted (length current)
                          (if is_empty new then (stale old, s2) else label_all_nodes info new s2))
                ])
        ])
      ]
