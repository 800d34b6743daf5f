-- ===== src/Schedule/Sort.antt =====
-- sortNodesToBeScheduled of pkg/utils/lifecycle/schedule.go: nodes with pods that mount the volume
-- come first, by binary insertion in descending order of the number of such pods.
pub mod Search
pub mod Insertion
pub mod Order
pub mod Permutation
use fluid_data_table.Base.{
  ℕ, zero, suc, ◌+◌, ◌-◌, ◌/◌, Bool, true, false, Option, none, some, List, [], ◌∷◌, ◌++◌, ltb,
  length, get_elem?, set, if◌then◌else◌, is_empty,
}
use fluid_data_table.Base.Text.{Text}
use fluid_data_table.Base.Dict.{Dict, lookup}
use fluid_data_table.Schedule.Node.{Node, contains_selector}

-- `pvcMountNodesMap[name]`: the number of mounting pods, which is 0 for a missing key.
abbrev pub mounts : Dict ℕ → Text → ℕ
mounts m name = elim (lookup name m) [ none ↦ 0 | some n ↦ n ]

module _ (m : Dict ℕ) where
  -- The loop `for low <= high`. `bound` is high + 1, which cannot fall below 0. `none` is the panic
  -- of an index out of range, or fuel that has run out.
  unfoldable pub search_loop : ℕ → ℕ → List Node → ℕ → ℕ → Option ℕ
  search_loop zero num nodes low bound = none
  search_loop (suc fuel) num nodes low bound =
      let middle : ℕ = (low + bound - 1) / 2 in
      let left = search_loop fuel num nodes low middle in
      let right = search_loop fuel num nodes (middle + 1) bound in
      if ltb low bound
      then (elim (get_elem? nodes middle) [
        | none ↦ none
        | some node ↦ if ltb (mounts m node.name) num then left else right
      ])
      else some low

-- The loop `for k >= low`, which copies each element one place up; the rounds left are k + 1 - low.
unfoldable pub shift_up : ℕ → ℕ → List Node → List Node
shift_up zero low nodes = nodes
shift_up (suc rounds) low nodes = shift_up rounds low (elim (get_elem? nodes (low + rounds)) [
  | none ↦ nodes
  | some node ↦ set nodes (low + rounds + 1) node
])

-- `append(pvcMountNodes, pvcMountNodes[k])`, the copies, and the write at `low`.
unfoldable pub place : Node → ℕ → List Node → Option (List Node)
unfolding shift_up
place node low nodes = elim (get_elem? nodes (length nodes - 1)) [
  | none ↦ none
  | some last ↦ some (set (shift_up (length nodes - low) low (nodes ++ (last ∷ []))) low node)
]

-- The three slices of the loop over the nodes.
pub record Slices : Type 0 where
  pub pvc_mount_nodes : List Node
  pub selected_nodes : List Node
  pub not_selected_nodes : List Node

module _ (m : Dict ℕ) where
  -- Binary insertion of a node with `num` mounting pods. The loop halves an interval of at most
  -- `length nodes` places, so one more round than that is enough.
  unfoldable pub binary_insert : Node → ℕ → List Node → Option (List Node)
  binary_insert node num nodes =
      if is_empty nodes
      then some (node ∷ [])
      else (elim (search_loop m (suc (length nodes)) num nodes 0 (length nodes)) [
        | none ↦ none
        | some low ↦ place node low nodes
      ])

  -- One round of the loop over the nodes.
  unfoldable pub sort_step : Dict Text → Node → Slices → Option Slices
  sort_step node_selector node s = elim (lookup node.name m) [
    | some num ↦ (elim (binary_insert node num s.pvc_mount_nodes) [
      | none ↦ none
      | some nodes ↦ some (record s { pvc_mount_nodes = nodes })
    ])
    | none ↦
        if contains_selector node.labels node_selector
        then some (record s { selected_nodes = s.selected_nodes ++ (node ∷ []) })
        else some (record s { not_selected_nodes = s.not_selected_nodes ++ (node ∷ []) })
  ]

  unfoldable pub sort_loop : Dict Text → List Node → Slices → Option Slices
  sort_loop node_selector [] s = some s
  sort_loop node_selector (node ∷ nodes) s = elim (sort_step node_selector node s) [
    | none ↦ none
    | some s' ↦ sort_loop node_selector nodes s'
  ]

  unfoldable pub sort_nodes_to_be_scheduled : Dict Text → List Node → Option (List Node)
  sort_nodes_to_be_scheduled node_selector nodes =
      elim (sort_loop node_selector nodes
        (record { pvc_mount_nodes = []; selected_nodes = []; not_selected_nodes = [] })) [
          | none ↦ none
          | some s ↦ some ((s.pvc_mount_nodes ++ s.selected_nodes) ++ s.not_selected_nodes)
        ]
