-- ===== src/Schedule/Tests.antt =====
-- A few nodes on which the theorems about the scheduler are applied.
mod Tiers
use fluid_data_table.Base.{
  ℕ, ◌≤◌, Bool, true, false, some, List, [], ◌∷◌, ◌++◌, ◌≡◌, refl, arith, All, keep, length,
}
use fluid_data_table.Base.Text.{Text, codes, str_eq}
use fluid_data_table.Base.Int.{pos}
use fluid_data_table.Base.Dict.{Dict, lookup}
use fluid_data_table.Schedule.Node.{Node, contains_selector}
use fluid_data_table.Schedule.Sort.{
  sort_nodes_to_be_scheduled, sort_loop, sort_step, binary_insert, search_loop, place, shift_up,
}
use fluid_data_table.Schedule.Sort.Permutation.{sort_nodes_to_be_scheduled-perm}
use fluid_data_table.Schedule.Sort.Order.{
  sort_nodes_to_be_scheduled_order, mounting_in_order, is_selected, is_left, is_mounting, with_load,
}
use fluid_data_table.Schedule.Sort.Search.{Descending}
use mathlib.Core.List.{Perm}
use fluid_data_table.Schedule.Info.{RuntimeInfo}
use fluid_data_table.Schedule.Assign.{assign_loop}
use fluid_data_table.Schedule.Assign.Choice.{assign_loop_bound, assign_loop-All, IsFree}

abbrev node : Text → Bool → Node
node name unschedulable = record {
  name = name;
  labels = [];
  unschedulable = unschedulable;
  conditions = [];
  addresses = [];
  memory = 64;
}

abbrev nodes : List Node
nodes =
    node (codes "n1") false
    ∷ node (codes "n2") true
    ∷ node (codes "n3") false
    ∷ node (codes "n4") false
    ∷ []

abbrev info : RuntimeInfo
info = record {
  name = codes "hbase";
  namespace = codes "default";
  runtime_type = codes "alluxio";
  exclusive = false;
  deprecated_node_label = false;
  levels = record { medium_type = codes "MEM"; quotas = pos 32 ∷ [] } ∷ [];
}

assign_loop-All_example : All (IsFree info 2) (assign_loop info 2 nodes [] []).1
assign_loop-All_example = assign_loop-All info 2 nodes [] [] tt

-- The third and the fourth node have one and two pods that mount the volume.
abbrev pods : Dict ℕ
pods = (codes "n3", 1) ∷ (codes "n4", 2) ∷ []

sorted_nodes :
    sort_nodes_to_be_scheduled pods [] nodes
    ≡ some (
        node (codes "n4") false
        ∷ node (codes "n3") false
        ∷ node (codes "n1") false
        ∷ node (codes "n2") true
        ∷ [])
unfolding sort_nodes_to_be_scheduled sort_loop sort_step binary_insert search_loop place shift_up
    lookup str_eq contains_selector
sorted_nodes = refl

sort_nodes_to_be_scheduled_order_example :
    (sort_nodes_to_be_scheduled pods [] nodes
      ≡ some (
          (mounting_in_order pods nodes ++ keep (is_selected pods []) nodes)
          ++ keep (is_left pods []) nodes))
    × Descending pods (mounting_in_order pods nodes)
    × ((c : ℕ)
        → with_load pods c (mounting_in_order pods nodes)
          ≡ with_load pods c (keep (is_mounting pods) nodes))
sort_nodes_to_be_scheduled_order_example = sort_nodes_to_be_scheduled_order pods [] nodes

sort_nodes_to_be_scheduled-perm_example :
    Perm
      (node (codes "n4") false
        ∷ node (codes "n3") false
        ∷ node (codes "n1") false
        ∷ node (codes "n2") true
        ∷ [])
      nodes
sort_nodes_to_be_scheduled-perm_example =
    sort_nodes_to_be_scheduled-perm pods [] nodes
      (node (codes "n4") false
        ∷ node (codes "n3") false
        ∷ node (codes "n1") false
        ∷ node (codes "n2") true
        ∷ [])
      sorted_nodes
