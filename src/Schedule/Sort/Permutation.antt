-- ===== src/Schedule/Sort/Permutation.antt =====
-- sortNodesToBeScheduled returns the nodes that it is given, in another order.
use mathlib.Core.List.{append-nil, Perm, perm_middle}
use mathlib.Core.List.Perm
use fluid_data_table.Base.{ℕ, ◌≡◌, some, List, [], ◌∷◌, ◌++◌, ltb, Bool-cases, inl, inr, keep}
use fluid_data_table.Base.Text.{Text}
use fluid_data_table.Base.Dict.{Dict}
use fluid_data_table.Schedule.Node.{Node, contains_selector}
use fluid_data_table.Schedule.Sort.{sort_nodes_to_be_scheduled}
use fluid_data_table.Schedule.Sort.Search.{load}
use fluid_data_table.Schedule.Sort.Order.{
  insert_desc, place_all, is_mounting, is_selected, is_left, mounting_in_order,
  sort_nodes_to_be_scheduled_order,
}

module _ (m : Dict ℕ) where
  insert_desc-perm : (node : Node) (xs : List Node) → Perm (insert_desc m node xs) (node ∷ xs)
  insert_desc-perm node [] = Perm.refl (node ∷ [])
  insert_desc-perm node (x ∷ xs) = elim (Bool-cases (ltb (load m x) (load m node))) [
    | inl e ↦ rw (e, insert_desc) (Perm.refl (node ∷ x ∷ xs))
    | inr e ↦
        rw (e, insert_desc) (Perm.trans (Perm.cons x (insert_desc-perm node xs)) (Perm.swap _ _ _))
  ]

  place_all-perm :
      (placed nodes : List Node)
      → Perm (place_all m placed nodes) (placed ++ keep (is_mounting m) nodes)
  place_all-perm placed [] = rw append-nil (Perm.refl placed)
  place_all-perm placed (node ∷ nodes) = elim (Bool-cases (is_mounting m node)) [
    | inr e ↦ rw (e, keep) (place_all-perm placed nodes)
    | inl e ↦
        rw (e, keep)
          (Perm.trans (place_all-perm (insert_desc m node placed) nodes) (
            Perm.trans
              (Perm.append_right (keep (is_mounting m) nodes) (insert_desc-perm node placed))
              (Perm.symm (perm_middle placed (keep (is_mounting m) nodes)))))
  ]

  groups-perm :
      (selector : Dict Text) (nodes : List Node)
      → Perm
          ((keep (is_mounting m) nodes ++ keep (is_selected m selector) nodes)
            ++ keep (is_left m selector) nodes)
          nodes
  groups-perm selector [] = Perm.refl []
  groups-perm selector (node ∷ nodes) =
      let a : List Node = keep (is_mounting m) nodes in
      let b : List Node = keep (is_selected m selector) nodes in
      let c : List Node = keep (is_left m selector) nodes in
      elim (Bool-cases (is_mounting m node)) [
        | inl e ↦ rw (e, keep) (Perm.cons node (groups-perm selector nodes))
        | inr e ↦ (elim (Bool-cases (contains_selector node.labels selector)) [
          | inl s ↦
              rw (e, s, keep)
                (Perm.trans (Perm.append_right c (perm_middle a b))
                  (Perm.cons node (groups-perm selector nodes)))
          | inr s ↦
              rw (e, s, keep)
                (Perm.trans (perm_middle (a ++ b) c) (Perm.cons node (groups-perm selector nodes)))
        ])
      ]

  -- The result holds the nodes that were given, each as often, whatever the pods and the selector.
  pub sort_nodes_to_be_scheduled-perm :
      (selector : Dict Text) (nodes out : List Node)
      → sort_nodes_to_be_scheduled m selector nodes ≡ some out
      → Perm out nodes
  sort_nodes_to_be_scheduled-perm selector nodes out e =
      let same : out
          ≡ (mounting_in_order m nodes ++ keep (is_selected m selector) nodes)
            ++ keep (is_left m selector) nodes =
        cc ((sort_nodes_to_be_scheduled_order m selector nodes).0) in
      rw same (
        Perm.trans
          (Perm.append_right (keep (is_left m selector) nodes)
            (Perm.append_right (keep (is_selected m selector) nodes) (place_all-perm [] nodes)))
          (groups-perm selector nodes))
