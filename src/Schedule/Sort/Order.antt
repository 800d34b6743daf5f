-- ===== src/Schedule/Sort/Order.antt =====
-- The order in which sortNodesToBeScheduled returns the nodes.
use mathlib.Core.List.{append_assoc, append-nil}
use fluid_data_table.Base.{
  ℕ, suc, ◌≤◌, ◌<◌, ◌≡◌, refl, sym, ap, ◌∙◌, Bool, true, false, not, ◌&&◌, some, List, [], ◌∷◌,
  ◌++◌, arith, length, ltb, ◌==◌, if◌then◌else◌, Bool-cases, inl, inr, All, keep,
}
use fluid_data_table.Base.Text.{Text}
use fluid_data_table.Base.Dict.{Dict, has_key}
use fluid_data_table.Schedule.Node.{Node, contains_selector}
use fluid_data_table.Schedule.Sort.{
  Slices, binary_insert, sort_step, sort_loop, sort_nodes_to_be_scheduled,
}
use fluid_data_table.Schedule.Sort.Search.{
  load, Descending, position, position-le-length, search_loop-eq-position,
}
use fluid_data_table.Schedule.Sort.Insertion.{insert_at, place-eq-insert_at}

keep-cons {ℓ} :
    {A : Type ℓ} (p : A → Bool) (x : A) (xs : List A)
    → keep p (x ∷ []) ++ keep p xs ≡ keep p (x ∷ xs)
keep-cons p x xs = ground arith

module _ (m : Dict ℕ) where
  -- A node put behind the nodes with at least as many mounting pods.
  abbrev pub insert_desc : Node → List Node → List Node
  insert_desc node [] = node ∷ []
  insert_desc node (x ∷ xs) =
      let rest = insert_desc node xs in
      elim (ltb (load m x) (load m node)) [ true ↦ node ∷ x ∷ xs | false ↦ x ∷ rest ]

  insert_at-position :
      (node : Node) (xs : List Node)
      → insert_at (position m (load m node) xs) node xs ≡ insert_desc node xs
  insert_at-position node [] = refl
  insert_at-position node (x ∷ xs) = ground (arith, insert_at-position node xs)

  All-insert_desc :
      (k : ℕ) (node : Node) (xs : List Node)
      → load m node ≤ k
      → All (λ y. load m y ≤ k) xs
      → All (λ y. load m y ≤ k) (insert_desc node xs)
  All-insert_desc k node [] h a = (h, tt)
  All-insert_desc k node (x ∷ xs) h a = ground (arith, All-insert_desc k node xs)

  All-weaken :
      (k l : ℕ) (xs : List Node) → k ≤ l → All (λ y. load m y ≤ k) xs → All (λ y. load m y ≤ l) xs
  All-weaken k l [] h a = tt
  All-weaken k l (x ∷ xs) h a = (omega arith, All-weaken k l xs h a.1)

  insert_desc-Descending :
      (node : Node) (xs : List Node) → Descending m xs → Descending m (insert_desc node xs)
  insert_desc-Descending node [] d = (tt, tt)
  insert_desc-Descending node (x ∷ xs) d = ground (
    arith,
    insert_desc-Descending node xs,
    All-insert_desc (load m x) node xs,
    All-weaken (load m x) (load m node) xs,
  )

  -- The binary insertion is the insertion behind the nodes with at least as many pods.
  pub binary_insert-eq-insert_desc :
      (node : Node) (xs : List Node)
      → Descending m xs
      → binary_insert m node (load m node) xs ≡ some (insert_desc node xs)
  unfolding binary_insert
  binary_insert-eq-insert_desc node [] d = refl
  binary_insert-eq-insert_desc node (x ∷ xs) d =
      let all : List Node = x ∷ xs in
      let num : ℕ = load m node in
      rw
        (
          search_loop-eq-position m (suc (length all)) num all 0 (length all) d (omega arith)
              (position-le-length m num all) (omega arith) (omega arith),
          place-eq-insert_at node (position m num all) all (omega arith)
              (position-le-length m num all),
        )
        (ap some (insert_at-position node all))

  -- The nodes with mounting pods, and the others by the selector.
  abbrev pub is_mounting : Node → Bool
  is_mounting node = has_key node.name m

  abbrev pub is_selected : Dict Text → Node → Bool
  is_selected selector node = not (has_key node.name m) && contains_selector node.labels selector

  abbrev pub is_left : Dict Text → Node → Bool
  is_left selector node = not (has_key node.name m) && not (contains_selector node.labels selector)

  -- The mounting nodes in the order of the result, after the ones that are already placed.
  abbrev pub place_all : List Node → List Node → List Node
  place_all placed [] = placed
  place_all placed (node ∷ nodes) =
      place_all (if is_mounting node then insert_desc node placed else placed) nodes

  place_all-Descending :
      (placed nodes : List Node) → Descending m placed → Descending m (place_all placed nodes)
  place_all-Descending placed [] d = d
  place_all-Descending placed (node ∷ nodes) d =
      place_all-Descending (if is_mounting node then insert_desc node placed else placed) nodes
        (ground (arith, insert_desc-Descending node placed d))

  sort_step-eq :
      (selector : Dict Text) (node : Node) (s : Slices)
      → Descending m s.pvc_mount_nodes
      → sort_step m selector node s
        ≡ some (record {
          pvc_mount_nodes =
              if is_mounting node then insert_desc node s.pvc_mount_nodes else s.pvc_mount_nodes;
          selected_nodes = s.selected_nodes ++ keep (is_selected selector) (node ∷ []);
          not_selected_nodes = s.not_selected_nodes ++ keep (is_left selector) (node ∷ []);
        })
  unfolding sort_step
  sort_step-eq selector node s d = ground (
    arith,
    binary_insert-eq-insert_desc node s.pvc_mount_nodes d,
    append-nil s.selected_nodes,
    append-nil s.not_selected_nodes,
  )

  sort_loop-eq :
      (selector : Dict Text) (nodes : List Node) (s : Slices)
      → Descending m s.pvc_mount_nodes
      → sort_loop m selector nodes s
        ≡ some (record {
          pvc_mount_nodes = place_all s.pvc_mount_nodes nodes;
          selected_nodes = s.selected_nodes ++ keep (is_selected selector) nodes;
          not_selected_nodes = s.not_selected_nodes ++ keep (is_left selector) nodes;
        })
  unfolding sort_loop
  sort_loop-eq selector [] s d = cc (append-nil s.selected_nodes, append-nil s.not_selected_nodes)
  sort_loop-eq selector (node ∷ nodes) s d =
      let placed : List Node =
        if is_mounting node then insert_desc node s.pvc_mount_nodes else s.pvc_mount_nodes in
      rw (sort_step-eq selector node s d, sort_loop)
        (sort_loop-eq selector nodes
            (record {
              pvc_mount_nodes = placed;
              selected_nodes = s.selected_nodes ++ keep (is_selected selector) (node ∷ []);
              not_selected_nodes = s.not_selected_nodes ++ keep (is_left selector) (node ∷ []);
            })
            (ground (arith, insert_desc-Descending node s.pvc_mount_nodes d))
          ∙ cc (
            append_assoc s.selected_nodes (keep (is_selected selector) (node ∷ []))
                (keep (is_selected selector) nodes),
            append_assoc s.not_selected_nodes (keep (is_left selector) (node ∷ []))
                (keep (is_left selector) nodes),
            keep-cons (is_selected selector) node nodes,
            keep-cons (is_left selector) node nodes,
          ))

  abbrev empty : Slices
  empty = record { pvc_mount_nodes = []; selected_nodes = []; not_selected_nodes = [] }

  -- Nodes with equally many pods, by their number.
  abbrev pub with_load : ℕ → List Node → List Node
  with_load c = keep (λ y. load m y == c)

  with_load_of_small :
      (c k : ℕ) (xs : List Node) → All (λ y. load m y ≤ k) xs → k < c → with_load c xs ≡ []
  with_load_of_small c k [] a h = refl
  with_load_of_small c k (x ∷ xs) a h = ground (arith, with_load_of_small c k xs a.1)

  with_load-insert_desc :
      (c : ℕ) (node : Node) (xs : List Node)
      → Descending m xs
      → with_load c (insert_desc node xs) ≡ with_load c xs ++ with_load c (node ∷ [])
  with_load-insert_desc c node [] d = refl
  with_load-insert_desc c node (x ∷ xs) d = ground (
    arith,
    with_load-insert_desc c node xs d.1,
    with_load_of_small c (load m x) xs d.0,
    append-nil (with_load c xs),
  )

  with_load-place_all :
      (c : ℕ) (placed nodes : List Node)
      → Descending m placed
      → with_load c (place_all placed nodes)
        ≡ with_load c placed ++ with_load c (keep is_mounting nodes)
  with_load-place_all c placed [] d = sym (append-nil (with_load c placed))
  with_load-place_all c placed (node ∷ nodes) d = elim (Bool-cases (is_mounting node)) [
    | inr e ↦ rw (e, keep) (with_load-place_all c placed nodes d)
    | inl e ↦
        rw (e, keep)
          (with_load-place_all c (insert_desc node placed) nodes
              (insert_desc-Descending node placed d)
            ∙ cc (
              with_load-insert_desc c node placed d,
              append_assoc (with_load c placed) (with_load c (node ∷ []))
                  (with_load c (keep is_mounting nodes)),
              keep-cons (λ y. load m y == c) node (keep is_mounting nodes),
            ))
  ]

  -- The nodes with mounting pods in the order of the result.
  abbrev pub mounting_in_order : List Node → List Node
  mounting_in_order nodes = place_all [] nodes

  -- The sort never fails: it returns the nodes with mounting pods, then the other nodes that the
  -- selector selects, then the rest. Those with mounting pods stand in descending order of their
  -- number of pods, and nodes with equally many pods, and the other two groups, keep their order.
  pub sort_nodes_to_be_scheduled_order :
      (selector : Dict Text) (nodes : List Node)
      → (sort_nodes_to_be_scheduled m selector nodes
          ≡ some (
              (mounting_in_order nodes ++ keep (is_selected selector) nodes)
              ++ keep (is_left selector) nodes))
        × Descending m (mounting_in_order nodes)
        × ((c : ℕ) → with_load c (mounting_in_order nodes) ≡ with_load c (keep is_mounting nodes))
  unfolding sort_nodes_to_be_scheduled
  sort_nodes_to_be_scheduled_order selector nodes = (
    rw (sort_loop-eq selector nodes empty tt, sort_nodes_to_be_scheduled),
    place_all-Descending [] nodes tt,
    (λ c. with_load-place_all c [] nodes tt),
  )
