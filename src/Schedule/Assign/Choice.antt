-- ===== src/Schedule/Assign/Choice.antt =====
-- The nodes that AssignDatasetToNodes of pkg/utils/lifecycle/schedule.go chooses.
use fluid_data_table.Base.{
  ℕ, ◌≤◌, true, false, not, ◌==◌, List, [], ◌∷◌, ◌++◌, length, ◌≡◌, arith, All, All-append, suc,
  if_cases,
}
use fluid_data_table.Base.Text.{Text}
use fluid_data_table.Base.Dict.{Dict, insert, lookup, has_key}
use fluid_data_table.Schedule.Node.{Node, is_ready}
use fluid_data_table.Schedule.Info.{RuntimeInfo}
use fluid_data_table.Schedule.Assign.{already_assigned, can_be_assigned, assign_loop}

length-insert :
    (k : Text) (v : Node) (m : Dict Node)
    → has_key k m ≡ false
    → length (insert k v m) ≡ suc (length m)
unfolding insert lookup
length-insert k v [] h = ground arith
length-insert k v ((j, w) ∷ m) h = ground (arith, length-insert k v m)

module _ (info : RuntimeInfo) (desired : ℕ) where
  -- The choice never goes beyond the number that is wanted, if it starts at or below it.
  pub assign_loop_bound :
      (nodes : List Node) (current : Dict Node) (new : List Node)
      → length current ≤ desired
      → length (assign_loop info desired nodes current new).0 ≤ desired
  unfolding assign_loop
  assign_loop_bound [] current new h = h
  assign_loop_bound (node ∷ nodes) current new h = ground (
    arith,
    length-insert node.name node current,
    assign_loop_bound nodes current new,
    assign_loop_bound nodes (insert node.name node current) new,
    assign_loop_bound nodes (insert node.name node current) (new ++ (node ∷ [])),
  )

  -- A node that a worker may go to.
  abbrev pub IsFree : Node → Type 0
  IsFree node =
      (is_ready node ≡ true)
      × (node.unschedulable ≡ false)
      × (already_assigned info node ≡ false)
      × (can_be_assigned info node ≡ true)

  -- Every node that is newly chosen is ready, may be scheduled, does not have the runtime's label
  -- yet, and can take the runtime, if that is so of the nodes chosen before.
  pub assign_loop-All :
      (nodes : List Node) (current : Dict Node) (new : List Node)
      → All IsFree new
      → All IsFree (assign_loop info desired nodes current new).1
  unfolding assign_loop
  assign_loop-All [] current new h = h
  assign_loop-All (node ∷ nodes) current new h =
      let Q : Dict Node × List Node → Type 0 = λ r. All IsFree r.1 in
      let skip = assign_loop-All nodes current new h in
      if_cases Q (length current == desired) _ _ (λ _. h)
        λ _.
          if_cases Q (has_key node.name current) _ _ (λ _. skip)
            λ _.
              if_cases Q (not (is_ready node)) _ _ (λ _. skip)
                λ h1.
                  if_cases Q node.unschedulable _ _ (λ _. skip)
                    λ h2.
                      if_cases Q (already_assigned info node) _ _
                        (λ _. assign_loop-All nodes (insert node.name node current) new h)
                        λ h3.
                          if_cases Q (can_be_assigned info node) _ _
                            (λ h4.
                              assign_loop-All nodes (insert node.name node current)
                                (new ++ (node ∷ []))
                                (All-append IsFree new (node ∷ []) h
                                  ((ground arith, h2, h3, h4), tt)))
                            λ _. skip
