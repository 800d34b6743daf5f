-- ===== src/Runtime/Health/Stale.antt =====
-- The conditions that the health checks of pkg/ddc/alluxio/health_check.go write.
use fluid_data_table.Base.{
  ℕ, true, none, some, List, [], ◌∷◌, ◌++◌, ◌≡◌, arith, inl, inr, Option-cases,
}
use fluid_data_table.Base.Text.{Text, str_eq}
use fluid_data_table.Runtime.Types.{Condition}
use fluid_data_table.Runtime.Conditions.{get_runtime_condition, update_runtime_condition}
use fluid_data_table.Runtime.Health.{add_condition}

found_type :
    (conditions : List Condition) (type : Text) (i : ℕ) (c : Condition)
    → get_runtime_condition conditions type ≡ some (i, c)
    → str_eq c.type type ≡ true
unfolding get_runtime_condition
found_type [] type i c h = ground arith
found_type (d ∷ conditions) type i c h =
    elim (Option-cases (get_runtime_condition conditions type)) [
      | inl n ↦ ground arith
      | inr ((j, x), n) ↦ ground (arith, found_type conditions type j x n)
    ]

-- A health check never changes a condition: one that is there stays as it is, also when the health
-- has changed, and a new one is put at the end.
pub add_condition_lem :
    (conditions : List Condition) (new : Condition)
    → add_condition conditions new ≡ (elim (get_runtime_condition conditions new.type) [
      | none ↦ conditions ++ (new ∷ [])
      | some p ↦ conditions
    ])
unfolding add_condition update_runtime_condition
add_condition_lem conditions new = elim (Option-cases (get_runtime_condition conditions new.type)) [
  | inl n ↦ ground arith
  | inr ((i, c), n) ↦ ground (arith, found_type conditions new.type i c n)
]
