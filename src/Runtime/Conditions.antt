-- ===== src/Runtime/Conditions.antt =====
-- pkg/utils/runtime_condition.go: the conditions of a runtime, one for each type.
use fluid_data_table.Base.{
  ℕ, Bool, true, false, Option, none, some, List, [], ◌∷◌, ◌++◌, if◌then◌else◌, suc, set, ◌≡◌, refl,
  arith,
}
use fluid_data_table.Base.Text.{Text, str_eq, str_eq_iff}
use fluid_data_table.Runtime.Types.{Condition, ConditionStatus, condition_true, condition_false}

-- NewRuntimeCondition
unfoldable pub new_runtime_condition : ℕ → Text → Text → Text → ConditionStatus → Condition
new_runtime_condition now type reason message status = record {
  type = type;
  status = status;
  reason = reason;
  message = message;
  last_transition_time = now;
  last_probe_time = now;
}

-- GetRuntimeCondition: the index and the condition of a type.
unfoldable pub get_runtime_condition : List Condition → Text → Option (ℕ × Condition)
get_runtime_condition [] type = none
get_runtime_condition (c ∷ conditions) type =
    let rest = get_runtime_condition conditions type in
    if str_eq c.type type
    then some (0, c)
    else (elim rest [ none ↦ none | some p ↦ some (suc p.0, p.1) ])

abbrev pub same_condition_status : ConditionStatus → ConditionStatus → Bool
same_condition_status condition_true condition_true = true
same_condition_status condition_false condition_false = true
same_condition_status _ _ = false

-- The new condition, with the old time of transition if the status is the same.
abbrev pub kept_time : Condition → Condition → Condition
kept_time new old =
    if same_condition_status new.status old.status
    then record new { last_transition_time = old.last_transition_time }
    else new

abbrev pub put_condition : List Condition → Condition → Option (ℕ × Condition) → List Condition
put_condition conditions new none = conditions ++ (new ∷ [])
put_condition conditions new (some (i, old)) = set conditions i (kept_time new old)

-- UpdateRuntimeCondition
unfoldable pub update_runtime_condition : List Condition → Condition → List Condition
update_runtime_condition conditions new =
    put_condition conditions new (get_runtime_condition conditions new.type)

-- The condition of a type, without its index.
abbrev pub found : Option (ℕ × Condition) → Option Condition
found none = none
found (some p) = some p.1

abbrev pub updated : Option Condition → Condition → Condition
updated none new = new
updated (some old) new = kept_time new old

put_condition-cons :
    (c : Condition) (conditions : List Condition) (new : Condition) (o : Option (ℕ × Condition))
    → put_condition (c ∷ conditions) new (elim o [ none ↦ none | some p ↦ some (suc p.0, p.1) ])
      ≡ c ∷ put_condition conditions new o
put_condition-cons c conditions new none = refl
put_condition-cons c conditions new (some p) = refl

kept_time_type : (new old : Condition) → (kept_time new old).type ≡ new.type
kept_time_type new old = ground arith

-- After an update, the condition of the updated type is the new one, which keeps the old time of
-- transition if the status is the same; the conditions of all other types are as before.
pub get_runtime_condition-update_runtime_condition :
    (conditions : List Condition) (new : Condition) (type : Text)
    → found (get_runtime_condition (update_runtime_condition conditions new) type) ≡ (
        if str_eq new.type type
        then some (updated (found (get_runtime_condition conditions new.type)) new)
        else found (get_runtime_condition conditions type))
unfolding get_runtime_condition update_runtime_condition
get_runtime_condition-update_runtime_condition [] new type = ground arith
get_runtime_condition-update_runtime_condition (c ∷ conditions) new type = ground (
  arith,
  get_runtime_condition-update_runtime_condition conditions new type,
  put_condition-cons c conditions new (get_runtime_condition conditions new.type),
  kept_time_type new c,
  str_eq_iff c.type type,
  str_eq_iff c.type new.type,
  str_eq_iff new.type type,
)
