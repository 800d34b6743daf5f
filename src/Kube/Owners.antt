-- ===== src/Kube/Owners.antt =====
-- pkg/utils/kubeclient/statefulset.go and metadata.go: the pods of a stateful set, by their names and
-- by their owners.
pub mod Names
pub mod Aliases
use fluid_data_table.Base.{
  ℕ, zero, suc, ◌+◌, Bool, true, false, not, ◌||◌, ◌&&◌, ltb, ◌==◌, Option, none, some, List, [],
  ◌∷◌, if◌then◌else◌, is_empty, all,
}
use fluid_data_table.Base.Text.{Text, str_eq}
use fluid_data_table.Base.Int.{ℤ, pos, negsuc}
use fluid_data_table.Base.Strconv.{unsigned, is_digit}
use fluid_data_table.Base.Result.{Error, Result, ok, err, is_not_found, ◌>>=◌}
use fluid_data_table.Kube.{OwnerReference, Pod}
use fluid_data_table.Kube.Objects.{empty_pod}

-- The texts before and after the last such byte.
unfoldable pub split_last : ℕ → Text → Option (Text × Text)
split_last c [] = none
split_last c (x ∷ xs) = elim (split_last c xs) [
  | some (before, after) ↦ some (x ∷ before, after)
  | none ↦ if x == c then some ([], xs) else none
]

-- strconv.ParseInt with 32 bits: -1 out of range.
abbrev pub ordinal_of : Option ℕ → ℤ
ordinal_of none = negsuc 0
ordinal_of (some n) = if ltb n 2147483648 then pos n else negsuc 0

-- getParentNameAndOrdinal: the expression "(.*)-([0-9]+)$" takes the last dash, as its first part is
-- greedy and digits are no dashes.
unfoldable pub get_parent_name_and_ordinal : Text → Text × ℤ
get_parent_name_and_ordinal name = elim (split_last b'-' name) [
  | none ↦ ([], negsuc 0)
  | some (parent, number) ↦
      if not (is_empty number) && all is_digit number
      then (parent, ordinal_of (unsigned number))
      else ([], negsuc 0)
]

-- getParentName and isMemberOf
unfoldable pub get_parent_name : Text → Text
get_parent_name name = (get_parent_name_and_ordinal name).0

unfoldable pub is_member_of : Text → Pod → Bool
is_member_of set pod = str_eq (get_parent_name pod.name) set

-- The stateful set: its name, its type and its UID.
pub record Target : Type 0 where
  pub name : Text
  pub kind : Text
  pub group : Text
  pub uid : Text

-- What the search for an owner calls.
pub record OwnerApi (S : Type 0) : Type 0 where
  -- schema.ParseGroupVersion: the group
  pub parse_group : Text → Result Text
  -- the error of reading an object of the target's type, by namespace and name
  pub get_object : Text → Text → S → Option Error
  -- the pods of all namespaces with the labels of a selector
  pub list_selected : Text → S → Result (List Pod)

-- client.IgnoreNotFound after the read: whether there is an object.
abbrev pub found_object : Option Error → Result Bool
found_object none = ok true
found_object (some e) = if is_not_found e then ok false else err e

-- `n` copies of one element.
abbrev pub replicate {ℓ} : {A : Type ℓ} → ℕ → A → List A
replicate zero a = []
replicate (suc n) a = a ∷ replicate n a

module _ {S : Type 0} (api : OwnerApi S) where
  -- resolveControllerRef: whether there is an owner.
  unfoldable pub resolve_controller_ref : OwnerReference → Text → Target → S → Result Bool
  resolve_controller_ref ref namespace target s = api.parse_group ref.api_version >>= λ group.
      if not (str_eq ref.kind target.kind) || not (str_eq group target.group)
      then ok false
      else found_object (api.get_object namespace ref.name s)

  -- compareOwnerRefMatcheWithExpected
  unfoldable pub compare_owner_ref : OwnerReference → Text → Target → S → Result Bool
  compare_owner_ref ref namespace target s =
      resolve_controller_ref ref namespace target s >>= λ found.
      ok (if found then str_eq ref.uid target.uid else false)

  -- What one round of the loop of GetPodsForStatefulSet says of a pod.
  unfoldable pub matches : Target → S → Pod → Result Bool
  matches set s pod =
      if is_member_of set.name pod
      then (elim pod.controller [
        | none ↦ ok false
        | some ref ↦ compare_owner_ref ref pod.namespace set s
      ])
      else ok false

  -- The loop. What it appends is a pointer to its variable, and there is one variable for all rounds
  -- (Go 1.13): so it is enough to count the pointers and to keep the variable's value.
  unfoldable pub match_loop : Target → S → List Pod → ℕ → Pod → (ℕ × Pod) × Option Error
  match_loop set s [] n pod = ((n, pod), none)
  match_loop set s (next ∷ pods) n pod = elim (matches set s next) [
    | err e ↦ ((n, next), some e)
    | ok b ↦ match_loop set s pods (if b then n + 1 else n) next
  ]

  -- GetPodsForStatefulSet: the pods that the pointers show, and the error.
  unfoldable pub get_pods_for_stateful_set : Target → Text → S → List Pod × Option Error
  get_pods_for_stateful_set set selector s = elim (api.list_selected selector s) [
    | err e ↦ ([], some e)
    | ok pods ↦ (let (r, e) = match_loop set s pods 0 empty_pod in (replicate r.0 r.1, e))
  ]
