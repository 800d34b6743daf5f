-- ===== src/Util.antt =====
-- The small helpers of pkg/utils/slice.go, pkg/utils/quantity.go, pkg/utils/crtl_utils.go and
-- pkg/utils/lifecycle/schedule_utils.go.
pub mod Slices
use fluid_data_table.Base.{
  ℕ, zero, suc, Bool, true, false, not, ◌||◌, ◌&&◌, ◌==◌, Option, none, some, List, [], ◌∷◌, keep,
  any, all, ◌≡◌, refl, if◌then◌else◌, is_empty,
}
use fluid_data_table.Base.Text.{Text, codes, replace_byte, drop_bytes, has_prefix}
use fluid_data_table.Base.Result.{Error, is_not_found}
use fluid_data_table.Base.Dict.{Dict, insert, erase, has_key}

-- FillSliceWithString
unfoldable pub fill_slice_with_string : Text → ℕ → List Text
fill_slice_with_string s zero = []
fill_slice_with_string s (suc n) = s ∷ fill_slice_with_string s n

-- The loops of SubtractString: the strings of the first slice as a set, and that set without those
-- of the second.
unfoldable pub hash_of : List Text → Dict (Unit {0}) → Dict (Unit {0})
hash_of [] hash = hash
hash_of (v ∷ x) hash = hash_of x (insert v tt hash)

unfoldable pub unhash : List Text → Dict (Unit {0}) → Dict (Unit {0})
unhash [] hash = hash
unhash (v ∷ y) hash = unhash y (if has_key v hash then erase v hash else hash)

-- SubtractString
unfoldable pub subtract_string : List Text → List Text → List Text
subtract_string x y =
    if is_empty x
    then []
    else if is_empty y
    then x
    else keep (λ (v : Text). has_key v (unhash y (hash_of x []))) x

-- v1.Taint, and its effects
pub data TaintEffect : Type 0 where
  no_schedule prefer_no_schedule no_execute : TaintEffect

pub record Taint : Type 0 where
  pub key : Text
  pub value : Text
  pub effect : TaintEffect

abbrev pub keeps_away : Taint → Bool
keeps_away taint = elim taint.effect [
  | no_schedule ↦ true
  | prefer_no_schedule ↦ false
  | no_execute ↦ true
]

-- toleratesTaints: `tolerates` is ToleratesTaint of a toleration.
unfoldable pub tolerates_taints {ℓ} :
    {Toleration : Type ℓ} → (Toleration → Taint → Bool) → List Taint → List Toleration → Bool
tolerates_taints tolerates taints tolerations =
    if is_empty tolerations
    then false
    else all (λ (taint : Taint). any (λ toleration. tolerates toleration taint) tolerations)
        (keep keeps_away taints)

-- strings.HasSuffix of one byte
abbrev pub ends_with : ℕ → Text → Bool
ends_with c [] = false
ends_with c (x ∷ []) = x == c
ends_with c (x ∷ y ∷ s) = ends_with c (y ∷ s)

-- TransformQuantityToAlluxioUnit, of the text of a quantity; TransformQuantityToGooseFSUnit is the
-- same.
unfoldable pub transform_quantity_to_alluxio_unit : Text → Text
transform_quantity_to_alluxio_unit value =
    if ends_with b'i' value then replace_byte b'i' b'B' value else value

-- TransformQuantityToGooseFSUnit does the same.
abbrev pub transform_quantity_to_goose_fs_unit : Text → Text
transform_quantity_to_goose_fs_unit = transform_quantity_to_alluxio_unit

-- strings.ReplaceAll of "Gi" by "g"
unfoldable pub replace_gi : Text → Text
replace_gi [] = []
replace_gi (x ∷ []) = x ∷ []
replace_gi (x ∷ y ∷ s) =
    let pair : Text = b'g' ∷ replace_gi s in
    let kept : Text = x ∷ replace_gi (y ∷ s) in if x == b'G' && y == b'i' then pair else kept

-- strings.HasSuffix of "Gi"
unfoldable pub ends_in_gi : Text → Bool
ends_in_gi [] = false
ends_in_gi (x ∷ []) = false
ends_in_gi (x ∷ y ∷ []) = x == b'G' && y == b'i'
ends_in_gi (x ∷ y ∷ z ∷ s) = ends_in_gi (y ∷ z ∷ s)

-- TransformQuantityToJindoUnit, of the quantity as a text
unfoldable pub transform_quantity_to_jindo_unit : Text → Text
transform_quantity_to_jindo_unit value = if ends_in_gi value then replace_gi value else value

jindo_tests :
    (transform_quantity_to_jindo_unit (codes "10Gi") ≡ codes "10g")
    × (transform_quantity_to_jindo_unit (codes "10Mi") ≡ codes "10Mi")
unfolding transform_quantity_to_jindo_unit ends_in_gi replace_gi
jindo_tests = (refl, refl)

-- IgnoreNotFound, GetOrDefault and HasDeletionTimestamp of pkg/utils/crtl_utils.go
abbrev pub ignore_not_found : Option Error → Option Error
ignore_not_found none = none
ignore_not_found (some e) = if is_not_found e then none else some e

abbrev pub get_or_default : Option Text → Text → Text
get_or_default none default = default
get_or_default (some s) default = s

abbrev pub has_deletion_timestamp : Option ℕ → Bool
has_deletion_timestamp none = false
has_deletion_timestamp (some time) = true
