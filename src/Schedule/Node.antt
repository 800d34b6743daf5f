-- ===== src/Schedule/Node.antt =====
-- The parts of a Kubernetes node that the scheduler reads, pkg/utils/kubeclient/node.go, and the
-- label tests of pkg/utils.
use fluid_data_table.Base.{
  ℕ, Bool, true, false, none, some, List, [], ◌∷◌, not, ◌&&◌, if◌then◌else◌, is_empty,
}
use fluid_data_table.Base.Text.{Text, str_eq}
use fluid_data_table.Base.Dict.{Dict, lookup, has_key}

-- v1.NodeCondition: whether its type is Ready, and whether its status is True.
pub record NodeCondition : Type 0 where
  pub is_ready_type : Bool
  pub status_true : Bool

pub data AddressType : Type 0 where
  internal_ip internal_dns other_address : AddressType

pub record NodeAddress : Type 0 where
  pub type : AddressType
  pub address : Text

pub record Node : Type 0 where
  pub name : Text
  pub labels : Dict Text
  pub unschedulable : Bool
  pub conditions : List NodeCondition
  pub addresses : List NodeAddress
  -- `Status.Allocatable.Memory()`, in bytes
  pub memory : ℕ

-- IsReady of pkg/utils/kubeclient/node.go: the loop over the conditions.
unfoldable pub ready_conditions : List NodeCondition → Bool
ready_conditions [] = true
ready_conditions (c ∷ cs) =
    if c.is_ready_type && not c.status_true then false else ready_conditions cs

unfoldable pub is_ready : Node → Bool
unfolding ready_conditions
is_ready node = ready_conditions node.conditions

-- A missing key of a Go map reads as the empty string.
abbrev pub label_value : Text → Dict Text → Text
label_value k m = elim (lookup k m) [ none ↦ [] | some v ↦ v ]

-- ContainsSelector of pkg/utils/crtl_utils.go
unfoldable pub contains_selector : Dict Text → Dict Text → Bool
contains_selector labels [] = true
contains_selector labels ((key, value) ∷ selector) =
    if not (str_eq (label_value key labels) value) then false else contains_selector labels selector

-- FindLabelNameOnNode of pkg/utils/lifecycle/node.go
unfoldable pub find_label_name_on_node : Node → Text → Bool
find_label_name_on_node node key = if is_empty node.labels then false else has_key key node.labels

-- CheckExpectValue of pkg/common/label.go
unfoldable pub check_expect_value : Dict Text → Text → Text → Bool
check_expect_value m key target =
    if is_empty m then false else (elim (lookup key m) [ none ↦ false | some v ↦ str_eq v target ])

-- ContainsAll of pkg/utils/map.go: the loop over the slice.
unfoldable pub contains_each : Dict Text → List Text → Bool
contains_each m [] = true
contains_each m (e ∷ slice) = if not (has_key e m) then false else contains_each m slice

unfoldable pub contains_all : Dict Text → List Text → Bool
unfolding contains_each
contains_all m slice =
    if is_empty slice then true else if is_empty m then false else contains_each m slice
