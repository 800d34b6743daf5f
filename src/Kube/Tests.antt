-- ===== src/Kube/Tests.antt =====
-- The helpers of pkg/utils/kubeclient on a small cluster: one claim and three pods.
use fluid_data_table.Base.{
  ℕ, true, ◌||◌, ◌&&◌, Option, none, some, List, [], ◌∷◌, ◌≡◌, ◌↔◌, ◌≤◌, ◌+◌, refl, arith,
  if◌then◌else◌, all, is_empty, length, keep,
}
use fluid_data_table.Base.Text.{Text, codes, str_eq, str_eq_iff}
use fluid_data_table.Base.Dict.{lookup, insert}
use fluid_data_table.Base.Result.{Error, Result, ok, err, not_found}
use fluid_data_table.Datatable.Reconcile.{contains_string}
use fluid_data_table.Kube.{
  PodPhase, pod_running, pod_succeeded, claim_source, other_source, Pod, Claim, KubeApi,
}
use fluid_data_table.Kube.Pods.{is_complete_pod}
use fluid_data_table.Kube.Volumes.{
  protection_finalizer, expected_fluid_annotations, get_pvc_mount_pods, get_pvc_mount_nodes,
  count_nodes, mount_pods, should_delete_dataset, should_remove_protection_finalizer,
  pods_are_complete, mounts_of, get_pvcs_from_pod, first_running, annotations_match,
}
use fluid_data_table.Kube.Volumes.Use.{
  plus, node_uses, is_idle, lookup-get_pvc_mount_nodes, should_delete_dataset_iff,
}
use fluid_data_table.Kube.Volumes.Protection.{KubeLaws, should_remove_protection_finalizer_safe}
use fluid_data_table.Kube.Owners.{
  Target, OwnerApi, replicate, get_parent_name_and_ordinal, get_pods_for_stateful_set, matches,
  match_loop, is_member_of, get_parent_name, compare_owner_ref, resolve_controller_ref, split_last,
}
use fluid_data_table.Kube.Owners.Names.{get_parent_name_and_ordinal-append}
use fluid_data_table.Base.Int.{pos}
use fluid_data_table.Base.Strconv.{unsigned}
use fluid_data_table.Kube.Owners.Aliases.{is_ok_true, get_pods_for_stateful_set_aliased}

abbrev pod_on : Text → PodPhase → Text → Pod
pod_on name phase node = record {
  name = name;
  namespace = codes "default";
  deletion_timestamp = none;
  phase = phase;
  node_name = node;
  volumes =
      record { name = codes "data"; source = claim_source (codes "sales") }
      ∷ record { name = codes "tmp"; source = other_source }
      ∷ [];
  controller = some (record {
    api_version = codes "apps/v1";
    kind = codes "StatefulSet";
    name = codes "hive";
    uid = codes "7";
  });
}

abbrev running_pods : List Pod
running_pods =
    pod_on (codes "hive-0") pod_running (codes "n1")
    ∷ pod_on (codes "hive-1") pod_running (codes "n1")
    ∷ pod_on (codes "job") pod_succeeded (codes "n2")
    ∷ []

abbrev ended_pods : List Pod
ended_pods = pod_on (codes "job") pod_succeeded (codes "n2") ∷ []

abbrev sales : Claim
sales = record {
  name = codes "sales";
  namespace = codes "default";
  labels = [];
  annotations = expected_fluid_annotations;
  finalizers = protection_finalizer ∷ [];
  deletion_timestamp = some 100;
}

abbrev bare_sales : Claim
bare_sales = record sales { finalizers = [] }

-- An API server with at most one claim.
abbrev get_only : Text → Text → Option Claim → Result Claim
get_only namespace name none = err not_found
get_only namespace name (some c) =
    if str_eq c.namespace namespace && str_eq c.name name then ok c else err not_found

abbrev delete_only : Claim → Option Claim → Option Error × Option Claim
delete_only pvc none = (some not_found, none)
delete_only pvc (some c) =
    if is_empty c.finalizers || is_empty pvc.finalizers
    then (none, none)
    else (none, some (record c { deletion_timestamp = some 0 }))

abbrev one_claim : List Pod → KubeApi (Option Claim)
one_claim pods = record {
  get_volume = λ name s. err not_found;
  get_claim = get_only;
  list_pods = λ namespace s. ok pods;
  delete_volume = λ pv s. (some not_found, s);
  delete_claim = delete_only;
  update_claim = λ pvc s. (none, some pvc);
  now = λ s. 130;
  error_text = λ e. [];
}

one_claim_written :
    (pods : List Pod) (pvc after : Claim) (s s' : Option Claim)
    → (one_claim pods).update_claim pvc s ≡ (none, s')
    → (one_claim pods).get_claim pvc.namespace pvc.name s' ≡ ok after
    → after ≡ pvc
one_claim_written pods pvc after s s' h k = ground arith

one_claim_deleted :
    (pods : List Pod) (pvc : Claim) (s s' : Option Claim)
    → pvc.finalizers ≡ []
    → (one_claim pods).delete_claim pvc s ≡ (none, s')
    → (one_claim pods).get_claim pvc.namespace pvc.name s' ≡ err not_found
one_claim_deleted pods pvc none s' h k = ground arith
one_claim_deleted pods pvc (some c) s' h k = ground arith

one_claim_named :
    (pods : List Pod) (namespace name : Text) (pvc : Claim) (s : Option Claim)
    → (one_claim pods).get_claim namespace name s ≡ ok pvc
    → (pvc.namespace ≡ namespace) × (pvc.name ≡ name)
one_claim_named pods namespace name pvc none h = ground arith
one_claim_named pods namespace name pvc (some c) h =
    ground (arith, str_eq_iff c.namespace namespace, str_eq_iff c.name name)

one_claim_laws : (pods : List Pod) → KubeLaws (one_claim pods)
one_claim_laws pods = record {
  written = one_claim_written pods;
  deleted = one_claim_deleted pods;
  named = one_claim_named pods;
}

lookup-get_pvc_mount_nodes_example :
    lookup (codes "n1") ((codes "n1", 2) ∷ [])
    ≡ plus none (node_uses (codes "sales") (codes "n1") running_pods)
unfolding get_pvc_mount_nodes get_pvc_mount_pods count_nodes mount_pods mounts_of get_pvcs_from_pod
    str_eq is_complete_pod insert lookup
lookup-get_pvc_mount_nodes_example =
    lookup-get_pvc_mount_nodes (one_claim running_pods) (codes "sales") (codes "default")
      (some sales) (codes "n1") running_pods ((codes "n1", 2) ∷ []) refl refl

should_delete_dataset_iff_example :
    (should_delete_dataset (one_claim running_pods) (codes "sales") (codes "default") (some sales)
      ≡ none)
    ↔ (all (is_idle (codes "sales")) running_pods ≡ true)
unfolding str_eq annotations_match lookup
should_delete_dataset_iff_example =
    should_delete_dataset_iff (one_claim running_pods) (codes "sales") (codes "default")
      (some sales) sales running_pods refl refl refl

should_remove_protection_finalizer_safe_example :
    (contains_string sales.finalizers protection_finalizer ≡ true)
    × ((deleted : ℕ) × (sales.deletion_timestamp ≡ some deleted) × (deleted + 30 ≤ 130))
    × (all (is_idle (codes "sales")) ended_pods ≡ true)
unfolding str_eq should_remove_protection_finalizer contains_string pods_are_complete
    get_pvc_mount_pods first_running mount_pods mounts_of get_pvcs_from_pod is_complete_pod
should_remove_protection_finalizer_safe_example =
    should_remove_protection_finalizer_safe (one_claim ended_pods) (codes "sales") (codes "default")
      (some sales) sales ended_pods refl refl refl

abbrev hive_set : Target
hive_set = record {
  name = codes "hive";
  kind = codes "StatefulSet";
  group = codes "apps";
  uid = codes "7";
}

abbrev all_pods : OwnerApi (Unit {0})
all_pods = record {
  parse_group = λ version. ok (codes "apps");
  get_object = λ namespace name s. none;
  list_selected = λ selector s. ok running_pods;
}

-- The two pods of the set come back as two pointers to a job.
get_pods_for_stateful_set_aliased_example :
    (get_pods_for_stateful_set all_pods hive_set (codes "app=hive") tt).0
    ≡ replicate
        (length (keep (λ (p : Pod). is_ok_true (matches all_pods hive_set tt p)) running_pods))
        (pod_on (codes "job") pod_succeeded (codes "n2"))
unfolding get_pods_for_stateful_set match_loop matches is_member_of str_eq get_parent_name
    get_parent_name_and_ordinal split_last compare_owner_ref resolve_controller_ref
get_pods_for_stateful_set_aliased_example =
    get_pods_for_stateful_set_aliased all_pods hive_set tt (codes "app=hive")
      (pod_on (codes "hive-0") pod_running (codes "n1")
        ∷ pod_on (codes "hive-1") pod_running (codes "n1")
        ∷ [])
      (pod_on (codes "job") pod_succeeded (codes "n2")) refl refl

-- A set whose name ends with a dash and digits has this pod.
get_parent_name_and_ordinal-append_example :
    get_parent_name_and_ordinal (codes "hbase-2-0012") ≡ (codes "hbase-2", pos 12)
unfolding unsigned
get_parent_name_and_ordinal-append_example =
    get_parent_name_and_ordinal-append (codes "hbase-2") (codes "0012") 12 refl refl refl
      (omega arith)
