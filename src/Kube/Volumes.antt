-- ===== src/Kube/Volumes.antt =====
-- pkg/utils/kubeclient/volume.go: persistent volumes, their claims, and the pods that mount them.
pub mod Use
pub mod Protection
use fluid_data_table.Base.{
  ℕ, ◌+◌, Bool, true, false, not, ◌||◌, ◌&&◌, ltb, Option, none, some, List, [], ◌∷◌, ◌++◌,
  if◌then◌else◌, is_empty, keep,
}
use fluid_data_table.Base.Text.{Text, codes, str_eq}
use fluid_data_table.Base.Dict.{Dict, lookup, insert, is_some, has_key}
use fluid_data_table.Base.Result.{Error, Result, ok, err, message, is_not_found, ◌>>=◌}
use fluid_data_table.Datatable.Reconcile.{contains_string, remove_string}
use fluid_data_table.Kube.{
  claim_source, other_source, Volume, Pod, PersistentVolume, Claim, KubeApi,
}
use fluid_data_table.Kube.Pods.{is_complete_pod}

-- persistentVolumeClaimProtectionFinalizerName
abbrev pub protection_finalizer : Text
protection_finalizer = codes "kubernetes.io/pvc-protection"

-- ExpectedFluidAnnotations
abbrev pub expected_fluid_annotations : Dict Text
expected_fluid_annotations = (codes "CreatedBy", codes "fluid") ∷ []

-- `m[k]`: the empty text if there is none.
abbrev pub value_of : Text → Dict Text → Text
value_of k m = elim (lookup k m) [ none ↦ [] | some v ↦ v ]

-- The loop over the annotations that are expected.
unfoldable pub annotations_match : Dict Text → Dict Text → Bool
annotations_match [] actual = true
annotations_match ((k, v) ∷ expected) actual =
    str_eq (value_of k actual) v && annotations_match expected actual

abbrev pub has_annotations : Dict Text → Dict Text → Bool
has_annotations expected actual = not (is_empty actual) && annotations_match expected actual

-- A missing object is no error: whether it was found, and the error.
abbrev pub found_with {ℓ} : {A : Type ℓ} → (A → Bool) → Result A → Result Bool
found_with test (ok a) = ok (test a)
found_with test (err e) = if is_not_found e then ok false else err e

abbrev pub is_claim : Volume → Bool
is_claim volume = elim volume.source [ claim_source name ↦ true | other_source ↦ false ]

abbrev pub mounts_claim : Text → Volume → Bool
mounts_claim claim volume = elim volume.source [
  | claim_source name ↦ str_eq name claim
  | other_source ↦ false
]

-- GetPVCsFromPod
unfoldable pub get_pvcs_from_pod : Pod → List Volume
get_pvcs_from_pod pod = keep is_claim pod.volumes

-- The inner loop of GetPvcMountPods: the pod, once for each of its volumes that is the claim's.
unfoldable pub mounts_of : Text → Pod → List Volume → List Pod
mounts_of claim pod [] = []
mounts_of claim pod (volume ∷ volumes) =
    let rest = mounts_of claim pod volumes in if mounts_claim claim volume then pod ∷ rest else rest

unfoldable pub mount_pods : Text → List Pod → List Pod
mount_pods claim [] = []
mount_pods claim (pod ∷ pods) = mounts_of claim pod (get_pvcs_from_pod pod) ++ mount_pods claim pods

abbrev pub one_more : Option ℕ → ℕ
one_more none = 1
one_more (some n) = n + 1

-- The loop of GetPvcMountNodes
unfoldable pub count_nodes : List Pod → Dict ℕ → Dict ℕ
count_nodes [] m = m
count_nodes (pod ∷ pods) m =
    if is_complete_pod (some pod) || is_empty pod.node_name
    then count_nodes pods m
    else count_nodes pods (insert pod.node_name (one_more (lookup pod.node_name m)) m)

-- The first pod that is not complete.
unfoldable pub first_running : List Pod → Option Pod
first_running [] = none
first_running (pod ∷ pods) =
    let rest = first_running pods in if is_complete_pod (some pod) then rest else some pod

abbrev pub refusal : Text → Pod → Text → Error
refusal what pod why = message (
    codes "can not "
    ++ (what
        ++ (codes " because Pod "
            ++ (pod.name ++ (codes " in Namespace " ++ (pod.namespace ++ why))))))

-- A claim as `&v1.PersistentVolumeClaim{}`.
abbrev pub empty_claim : Claim
empty_claim = record {
  name = [];
  namespace = [];
  labels = [];
  annotations = [];
  finalizers = [];
  deletion_timestamp = none;
}

module _ {S : Type 0} (api : KubeApi S) where
  -- GetPersistentVolume
  unfoldable pub get_persistent_volume : Text → S → Result PersistentVolume
  get_persistent_volume name s = api.get_volume name s

  -- IsPersistentVolumeExist
  unfoldable pub is_persistent_volume_exist : Text → Dict Text → S → Result Bool
  is_persistent_volume_exist name annotations s =
      found_with (λ (pv : PersistentVolume). has_annotations annotations pv.annotations)
        (api.get_volume name s)

  -- IsPersistentVolumeClaimExist
  unfoldable pub is_persistent_volume_claim_exist : Text → Text → Dict Text → S → Result Bool
  is_persistent_volume_claim_exist name namespace annotations s =
      found_with (λ (pvc : Claim). has_annotations annotations pvc.annotations)
        (api.get_claim namespace name s)

  -- The end of a deletion: every error but a missing object gets a message, and a missing object
  -- stays an error.
  abbrev pub deletion_error : Text → Text → Option Error × S → Option Error × S
  deletion_error what name (none, s) = (none, s)
  deletion_error what name (some e, s) = if is_not_found e then (some e, s) else (
    some
        (message (codes "error deleting " ++ (what ++ (name ++ (codes ": " ++ api.error_text e))))),
    s,
  )

  -- DeletePersistentVolume
  unfoldable pub delete_persistent_volume : Text → S → Option Error × S
  delete_persistent_volume name s = elim (api.get_volume name s) [
    | err e ↦ if is_not_found e then (none, s) else (some e, s)
    | ok pv ↦ deletion_error (codes "pv ") name (api.delete_volume pv s)
  ]

  -- DeletePersistentVolumeClaim
  unfoldable pub delete_persistent_volume_claim : Text → Text → S → Option Error × S
  delete_persistent_volume_claim name namespace s = elim (api.get_claim namespace name s) [
    | err e ↦ if is_not_found e then (none, s) else (some e, s)
    | ok pvc ↦ deletion_error (codes "pvc ") name (api.delete_claim pvc s)
  ]

  -- GetPvcMountPods
  unfoldable pub get_pvc_mount_pods : Text → Text → S → Result (List Pod)
  get_pvc_mount_pods name namespace s =
      api.list_pods namespace s >>= λ pods. ok (mount_pods name pods)

  -- GetPvcMountNodes
  unfoldable pub get_pvc_mount_nodes : Text → Text → S → Result (Dict ℕ)
  get_pvc_mount_nodes name namespace s =
      get_pvc_mount_pods name namespace s >>= λ pods. ok (count_nodes pods [])

  -- RemoveProtectionFinalizer: where the claim is not found, the empty claim is written.
  unfoldable pub remove_protection_finalizer : Text → Text → S → Option Error × S
  remove_protection_finalizer name namespace s = elim (api.get_claim namespace name s) [
    | err e ↦ if is_not_found e then api.update_claim empty_claim s else (some e, s)
    | ok pvc ↦
        api.update_claim
          (record pvc { finalizers = remove_string pvc.finalizers protection_finalizer }) s
  ]

  -- ShouldDeleteDataset
  unfoldable pub should_delete_dataset : Text → Text → S → Option Error
  should_delete_dataset name namespace s =
      elim (is_persistent_volume_claim_exist name namespace expected_fluid_annotations s) [
        | err e ↦ some e
        | ok false ↦ none
        | ok true ↦ (elim (get_pvc_mount_pods name namespace s) [
          | err e ↦ some e
          | ok pods ↦ (elim (first_running pods) [
            | none ↦ none
            | some pod ↦ some (refusal (codes "delete dataset") pod (codes " is using it"))
          ])
        ])
      ]

  -- The last part of ShouldRemoveProtectionFinalizer: the pods that mount the claim.
  unfoldable pub pods_are_complete : Text → Text → S → Result Bool
  pods_are_complete name namespace s = get_pvc_mount_pods name namespace s >>= λ pods.
      elim (first_running pods) [
        | none ↦ ok true
        | some pod ↦
            err (refusal (codes "remove pvc-protection finalizer") pod (codes " is not completed"))
      ]

  -- Whether the claim has been terminating for 30 seconds with its finalizer.
  abbrev pub is_stuck : Claim → S → Bool
  is_stuck pvc s = elim pvc.deletion_timestamp [
    | none ↦ false
    | some deleted ↦
        contains_string pvc.finalizers protection_finalizer && not (ltb (api.now s) (deleted + 30))
  ]

  -- ShouldRemoveProtectionFinalizer
  unfoldable pub should_remove_protection_finalizer : Text → Text → S → Result Bool
  should_remove_protection_finalizer name namespace s = api.get_claim namespace name s >>= λ pvc.
      if is_stuck pvc s then pods_are_complete name namespace s else ok false

  -- IsDatasetPVC
  unfoldable pub is_dataset_pvc : Text → Text → S → Result Bool
  is_dataset_pvc name namespace s = api.get_claim namespace name s >>= λ pvc.
      ok (has_key (codes "fluid-io/s-" ++ (namespace ++ (codes "-" ++ name))) pvc.labels)
