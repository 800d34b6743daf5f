-- ===== src/Kube/Pods.antt =====
-- pkg/utils/kubeclient/pod.go: the phase of a pod and the claims that it mounts.
use fluid_data_table.Base.{Bool, true, false, ◌||◌, Option, none, some, List, [], ◌∷◌}
use fluid_data_table.Base.Text.{Text}
use fluid_data_table.Base.Dict.{is_some}
use fluid_data_table.Kube.{
  PodPhase, pod_pending, pod_running, pod_succeeded, pod_failed, pod_unknown, claim_source,
  other_source, Volume, Pod,
}

abbrev pub phase_is_succeeded : PodPhase → Bool
phase_is_succeeded pod_pending = false
phase_is_succeeded pod_running = false
phase_is_succeeded pod_succeeded = true
phase_is_succeeded pod_failed = false
phase_is_succeeded pod_unknown = false

abbrev pub phase_is_failed : PodPhase → Bool
phase_is_failed pod_pending = false
phase_is_failed pod_running = false
phase_is_failed pod_succeeded = false
phase_is_failed pod_failed = true
phase_is_failed pod_unknown = false

-- IsCompletePod; `none` is a nil pointer.
unfoldable pub is_complete_pod : Option Pod → Bool
is_complete_pod none = false
is_complete_pod (some pod) =
    is_some pod.deletion_timestamp || (phase_is_succeeded pod.phase || phase_is_failed pod.phase)

-- IsSucceededPod
unfoldable pub is_succeeded_pod : Option Pod → Bool
is_succeeded_pod none = false
is_succeeded_pod (some pod) = phase_is_succeeded pod.phase

-- IsFailedPod
unfoldable pub is_failed_pod : Option Pod → Bool
is_failed_pod none = false
is_failed_pod (some pod) = phase_is_failed pod.phase

abbrev pub claim_names : List Volume → List Text
claim_names [] = []
claim_names (volume ∷ volumes) = elim volume.source [
  | claim_source name ↦ name ∷ claim_names volumes
  | other_source ↦ claim_names volumes
]

-- GetPVCNamesFromPod
unfoldable pub get_pvc_names_from_pod : Pod → List Text
get_pvc_names_from_pod pod = claim_names pod.volumes
