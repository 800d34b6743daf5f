-- ===== src/Kube/Objects.antt =====
-- pkg/utils/kubeclient: configmap.go, service.go, namespace.go, and GetPodByName of pod.go.
use fluid_data_table.Base.{Bool, true, Option, none, some, [], if◌then◌else◌}
use fluid_data_table.Base.Text.{Text}
use fluid_data_table.Base.Dict.{Dict}
use fluid_data_table.Base.Result.{Error, Result, ok, err, is_not_found}
use fluid_data_table.Kube.{Pod, pod_unknown}
use fluid_data_table.Kube.Volumes.{found_with}

-- v1.ConfigMap
pub record ConfigMap : Type 0 where
  pub name : Text
  pub namespace : Text
  pub data_of : Dict Text

-- A pointer to an object and an error: a missing object is a nil pointer and no error; with any
-- other error comes the empty object that the call was to fill in.
abbrev pub get_by_name : {A : Type 0} → A → Result A → Option A × Option Error
get_by_name empty (ok a) = (some a, none)
get_by_name empty (err e) = if is_not_found e then (none, none) else (some empty, some e)

abbrev pub empty_config_map : ConfigMap
empty_config_map = record { name = []; namespace = []; data_of = [] }

-- `&v1.Pod{}`
abbrev pub empty_pod : Pod
empty_pod = record {
  name = [];
  namespace = [];
  deletion_timestamp = none;
  phase = pod_unknown;
  node_name = [];
  volumes = [];
  controller = none;
}

-- The calls of the API server for the objects of this file.
pub record ObjectApi (S : Type 0) : Type 1 where
  pub Service : Type 0
  pub empty_service : Service
  -- by namespace and name
  pub get_config_map : Text → Text → S → Result ConfigMap
  pub get_pod : Text → Text → S → Result Pod
  pub get_service : Text → Text → S → Result Service
  pub delete_config_map : ConfigMap → S → Option Error × S
  -- the error of reading a namespace, and of creating it
  pub get_namespace : Text → S → Option Error
  pub create_namespace : Text → S → Option Error × S

module _ {S : Type 0} (api : ObjectApi S) where
  -- IsConfigMapExist
  unfoldable pub is_config_map_exist : Text → Text → S → Result Bool
  is_config_map_exist name namespace s =
      found_with (λ (cm : ConfigMap). true) (api.get_config_map namespace name s)

  -- GetConfigmapByName
  unfoldable pub get_configmap_by_name : Text → Text → S → Option ConfigMap × Option Error
  get_configmap_by_name name namespace s =
      get_by_name empty_config_map (api.get_config_map namespace name s)

  -- GetPodByName
  unfoldable pub get_pod_by_name : Text → Text → S → Option Pod × Option Error
  get_pod_by_name name namespace s = get_by_name empty_pod (api.get_pod namespace name s)

  -- GetServiceByName
  unfoldable pub get_service_by_name : Text → Text → S → Option api.Service × Option Error
  get_service_by_name name namespace s =
      get_by_name api.empty_service (api.get_service namespace name s)

  -- DeleteConfigMap
  unfoldable pub delete_config_map : Text → Text → S → Option Error × S
  delete_config_map name namespace s = elim (api.get_config_map namespace name s) [
    | err e ↦ if is_not_found e then (none, s) else (some e, s)
    | ok cm ↦ api.delete_config_map cm s
  ]

  -- EnsureNamespace
  unfoldable pub ensure_namespace : Text → S → Option Error × S
  ensure_namespace namespace s = elim (api.get_namespace namespace s) [
    | none ↦ (none, s)
    | some e ↦ if is_not_found e then api.create_namespace namespace s else (some e, s)
  ]
