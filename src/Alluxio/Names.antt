-- ===== src/Alluxio/Names.antt =====
-- The names and paths of an Alluxio engine: pkg/ddc/alluxio/utils.go, deprecated_label.go,
-- api_gateway.go, pkg/utils/mount.go and pkg/utils/init_user.go.
use fluid_data_table.Base.{
  Bool, true, false, ◌||◌, ◌==◌, Option, none, some, List, [], ◌∷◌, ◌++◌, if◌then◌else◌,
}
use fluid_data_table.Base.Text.{Text, codes, split, join, str_eq}
use fluid_data_table.Base.Dict.{Dict, has_key}
use fluid_data_table.Base.Int.{ℤ, ltb_ℤ}
use fluid_data_table.Base.Strconv.{format_int}
use fluid_data_table.Base.Result.{Error, Result, ok, err, is_not_found}

-- An engine's name and namespace.
pub record Engine : Type 0 where
  pub name : Text
  pub namespace : Text

-- getMasterPodInfo, getMasterStatefulsetName, getWorkerDaemonsetName and getFuseDaemonsetName
abbrev pub get_master_pod_info : Engine → Text × Text
get_master_pod_info e = (e.name ++ codes "-master-0", codes "alluxio-master")

abbrev pub get_master_statefulset_name : Engine → Text
get_master_statefulset_name e = e.name ++ codes "-master"

abbrev pub get_worker_daemonset_name : Engine → Text
get_worker_daemonset_name e = e.name ++ codes "-worker"

abbrev pub get_fuse_daemonset_name : Engine → Text
get_fuse_daemonset_name e = e.name ++ codes "-fuse"

-- GetMetadataFileName and GetMetadataInfoFileName
abbrev pub get_metadata_file_name : Engine → Text
get_metadata_file_name e =
    codes "metadata-backup-" ++ (e.name ++ (codes "-" ++ (e.namespace ++ codes ".gz")))

abbrev pub get_metadata_info_file_name : Engine → Text
get_metadata_info_file_name e = e.name ++ (codes "-" ++ (e.namespace ++ codes ".yaml"))

-- filepath.IsAbs
abbrev pub is_abs : Text → Bool
is_abs [] = false
is_abs (c ∷ path) = c == b'/'

-- GetMountRoot of the variable MOUNT_ROOT; `none` is an error.
unfoldable pub mount_root_of_env : Text → Option Text
mount_root_of_env value = if is_abs value then some value else none

-- getMountRoot and getMountPoint
unfoldable pub get_mount_root : Text → Text
get_mount_root value = elim (mount_root_of_env value) [
  | none ↦ codes "/alluxio"
  | some root ↦ root ++ codes "/alluxio"
]

unfoldable pub get_mount_point : Text → Engine → Text
get_mount_point value e =
    get_mount_root value
    ++ (codes "/" ++ (e.namespace ++ (codes "/" ++ (e.name ++ codes "/alluxio-fuse"))))

-- getInitUserDir
abbrev pub get_init_user_dir : Engine → Text
get_init_user_dir e = codes "/tmp/fluid/" ++ (e.namespace ++ (codes "/" ++ e.name))

-- getInitTierPathsEnv: the paths of all levels, of which each may name several with commas.
unfoldable pub tier_paths : List Text → List Text
tier_paths [] = []
tier_paths (path ∷ levels) = split b',' path ++ tier_paths levels

unfoldable pub get_init_tier_paths_env : List Text → Text
get_init_tier_paths_env levels = join (codes ":") (tier_paths levels)

-- User of RunAs
pub record User : Type 0 where
  pub uid : ℤ
  pub gid : ℤ
  pub user_name : Text
  pub group_name : Text

-- GetInitUsersArgs and GetInitUserEnv
unfoldable pub get_init_users_args : User → List Text
get_init_users_args user =
    (format_int user.uid ++ (codes ":" ++ (user.user_name ++ (codes ":" ++ format_int user.gid))))
    ∷ (format_int user.gid ++ (codes ":" ++ user.group_name))
    ∷ []

unfoldable pub get_init_user_env : User → Text
get_init_user_env user = join (codes ",") (get_init_users_args user)

-- isPortInUsed
unfoldable pub is_port_in_used : ℤ → List ℤ → Bool
is_port_in_used port [] = false
is_port_in_used port (used ∷ ports) =
    let rest = is_port_in_used port ports in
    if ltb_ℤ port used || ltb_ℤ used port then rest else true

-- getDeprecatedCommonLabelname
abbrev pub get_deprecated_common_labelname : Engine → Text
get_deprecated_common_labelname e =
    codes "data.fluid.io/storage-" ++ (e.namespace ++ (codes "-" ++ e.name))

-- HasDeprecatedCommonLabelname, of the node selector of the workers: missing workers have none.
unfoldable pub has_deprecated_common_labelname : Engine → Result (Dict Text) → Result Bool
has_deprecated_common_labelname e (ok selector) =
    ok (has_key (get_deprecated_common_labelname e) selector)
has_deprecated_common_labelname e (err x) = if is_not_found x then ok false else err x

-- A port of a service: its name and its number.
abbrev pub Ports : Type 0
Ports = List (Text × ℤ)

abbrev pub rest_endpoint : Text → Ports → Text
rest_endpoint host [] = []
rest_endpoint host ((name, port) ∷ ports) =
    if str_eq name (codes "rest")
    then host ++ (codes ":" ++ format_int port)
    else rest_endpoint host ports

-- queryAPIGatewayEndpoint and GetAPIGatewayStatus, of what GetServiceByName gives for the service
-- name; without a service the endpoint is empty.
unfoldable pub query_api_gateway_endpoint :
    Engine → (Text → Text → Option Ports × Option Error) → Result Text
query_api_gateway_endpoint e get_service =
    let service = e.name ++ codes "-master-0" in
    let (svc, x) = get_service service e.namespace in
    elim x [
      | some error ↦ err error
      | none ↦ (elim svc [
        | none ↦ ok []
        | some ports ↦ ok (rest_endpoint (service ++ (codes "." ++ e.namespace)) ports)
      ])
    ]
