-- ===== src/Alluxio/Images.antt =====
-- The images of the containers: pkg/utils/docker/image.go, and parseRuntimeImage and parseFuseImage of
-- pkg/ddc/alluxio/utils.go.
pub mod Choice
use fluid_data_table.Base.{
  Bool, true, false, not, ◌||◌, ◌&&◌, ◌==◌, ℕ, Option, none, some, List, [], ◌∷◌, ◌++◌, any,
  if◌then◌else◌, is_empty,
}
use fluid_data_table.Base.Text.{Text, codes, split, has_byte, has_prefix, trim_prefix}
use fluid_data_table.Base.Dict.{lookup}
use fluid_data_table.Base.Result.{Error}
use fluid_data_table.Kube.Objects.{ConfigMap}

-- ParseDockerImage: the parts before and after the first colon, up to the second.
abbrev pub image_of_parts : List Text → Text × Text
image_of_parts [] = ([], [])
image_of_parts (name ∷ []) = (name, codes "latest")
image_of_parts (name ∷ tag ∷ parts) = (name, tag)

unfoldable pub parse_docker_image : Text → Text × Text
parse_docker_image image = image_of_parts (split b':' image)

-- The white space of the expression "^\S+:\S+$", and whether a text matches it.
abbrev pub is_blank : ℕ → Bool
is_blank c = c == 32 || (c == 9 || (c == 10 || (c == 12 || c == 13)))

unfoldable pub drop_last : Text → Text
drop_last [] = []
drop_last (x ∷ []) = []
drop_last (x ∷ y ∷ s) = x ∷ drop_last (y ∷ s)

abbrev pub has_inner_colon : Text → Bool
has_inner_colon [] = false
has_inner_colon (x ∷ s) = has_byte b':' (drop_last s)

unfoldable pub matches_image : Text → Bool
matches_image value = not (any is_blank value) && has_inner_colon value

-- What a variable of the environment says, if it is set and matches.
abbrev pub env_image : Option Text → Text × Text
env_image none = ([], [])
env_image (some value) = if matches_image value then parse_docker_image value else ([], [])

-- GetImageRepoFromEnv and GetImageTagFromEnv, of the value of the variable
unfoldable pub get_image_repo_from_env : Option Text → Text
get_image_repo_from_env value = (env_image value).0

unfoldable pub get_image_tag_from_env : Option Text → Text
get_image_tag_from_env value = (env_image value).1

abbrev pub or_else : Text → Text → Text
or_else a b = if is_empty a then b else a

abbrev pub default_pull_policy : Text
default_pull_policy = codes "IfNotPresent"

-- ParseInitImage, parseRuntimeImage and parseFuseImage differ in the default image only, which has
-- one colon: what is set counts first, then the environment, then the default.
unfoldable pub parse_image : Text × Text → Option Text → Text → Text → Text → Text × (Text × Text)
parse_image default env image tag policy = (
  or_else image (or_else (get_image_repo_from_env env) default.0),
  (
    or_else tag (or_else (get_image_tag_from_env env) default.1),
    or_else policy default_pull_policy,
  ),
)

unfoldable pub parse_init_image : Option Text → Text → Text → Text → Text × (Text × Text)
parse_init_image =
    parse_image (codes "registry.cn-hangzhou.aliyuncs.com/fluid/init-users", codes "v0.3.0-1467caa")

unfoldable pub parse_runtime_image : Option Text → Text → Text → Text → Text × (Text × Text)
parse_runtime_image =
    parse_image
      (codes "registry.cn-huhehaote.aliyuncs.com/alluxio/alluxio", codes "2.3.0-SNAPSHOT-2c41226")

unfoldable pub parse_fuse_image : Option Text → Text → Text → Text → Text × (Text × Text)
parse_fuse_image = parse_image (
  codes "registry.cn-huhehaote.aliyuncs.com/alluxio/alluxio-fuse",
  codes "2.3.0-SNAPSHOT-2c41226",
)

-- The loop of GetWorkerImage over the lines: the last line of each kind counts.
unfoldable pub image_lines : List Text → Text × Text → Text × Text
image_lines [] found = found
image_lines (line ∷ lines) found =
    let name =
      if has_prefix line (codes "image: ") then trim_prefix line (codes "image: ") else found.0 in
    let tag =
      if has_prefix line (codes "imageTag: ")
      then trim_prefix line (codes "imageTag: ")
      else found.1 in
    image_lines lines (name, tag)

abbrev pub image_of_map : Option ConfigMap × Option Error → Text × Text
image_of_map (none, e) = ([], [])
image_of_map (some cm, some e) = ([], [])
image_of_map (some cm, none) = elim (lookup (codes "data") cm.data_of) [
  | none ↦ ([], [])
  | some value ↦ image_lines (split b'\n' value) ([], [])
]

-- GetWorkerImage, of what GetConfigmapByName gives for a name and a namespace
unfoldable pub get_worker_image :
    (Text → Text → Option ConfigMap × Option Error) → Text → Text → Text → Text × Text
get_worker_image get_configmap dataset runtime_type namespace =
    image_of_map
      (get_configmap (dataset ++ (codes "-" ++ (runtime_type ++ codes "-values"))) namespace)
