-- ===== src/Runtime/Values.antt =====
-- The live parts of the engine's Helm values in pkg/ddc/alluxio: transformInitUsers of
-- transform_init_users.go, transformMasterSelector of transform.go, and getWorkerSelectors of worker.go.
-- The other transformations are
-- commented out.
use fluid_data_table.Base.{Bool, true, false, Option, none, some, List, [], ◌∷◌}
use fluid_data_table.Base.Text.{Text, codes}
use fluid_data_table.Base.Dict.{Dict}
use fluid_data_table.Base.Result.{Result, ok, err}
use fluid_data_table.Base.Int.{ℤ}
use fluid_data_table.Alluxio.Names.{
  Engine, User, get_init_user_dir, get_init_user_env, get_init_tier_paths_env,
}
use fluid_data_table.Alluxio.Images.{parse_init_image}

-- common.UserInfo
pub record UserInfo : Type 0 where
  pub user : ℤ
  pub group : ℤ
  pub fs_group : ℤ

-- common.InitUsers, with its ImageInfo
pub record InitUsers : Type 0 where
  pub image : Text
  pub image_tag : Text
  pub image_pull_policy : Text
  pub env_users : Text
  pub dir : Text
  pub enabled : Bool
  pub env_tiered_paths : Text

-- The fields of the values that transformInitUsers writes.
pub record Values : Type 0 where
  pub user_info : UserInfo
  pub init_users : InitUsers

-- What it reads of the runtime's spec: RunAs, InitUsers, and the paths of the levels.
pub record InitSpec : Type 0 where
  pub run_as : Option User
  pub image : Text
  pub image_tag : Text
  pub image_pull_policy : Text
  pub level_paths : List Text

abbrev pub disabled : InitUsers
disabled = record {
  image = [];
  image_tag = [];
  image_pull_policy = [];
  env_users = [];
  dir = [];
  enabled = false;
  env_tiered_paths = [];
}

-- The values for a user that the runtime runs as.
abbrev pub run_as_user : Engine → InitSpec → Option User → Values → Values
run_as_user e spec none values = record values { init_users = disabled }
run_as_user e spec (some user) values = record values {
  user_info = record values.user_info { user = user.uid; group = user.gid };
  init_users = record disabled {
    enabled = true;
    dir = get_init_user_dir e;
    env_users = get_init_user_env user;
    env_tiered_paths = get_init_tier_paths_env spec.level_paths;
  };
}

abbrev pub with_image : Text × (Text × Text) → Values → Values
with_image (image, (tag, policy)) values = record values {
  init_users = record values.init_users {
    image = image;
    image_tag = tag;
    image_pull_policy = policy;
  };
}

-- transformInitUsers, with the environment's image
unfoldable pub transform_init_users : Option Text → Engine → InitSpec → Values → Values
transform_init_users env e spec values =
    with_image (parse_init_image env spec.image spec.image_tag spec.image_pull_policy)
      (run_as_user e spec spec.run_as values)

-- transformMasterSelector: a nil map becomes an empty one.
abbrev pub transform_master_selector : Option (Dict Text) → Dict Text
transform_master_selector none = []
transform_master_selector (some selector) = selector

-- The labels of getWorkerSelectors.
abbrev pub worker_labels : Text → Dict Text
worker_labels name =
    (codes "release", name)
    ∷ (codes "role", codes "alluxio-worker")
    ∷ (codes "app", codes "alluxio")
    ∷ []

-- getWorkerSelectors: `as_selector` is metav1.LabelSelectorAsSelector with String, and a selector that
-- is refused is the empty text.
unfoldable pub get_worker_selectors : (Dict Text → Result Text) → Text → Text
get_worker_selectors as_selector name = elim (as_selector (worker_labels name)) [
  | err e ↦ []
  | ok selector ↦ selector
]
