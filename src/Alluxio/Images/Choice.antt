-- ===== src/Alluxio/Images/Choice.antt =====
-- Which image is chosen, of pkg/utils/docker/image.go.
use fluid_data_table.Base.{true, false, some, [], ◌∷◌, ◌++◌, ◌≡◌, arith, is_empty}
use fluid_data_table.Base.Text.{Text, split_single, split-append, has_byte}
use fluid_data_table.Alluxio.Images.{
  parse_docker_image, matches_image, or_else, default_pull_policy, parse_image,
  get_image_repo_from_env, get_image_tag_from_env,
}

-- An image with one colon, and an image with a second one, as a registry with a port has it.
parse_docker_image-append :
    (name tag : Text)
    → has_byte b':' name ≡ false
    → has_byte b':' tag ≡ false
    → parse_docker_image (name ++ b':' ∷ tag) ≡ (name, tag)
unfolding parse_docker_image
parse_docker_image-append name tag h k =
    ground (arith, split-append b':' name tag h, split_single b':' tag k)

parse_docker_image_of_port :
    (host rest tag : Text)
    → has_byte b':' host ≡ false
    → has_byte b':' rest ≡ false
    → has_byte b':' tag ≡ false
    → parse_docker_image (host ++ b':' ∷ (rest ++ b':' ∷ tag)) ≡ (host, rest)
unfolding parse_docker_image
parse_docker_image_of_port host rest tag h k l = ground (
  arith,
  split-append b':' host (rest ++ b':' ∷ tag) h,
  split-append b':' rest tag k,
  split_single b':' tag l,
)

-- If the image in the environment is that of a registry with a port, and nothing is set, then the
-- image that is chosen is the registry's host alone, and its tag is the port with the path: the tag of
-- the image is lost.
pub parse_image_of_port :
    (default : Text × Text) (host rest tag policy : Text)
    → is_empty host ≡ false
    → is_empty rest ≡ false
    → has_byte b':' host ≡ false
    → has_byte b':' rest ≡ false
    → has_byte b':' tag ≡ false
    → matches_image (host ++ b':' ∷ (rest ++ b':' ∷ tag)) ≡ true
    → parse_image default (some (host ++ b':' ∷ (rest ++ b':' ∷ tag))) [] [] policy
      ≡ (host, (rest, or_else policy default_pull_policy))
unfolding parse_image get_image_repo_from_env get_image_tag_from_env
parse_image_of_port default host rest tag policy n m h k l e =
    ground (arith, parse_docker_image_of_port host rest tag h k l)

-- If the environment has an image with one colon, then what is set counts first and what the
-- environment says second, for the image and for the tag each on its own.
pub parse_image_lem :
    (default : Text × Text) (name version image tag policy : Text)
    → is_empty name ≡ false
    → is_empty version ≡ false
    → has_byte b':' name ≡ false
    → has_byte b':' version ≡ false
    → matches_image (name ++ b':' ∷ version) ≡ true
    → parse_image default (some (name ++ b':' ∷ version)) image tag policy
      ≡ (or_else image name, (or_else tag version, or_else policy default_pull_policy))
unfolding parse_image get_image_repo_from_env get_image_tag_from_env
parse_image_lem default name version image tag policy n m h k e =
    ground (arith, parse_docker_image-append name version h k)
