-- ===== src/Schedule/Tiers.antt =====
-- The tiers of a runtime's store: convertToTieredstoreInfo of pkg/ddc/base/runtime.go, and the order
-- of the media in pkg/utils/tieredstore/tiered_store.go.
pub mod Shares
pub mod Order
use fluid_data_table.Base.{
  ℕ, zero, suc, ◌+◌, ◌/◌, Bool, true, false, not, ◌||◌, ltb, ◌==◌, Option, none, some, List, [],
  ◌∷◌, ◌++◌, if◌then◌else◌, length, is_empty,
}
use fluid_data_table.Base.Text.{Text, codes, split, str_eq, trim_right}
use fluid_data_table.Base.Int.{ℤ, pos, negsuc, truncated}
use fluid_data_table.Base.Result.{Error, Result, ok, err, message, ◌>>=◌}
use fluid_data_table.Schedule.Info.{Level}

-- A level of the spec (api/v1alpha1); a quota is a whole number of bytes.
pub record LevelSpec : Type 0 where
  pub medium_type : Text
  pub path : Text
  pub quota : Option ℤ
  pub quota_list : Text
  pub high : Text
  pub low : Text

pub record CachePath : Type 0 where
  pub path : Text
  pub quota : ℤ

-- Level of RuntimeInfo, with its paths.
pub record CacheLevel : Type 0 where
  pub medium_type : Text
  pub cache_paths : List CachePath
  pub high : Text
  pub low : Text

-- One quota for every path.
unfoldable pub equal_paths : ℤ → List Text → List CachePath
equal_paths quota [] = []
equal_paths quota (path ∷ paths) =
    record { path = trim_right b'/' path; quota = quota } ∷ equal_paths quota paths

-- A quota of its own for each path; the lists are as long as each other.
unfoldable pub listed_paths : (Text → Option ℤ) → List Text → List Text → Result (List CachePath)
listed_paths parse_quantity (path ∷ paths) (quota ∷ quotas) = elim (parse_quantity quota) [
  | none ↦
      err (
        message
          (codes "can't correctly parse quota \"" ++ (quota ++ codes "\" to a quantity type")))
  | some n ↦ listed_paths parse_quantity paths quotas >>= λ rest.
      ok (record { path = trim_right b'/' path; quota = n } ∷ rest)
]
listed_paths parse_quantity [] [] = ok []
listed_paths parse_quantity [] (quota ∷ quotas) = ok []
listed_paths parse_quantity (path ∷ paths) [] = ok []

module _ (parse_quantity : Text → Option ℤ) where
  -- The paths of a level: the quota list counts before the quota.
  unfoldable pub paths_of_level : LevelSpec → Result (List CachePath)
  paths_of_level level =
      let paths = split b',' level.path in
      let quotas = split b',' level.quota_list in
      if is_empty level.quota_list
      then (elim level.quota [
        | none ↦ err (message (codes "either quota or quotaList must be set"))
        | some quota ↦ ok (equal_paths (truncated quota (length paths)) paths)
      ])
      else if length quotas == length paths
      then listed_paths parse_quantity paths quotas
      else err (message (codes "length of quotaList must be consistent with length of paths"))

  -- convertToTieredstoreInfo
  unfoldable pub convert_to_tieredstore_info : List LevelSpec → Result (List CacheLevel)
  convert_to_tieredstore_info [] = ok []
  convert_to_tieredstore_info (level ∷ levels) =
      let rest = convert_to_tieredstore_info levels in
      paths_of_level level >>= λ paths. rest >>= λ out. ok (
        record {
          medium_type = level.medium_type;
          cache_paths = paths;
          high = level.high;
          low = level.low;
        }
        ∷ out)

-- GetDefaultTieredStoreOrder: 0 also for an unknown medium.
unfoldable pub default_order : Text → ℕ
default_order medium =
    if str_eq medium (codes "SSD") then 1 else if str_eq medium (codes "HDD") then 2 else 0

abbrev pub has_medium : Text → List Text → Bool
has_medium medium [] = false
has_medium medium (m ∷ media) = str_eq m medium || has_medium medium media

-- The loop of makeMediumTypeSorted: the media that are not known yet.
unfoldable pub unrepeated : List Text → List Text → List Text
unrepeated known [] = []
unrepeated known (medium ∷ media) =
    if has_medium medium known
    then unrepeated known media
    else medium ∷ unrepeated (medium ∷ known) media

-- The first index of a medium.
unfoldable pub index_of : Text → List Text → Option ℕ
index_of medium [] = none
index_of medium (m ∷ media) = elim (str_eq m medium) [
  | true ↦ some 0
  | false ↦ (elim (index_of medium media) [ none ↦ none | some i ↦ some (suc i) ])
]

-- Less of sortMediumType
abbrev pub less : Text → Text → Bool
less a b = ltb (default_order a) (default_order b)

abbrev pub media_of : List CacheLevel → List Text
media_of [] = []
media_of (level ∷ levels) = level.medium_type ∷ media_of levels

-- sort.Sort is a parameter, which gets the order of two media.
module _ (sort : (Text → Text → Bool) → List Text → List Text) where
  -- makeMediumTypeSorted
  unfoldable pub make_medium_type_sorted : List Text → List Text
  make_medium_type_sorted media = sort less (unrepeated [] media)

  -- GetTieredLevel
  unfoldable pub get_tiered_level : List CacheLevel → Text → ℤ
  get_tiered_level levels medium =
      elim (index_of medium (make_medium_type_sorted (media_of levels))) [
        | none ↦ negsuc 0
        | some i ↦ pos i
      ]
