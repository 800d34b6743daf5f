-- ===== src/Schedule/Tests/Tiers.antt =====
-- The tiers of a store with memory and a disk, sorted by insertion.
use fluid_data_table.Base.Text.{trim_right}
use fluid_data_table.Schedule.Tiers.{equal_paths}
use fluid_data_table.Schedule.Tiers.{paths_of_level}
use fluid_data_table.Base.{
  ℕ, ◌≤◌, Bool, ◌||◌, Option, none, some, List, [], ◌∷◌, ◌≡◌, refl, arith, if◌then◌else◌, map, All,
  Bool-cases, inl, inr, length,
}
use fluid_data_table.Base.Text.{Text, codes, str_eq, split}
use fluid_data_table.Base.Int.{ℤ, pos, negsuc, ◌≤ℤ◌, ◌<ℤ◌, truncated}
use fluid_data_table.Schedule.Tiers.{
  LevelSpec, CachePath, CacheLevel, default_order, less, has_medium, get_tiered_level,
}
use fluid_data_table.Schedule.Tiers.Shares.{IsShare, paths_of_level_shares}
use fluid_data_table.Schedule.Tiers.Order.{IsOrdered, SortLaws, get_tiered_level_order}

put : (Text → Text → Bool) → Text → List Text → List Text
put lt m [] = m ∷ []
put lt m (x ∷ xs) = let rest = put lt m xs in if lt x m then x ∷ rest else m ∷ x ∷ xs

insertion_sort : (Text → Text → Bool) → List Text → List Text
insertion_sort lt [] = []
insertion_sort lt (x ∷ xs) = put lt x (insertion_sort lt xs)

has_medium-put :
    (medium m : Text) (xs : List Text)
    → has_medium medium (put less m xs) ≡ (str_eq m medium || has_medium medium xs)
unfolding put
has_medium-put medium m [] = refl
has_medium-put medium m (x ∷ xs) = ground (arith, has_medium-put medium m xs)

has_medium-insertion_sort :
    (xs : List Text) (medium : Text)
    → has_medium medium (insertion_sort less xs) ≡ has_medium medium xs
unfolding insertion_sort
has_medium-insertion_sort [] medium = refl
has_medium-insertion_sort (x ∷ xs) medium =
    ground
      (arith, has_medium-put medium x (insertion_sort less xs), has_medium-insertion_sort xs medium)

bounded :
    (a b : ℕ) (xs : List Text)
    → a ≤ b
    → All (λ (x : Text). b ≤ default_order x) xs
    → All (λ (x : Text). a ≤ default_order x) xs
bounded a b [] h k = tt
bounded a b (x ∷ xs) h k = (omega (arith, h, k.0), bounded a b xs h k.1)

put_bounded :
    (a : ℕ) (m : Text) (xs : List Text)
    → a ≤ default_order m
    → All (λ (x : Text). a ≤ default_order x) xs
    → All (λ (x : Text). a ≤ default_order x) (put less m xs)
unfolding put
put_bounded a m [] h k = (h, tt)
put_bounded a m (x ∷ xs) h k = elim (Bool-cases (less x m)) [
  | inl e ↦ rw e (k.0, put_bounded a m xs h k.1)
  | inr e ↦ rw e (h, k)
]

put-IsOrdered : (m : Text) (xs : List Text) → IsOrdered xs → IsOrdered (put less m xs)
unfolding put
put-IsOrdered m [] o = (tt, tt)
put-IsOrdered m (x ∷ xs) o = elim (Bool-cases (less x m)) [
  | inl e ↦ rw e (put_bounded (default_order x) m xs (ground arith) o.0, put-IsOrdered m xs o.1)
  | inr e ↦
      (let le : default_order m ≤ default_order x = ground arith in
        rw e ((le, bounded (default_order m) (default_order x) xs le o.0), o))
]

insertion_sort-IsOrdered : (xs : List Text) → IsOrdered (insertion_sort less xs)
unfolding insertion_sort
insertion_sort-IsOrdered [] = tt
insertion_sort-IsOrdered (x ∷ xs) =
    put-IsOrdered x (insertion_sort less xs) (insertion_sort-IsOrdered xs)

insertion_sort_laws : SortLaws insertion_sort
insertion_sort_laws = record {
  keeps = has_medium-insertion_sort;
  orders = insertion_sort-IsOrdered;
}

abbrev level : Text → CacheLevel
level medium = record { medium_type = medium; cache_paths = []; high = []; low = [] }

abbrev tiers : List CacheLevel
tiers = level (codes "SSD") ∷ level (codes "MEM") ∷ level (codes "SSD") ∷ []

get_tiered_level_order_example :
    (pos 0 ≤ℤ get_tiered_level insertion_sort tiers (codes "MEM"))
    × (get_tiered_level insertion_sort tiers (codes "MEM")
        <ℤ get_tiered_level insertion_sort tiers (codes "SSD"))
unfolding str_eq default_order
get_tiered_level_order_example =
    get_tiered_level_order insertion_sort insertion_sort_laws tiers (codes "MEM") (codes "SSD") refl
      refl (omega arith)

abbrev spec : LevelSpec
spec = record {
  medium_type = codes "MEM";
  path = codes "/dev/shm/a,/dev/shm/b,/dev/shm/c/";
  quota = some (negsuc 999);
  quota_list = [];
  high = codes "0.9";
  low = codes "0.8";
}

abbrev three_paths : List CachePath
three_paths =
    record { path = codes "/dev/shm/a"; quota = negsuc 332 }
    ∷ record { path = codes "/dev/shm/b"; quota = negsuc 332 }
    ∷ record { path = codes "/dev/shm/c"; quota = negsuc 332 }
    ∷ []

abbrev no_quantity : Text → Option ℤ
no_quantity s = none

-- A thousand bytes that are owed, among three paths
paths_of_level_shares_example :
    (map (λ (p : CachePath). p.path) three_paths ≡ map (trim_right b'/') (split b',' spec.path))
    × (share : ℤ) × All (λ (p : CachePath). p.quota ≡ share) three_paths
    × IsShare (length (split b',' spec.path)) (negsuc 999) share
unfolding paths_of_level equal_paths split trim_right truncated
paths_of_level_shares_example =
    paths_of_level_shares no_quantity spec (negsuc 999) three_paths refl refl refl
