-- ===== src/Schedule/Tiers/Shares.antt =====
-- How convertToTieredstoreInfo of pkg/ddc/base/runtime.go divides the quota of a level among its
-- paths.
use native.Mathlib.Nat.{div-add-mod', mod-lt}
use fluid_data_table.Base.{
  ℕ, zero, suc, ◌+◌, ◌*◌, ◌/◌, ◌≤◌, ◌<◌, true, Option, some, List, [], ◌∷◌, ◌≡◌, refl, ap, arith,
  length, is_empty, All, map,
}
use fluid_data_table.Base.Text.{Text, split, trim_right}
use fluid_data_table.Base.Int.{ℤ, pos, negsuc, pos_part, neg_part, negated, truncated}
use fluid_data_table.Base.Result.{ok}
use fluid_data_table.Schedule.Tiers.{LevelSpec, CachePath, equal_paths, paths_of_level}

-- A share of a number for each of n parts: of the same sign, n of them are not more than the number,
-- and what is missing is less than n.
abbrev pub IsShare : ℕ → ℤ → ℤ → Type 0
IsShare n quota share =
    (n * pos_part share ≤ pos_part quota)
    × (pos_part quota < n * pos_part share + n)
    × (n * neg_part share ≤ neg_part quota)
    × (neg_part quota < n * neg_part share + n)

neg_part-negated : (n : ℕ) → (neg_part (negated n) ≡ n) × (pos_part (negated n) ≡ 0)
neg_part-negated zero = (refl, refl)
neg_part-negated (suc n) = (omega arith, refl)

divided : (n d : ℕ) → 0 < d → (d * (n / d) ≤ n) × (n < d * (n / d) + d)
divided n d h =
    let e = div-add-mod' n d in
    let l = mod-lt n {m = d} h in (omega (arith, e, l), omega (arith, e, l))

truncated-IsShare : (quota : ℤ) (n : ℕ) → 0 < n → IsShare n quota (truncated quota n)
unfolding truncated
truncated-IsShare (pos m) n h = let d = divided m n h in (d.0, d.1, omega arith, omega (arith, h))
truncated-IsShare (negsuc m) n h =
    let d = divided (m + 1) n h in
    let e = neg_part-negated ((m + 1) / n) in
    (rw e.1 (omega arith), rw e.1 (omega (arith, h)), rw e.0 d.0, rw e.0 d.1)

equal_paths-All :
    (share : ℤ) (paths : List Text) → All (λ p. p.quota ≡ share) (equal_paths share paths)
unfolding equal_paths
equal_paths-All share [] = tt
equal_paths-All share (path ∷ paths) = (refl, equal_paths-All share paths)

equal_paths-texts :
    (share : ℤ) (paths : List Text)
    → map (λ (p : CachePath). p.path) (equal_paths share paths) ≡ map (trim_right b'/') paths
unfolding equal_paths
equal_paths-texts share [] = refl
equal_paths-texts share (path ∷ paths) =
    ap (λ ps. trim_right b'/' path ∷ ps) (equal_paths-texts share paths)

split_nonempty : (c : ℕ) (s : Text) → 0 < length (split c s)
unfolding split
split_nonempty c [] = omega arith
split_nonempty c (x ∷ s) = ground (arith, split_nonempty c s)

-- Where a level has a quota and no list of quotas, its paths are those of the text, without slashes
-- at the end, and each of them gets the same share of the quota, which may be negative: the n shares
-- of n paths together have the sign of the quota, are not larger than it in size, and fall short of
-- it by less than n bytes.
pub paths_of_level_shares :
    (parse_quantity : Text → Option ℤ) (level : LevelSpec) (quota : ℤ) (paths : List CachePath)
    → is_empty level.quota_list ≡ true
    → level.quota ≡ some quota
    → paths_of_level parse_quantity level ≡ ok paths
    → (map (λ (p : CachePath). p.path) paths ≡ map (trim_right b'/') (split b',' level.path))
      × (share : ℤ) × All (λ (p : CachePath). p.quota ≡ share) paths
      × IsShare (length (split b',' level.path)) quota share
unfolding paths_of_level
paths_of_level_shares parse_quantity level quota paths h1 h2 h3 =
    let texts = split b',' level.path in
    let share = truncated quota (length texts) in
    let e : paths ≡ equal_paths share texts = ground arith in
    (
      rw e (equal_paths-texts share texts),
      share,
      rw e (equal_paths-All share texts),
      truncated-IsShare quota (length texts) (split_nonempty b',' level.path),
    )
