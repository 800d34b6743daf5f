-- ===== src/Schedule/Tiers/Order.antt =====
-- The order of the media: makeMediumTypeSorted and GetTieredLevel of
-- pkg/utils/tieredstore/tiered_store.go.
use fluid_data_table.Base.{
  ℕ, suc, ◌≤◌, ◌<◌, Bool, true, false, ◌||◌, none, some, List, [], ◌∷◌, ◌≡◌, refl, ◌∙◌, arith, All,
  Bool-cases, Option-cases, inl, inr,
}
use fluid_data_table.Base.Text.{Text, str_eq, str_eq_iff}
use fluid_data_table.Base.Int.{pos, negsuc, ◌<ℤ◌, ◌≤ℤ◌}
use fluid_data_table.Schedule.Tiers.{
  CacheLevel, default_order, has_medium, unrepeated, index_of, less, make_medium_type_sorted,
  media_of, get_tiered_level,
}

-- The media of a list are in their default order.
abbrev pub IsOrdered : List Text → Type 0
IsOrdered [] = Unit
IsOrdered (m ∷ media) =
    All (λ (x : Text). default_order m ≤ default_order x) media × IsOrdered media

-- What sort.Sort promises: the same media, in order.
pub record SortLaws (sort : (Text → Text → Bool) → List Text → List Text) : Type 0 where
  pub keeps :
      (media : List Text) (medium : Text)
      → has_medium medium (sort less media) ≡ has_medium medium media
  pub orders : (media : List Text) → IsOrdered (sort less media)

has_medium-unrepeated :
    (medium : Text) (known media : List Text)
    → (has_medium medium (unrepeated known media) || has_medium medium known)
      ≡ (has_medium medium media || has_medium medium known)
unfolding unrepeated
has_medium-unrepeated medium known [] = refl
has_medium-unrepeated medium known (m ∷ media) = ground (
  arith,
  has_medium-unrepeated medium known media,
  has_medium-unrepeated medium (m ∷ known) media,
  str_eq_iff m medium,
)

index_of_absent :
    (medium : Text) (media : List Text)
    → has_medium medium media ≡ false
    → index_of medium media ≡ none
unfolding index_of
index_of_absent medium [] h = refl
index_of_absent medium (m ∷ media) h = ground (arith, index_of_absent medium media)

index_of_present :
    (medium : Text) (media : List Text)
    → has_medium medium media ≡ true
    → (i : ℕ) × (index_of medium media ≡ some i)
unfolding index_of
index_of_present medium [] h = cc
index_of_present medium (m ∷ media) h = elim (Bool-cases (str_eq m medium)) [
  | inl e ↦ (0, ground arith)
  | inr e ↦ (let (i, p) = index_of_present medium media (ground arith) in (suc i, ground arith))
]

least :
    (bound : ℕ) (medium : Text) (media : List Text)
    → All (λ (x : Text). bound ≤ default_order x) media
    → has_medium medium media ≡ true
    → bound ≤ default_order medium
least bound medium [] h k = cc
least bound medium (m ∷ media) h k =
    ground (arith, least bound medium media h.1, str_eq_iff m medium)

has_medium_of_index :
    (medium : Text) (media : List Text) (i : ℕ)
    → index_of medium media ≡ some i
    → has_medium medium media ≡ true
has_medium_of_index medium media i p = elim (Bool-cases (has_medium medium media)) [
  | inl e ↦ e
  | inr e ↦ (let n = index_of_absent medium media e in cc)
]

index_of_order :
    (a b : Text) (media : List Text) (i j : ℕ)
    → IsOrdered media
    → default_order a < default_order b
    → index_of a media ≡ some i
    → index_of b media ≡ some j
    → i < j
unfolding index_of
index_of_order a b [] i j o l p q = cc
index_of_order a b (m ∷ media) i j o l p q = elim (Option-cases (index_of a media)) [
  | inl absent ↦ ground (arith, str_eq_iff m a, str_eq_iff m b)
  | inr (i', p') ↦
      (let first = least (default_order m) a media o.0 (has_medium_of_index a media i' p') in
        elim (Option-cases (index_of b media)) [
          | inl absent ↦ ground (arith, str_eq_iff m a, str_eq_iff m b)
          | inr (j', q') ↦
              ground
                (arith, index_of_order a b media i' j' o.1 l p' q', str_eq_iff m a, str_eq_iff m b)
        ])
]

module _ (sort : (Text → Text → Bool) → List Text → List Text) (laws : SortLaws sort) where
  has_medium_sorted :
      (media : List Text) (medium : Text)
      → has_medium medium (make_medium_type_sorted sort media) ≡ has_medium medium media
  unfolding make_medium_type_sorted
  has_medium_sorted media medium =
      ground (arith, laws.keeps (unrepeated [] media) medium, has_medium-unrepeated medium [] media)

  -- The level of a medium that no tier has is -1.
  pub get_tiered_level_absent :
      (levels : List CacheLevel) (medium : Text)
      → has_medium medium (media_of levels) ≡ false
      → get_tiered_level sort levels medium ≡ negsuc 0
  unfolding get_tiered_level
  get_tiered_level_absent levels medium h = ground (
    arith,
    index_of_absent medium (make_medium_type_sorted sort (media_of levels)),
    has_medium_sorted (media_of levels) medium,
  )

  -- If sort.Sort keeps the media and puts them in order, then the levels of the media that the tiers
  -- have follow the default order: a faster medium has a lower level, and none of them is negative.
  pub get_tiered_level_order :
      (levels : List CacheLevel) (a b : Text)
      → has_medium a (media_of levels) ≡ true
      → has_medium b (media_of levels) ≡ true
      → default_order a < default_order b
      → (pos 0 ≤ℤ get_tiered_level sort levels a)
        × (get_tiered_level sort levels a <ℤ get_tiered_level sort levels b)
  unfolding get_tiered_level make_medium_type_sorted
  get_tiered_level_order levels a b h k l =
      let sorted = make_medium_type_sorted sort (media_of levels) in
      let (i, p) = index_of_present a sorted (has_medium_sorted (media_of levels) a ∙ h) in
      let (j, q) = index_of_present b sorted (has_medium_sorted (media_of levels) b ∙ k) in
      let lower : i < j =
        index_of_order a b sorted i j (laws.orders (unrepeated [] (media_of levels))) l p q in
      ground arith
