-- ===== src/Schedule/Sort/Search.antt =====
-- The binary search finds the end of the nodes that have at least as many mounting pods.
use fluid_data_table.Base.{
  ℕ, zero, suc, ◌+◌, ◌-◌, ◌/◌, ◌≤◌, ◌<◌, ◌≡◌, refl, true, false, some, List, [], ◌∷◌, arith, ltb,
  length, get_elem?, Bool-cases, inl, inr, All,
}
use fluid_data_table.Base.Dict.{Dict}
use fluid_data_table.Schedule.Node.{Node}
use fluid_data_table.Schedule.Sort.{mounts, search_loop}

module _ (m : Dict ℕ) where
  -- The number of mounting pods of a node.
  abbrev pub load : Node → ℕ
  load node = mounts m node.name

  -- Each node has at least as many mounting pods as the nodes after it.
  abbrev pub Descending : List Node → Type 0
  Descending [] = Unit
  Descending (x ∷ xs) = All (λ y. load y ≤ load x) xs × Descending xs

  -- The number of leading nodes with at least `num` mounting pods.
  abbrev pub position : ℕ → List Node → ℕ
  position num [] = 0
  position num (x ∷ xs) =
      let rest = position num xs in elim (ltb (load x) num) [ true ↦ 0 | false ↦ suc rest ]

  pub position-le-length : (num : ℕ) (xs : List Node) → position num xs ≤ length xs
  position-le-length num [] = omega arith
  position-le-length num (x ∷ xs) = ground (arith, position-le-length num xs)

  position_of_small : (num : ℕ) (xs : List Node) → All (λ y. load y < num) xs → position num xs ≡ 0
  position_of_small num [] h = refl
  position_of_small num (x ∷ xs) h = ground arith

  small_after :
      (num k : ℕ) (xs : List Node) → k < num → All (λ y. load y ≤ k) xs → All (λ y. load y < num) xs
  small_after num k [] h a = tt
  small_after num k (x ∷ xs) h a = (omega arith, small_after num k xs h a.1)

  load_of_get :
      (k i : ℕ) (xs : List Node) (node : Node)
      → All (λ y. load y ≤ k) xs
      → get_elem? xs i ≡ some node
      → load node ≤ k
  load_of_get k i [] node a e = cc
  load_of_get k zero (x ∷ xs) node a e = ground arith
  load_of_get k (suc i) (x ∷ xs) node a e = load_of_get k i xs node a.1 e

  -- In a descending list an index is below the position exactly when its node has enough pods.
  get-lt-position :
      (num i : ℕ) (xs : List Node) (node : Node)
      → Descending xs
      → get_elem? xs i ≡ some node
      → ltb (load node) num ≡ false
      → i < position num xs
  get-lt-position num i [] node d g e = cc
  get-lt-position num zero (x ∷ xs) node d g e = ground arith
  get-lt-position num (suc i) (x ∷ xs) node d g e =
      ground (arith, load_of_get (load x) i xs node d.0 g, get-lt-position num i xs node d.1 g)

  position-le-get :
      (num i : ℕ) (xs : List Node) (node : Node)
      → get_elem? xs i ≡ some node
      → ltb (load node) num ≡ true
      → position num xs ≤ i
  position-le-get num i [] node g e = cc
  position-le-get num zero (x ∷ xs) node g e = ground arith
  position-le-get num (suc i) (x ∷ xs) node g e = ground (arith, position-le-get num i xs node g)

  get_elem?_in_range :
      (i : ℕ) (xs : List Node) → i < length xs → (node : Node) × (get_elem? xs i ≡ some node)
  get_elem?_in_range i [] h = absurd (omega arith)
  get_elem?_in_range zero (x ∷ xs) h = (x, refl)
  get_elem?_in_range (suc i) (x ∷ xs) h = get_elem?_in_range i xs (omega arith)

  -- The search ends, with no index out of range, at the first node that has too few pods.
  pub search_loop-eq-position :
      (fuel num : ℕ) (xs : List Node) (low bound : ℕ)
      → Descending xs
      → low ≤ position num xs
      → position num xs ≤ bound
      → bound ≤ length xs
      → bound - low < fuel
      → search_loop m fuel num xs low bound ≡ some (position num xs)
  unfolding search_loop
  search_loop-eq-position zero num xs low bound d h1 h2 h3 h4 = absurd (omega arith)
  search_loop-eq-position (suc fuel) num xs low bound d h1 h2 h3 h4 =
      elim (Bool-cases (ltb low bound)) [
        | inr stop ↦ ground arith
        | inl more ↦
            let middle : ℕ = (low + bound - 1) / 2 in
            let below : middle < bound = ground arith in
            let above : low ≤ middle = ground arith in
            let (node, g) = get_elem?_in_range middle xs (omega arith) in
            rw (more, g)
              (elim (Bool-cases (ltb (load node) num)) [
                | inl e ↦ rw e (
                    search_loop-eq-position fuel num xs low middle d h1
                      (position-le-get num middle xs node g e) (omega arith) (omega arith))
                | inr e ↦ rw e (
                    search_loop-eq-position fuel num xs (middle + 1) bound d
                      (omega (arith, get-lt-position num middle xs node d g e)) h2 h3 (omega arith))
              ])
      ]
