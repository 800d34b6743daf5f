-- ===== src/Datatable/Admission/Eviction.antt =====
-- The eviction loop of reconcileDataTable (pkg/controllers/v1alpha1/datatable/datatable_controller.go)
-- against a description of the tables that it should choose.
use fluid_data_table.Base.{
  Bool, true, false, Option, none, some, List, [], ◌∷◌, ◌++◌, if◌then◌else◌, keep, any, All, ◌≡◌,
  refl, ◌⊎◌, inl, inr, arith, Bool-cases, Option-cases, sym, ◌∙◌,
}
use fluid_data_table.Base.Text.{Text, str_eq}
use fluid_data_table.Base.Int.{ℤ, ltb_ℤ, add64}
use fluid_data_table.Datatable.World.{Env, State}
use fluid_data_table.Datatable.Redis.{get_value, is_exist_in_alluxio, get_size}
use fluid_data_table.Datatable.Admission.{eviction_loop, tables_to_free}

-- The tables with a lower score: those before the table itself.
unfoldable pub before : Text → List Text → List Text
before own [] = []
before own (t ∷ ts) = let rest = before own ts in if str_eq t own then [] else t ∷ rest

abbrev pub occurs : Text → List Text → Bool
occurs own ts = any (λ t. str_eq t own) ts

-- The space that is free once the tables of a list are gone, in Go's arithmetic.
abbrev pub freed : (Text → ℤ) → ℤ → List Text → ℤ
freed size free [] = free
freed size free (v ∷ vs) = freed size (add64 free (size v)) vs

-- The shortest prefix of the candidates, of one table at least, that leaves enough space.
unfoldable pub shortest : (Text → ℤ) → ℤ → ℤ → List Text → Option (List Text)
shortest size need free [] = none
shortest size need free (c ∷ cs) =
    let rest = shortest size need (add64 free (size c)) cs in
    if ltb_ℤ (add64 free (size c)) need
    then (elim rest [ none ↦ none | some vs ↦ some (c ∷ vs) ])
    else some (c ∷ [])

-- The choice: that prefix; without one nothing if the table is in the set, else all candidates.
abbrev pub chosen_of : Option (List Text) → Bool → List Text → List Text → List Text
chosen_of (some vs) found candidates chosen = chosen ++ vs
chosen_of none true candidates chosen = []
chosen_of none false candidates chosen = chosen ++ candidates

append_nil : (xs : List Text) → xs ≡ xs ++ []
append_nil [] = refl
append_nil (x ∷ xs) = cc (append_nil xs)

append_one : (xs ys : List Text) (x : Text) → (xs ++ (x ∷ [])) ++ ys ≡ xs ++ (x ∷ ys)
append_one [] ys x = refl
append_one (y ∷ xs) ys x = cc (append_one xs ys x)

append_not_nil : (xs ys : List Text) (x : Text) → ¬ (xs ++ (x ∷ ys) ≡ [])
append_not_nil [] ys x e = ground arith
append_not_nil (y ∷ xs) ys x e = ground arith

chosen_of_next :
    (o : Option (List Text)) (found : Bool) (cs chosen : List Text) (c : Text)
    → chosen_of o found cs (chosen ++ (c ∷ []))
      ≡ chosen_of (elim o [ none ↦ none | some vs ↦ some (c ∷ vs) ]) found (c ∷ cs) chosen
chosen_of_next none true cs chosen c = refl
chosen_of_next none false cs chosen c = append_one chosen cs c
chosen_of_next (some vs) found cs chosen c = append_one chosen vs c

pub eviction_loop-eq :
    (own : Text) (cached : Text → Bool) (size : Text → ℤ) (need : ℤ) (ts : List Text) (free : ℤ)
    (chosen : List Text)
    → eviction_loop own cached size need ts free chosen
      ≡ chosen_of
          (shortest size need free (keep cached (before own ts)))
          (occurs own ts)
          (keep cached (before own ts))
          chosen
unfolding eviction_loop before shortest
eviction_loop-eq own cached size need [] free chosen = append_nil chosen
eviction_loop-eq own cached size need (t ∷ ts) free chosen = ground (
  arith,
  eviction_loop-eq own cached size need ts free chosen,
  eviction_loop-eq own cached size need ts (add64 free (size t)) (chosen ++ (t ∷ [])),
  chosen_of_next (shortest size need (add64 free (size t)) (keep cached (before own ts)))
      (occurs own ts) (keep cached (before own ts)) chosen t,
)

-- Every choice is one of the candidates, or nothing.
keep-All :
    (own : Text) (cached : Text → Bool) (ts : List Text)
    → All (λ t. (cached t ≡ true) × (str_eq t own ≡ false)) (keep cached (before own ts))
unfolding before
keep-All own cached [] = ground arith
keep-All own cached (t ∷ ts) = ground (arith, keep-All own cached ts)

shortest-All {κ} :
    (P : Text → Type κ) (size : Text → ℤ) (need free : ℤ) (cs vs : List Text)
    → shortest size need free cs ≡ some vs
    → All P cs
    → All P vs
unfolding shortest
shortest-All P size need free [] vs e h = ground arith
shortest-All P size need free (c ∷ cs) vs e h =
    elim (Option-cases (shortest size need (add64 free (size c)) cs)) [
      | inl n ↦ ground arith
      | inr (us, n) ↦
          (let ih : All P us = shortest-All P size need (add64 free (size c)) cs us n h.1 in
            ground arith)
    ]

chosen_of-All {κ} :
    (P : Text → Type κ) (size : Text → ℤ) (need free : ℤ) (cs : List Text) (found : Bool)
    → All P cs
    → All P (chosen_of (shortest size need free cs) found cs [])
chosen_of-All P size need free cs found h = elim (Option-cases (shortest size need free cs)) [
  | inl n ↦ (elim (Bool-cases found) [ inl t ↦ ground arith | inr f ↦ ground arith ])
  | inr (us, n) ↦ rw (n, chosen_of) (shortest-All P size need free cs us n h)
]

shortest-cons :
    (size : Text → ℤ) (need free : ℤ) (c v : Text) (cs us : List Text)
    → shortest size need free (c ∷ cs) ≡ some (v ∷ us)
    → (v ≡ c)
      × (((us ≡ []) × (ltb_ℤ (add64 free (size c)) need ≡ false))
          ⊎ ((shortest size need (add64 free (size c)) cs ≡ some us)
              × (ltb_ℤ (add64 free (size c)) need ≡ true)))
unfolding shortest
shortest-cons size need free c v cs us e =
    elim (Option-cases (shortest size need (add64 free (size c)) cs)) [
      | inl n ↦ ground arith
      | inr (xs, n) ↦ ground arith
    ]

shortest_minimal :
    (size : Text → ℤ) (need free : ℤ) (cs vs : List Text) (w u : Text) (us : List Text)
    → shortest size need free cs ≡ some (vs ++ (w ∷ u ∷ us))
    → ltb_ℤ (freed size free (vs ++ (w ∷ []))) need ≡ true
unfolding shortest
shortest_minimal size need free [] vs w u us e = ground arith
shortest_minimal size need free (c ∷ cs) [] w u us e =
    ground (arith, shortest-cons size need free c w cs (u ∷ us) e)
shortest_minimal size need free (c ∷ cs) (v ∷ vs) w u us e =
    let (p, q) = shortest-cons size need free c v cs (vs ++ (w ∷ u ∷ us)) e in
    elim q [
      | inl (n, _) ↦ absurd (append_not_nil vs (u ∷ us) w n)
      | inr (n, _) ↦ rw p (shortest_minimal size need (add64 free (size c)) cs vs w u us n)
    ]

choice_minimal :
    (size : Text → ℤ) (need free : ℤ) (cs : List Text) (found : Bool) (vs : List Text) (w u : Text)
    (us : List Text)
    → found ≡ true
    → (if ltb_ℤ need free then [] else chosen_of (shortest size need free cs) found cs [])
      ≡ vs ++ (w ∷ u ∷ us)
    → ltb_ℤ (freed size free (vs ++ (w ∷ []))) need ≡ true
choice_minimal size need free cs found vs w u us h e =
    elim (Option-cases (shortest size need free cs)) [
      | inl n ↦ ground (arith, append_not_nil vs (u ∷ us) w)
      | inr (xs, n) ↦
          ground (arith, append_not_nil vs (u ∷ us) w, shortest_minimal size need free cs vs w u us)
    ]

module _ (env : Env) (own : Text) (s : State) where
  abbrev cached : Text → Bool
  cached t = is_exist_in_alluxio env t s

  abbrev size : Text → ℤ
  size t = get_size env t s

  abbrev candidates : List Text
  candidates = keep cached (before own (get_value env s))

  -- The tables that are freed: none if there is more space than the table needs; else the shortest
  -- prefix of the cached tables with a lower score whose sizes make enough space, with none if no
  -- prefix does and the table is in the set.
  pub tables_to_free-eq :
      (need free : ℤ)
      → tables_to_free env own need free s ≡ (
          if ltb_ℤ need free
          then []
          else chosen_of
              (shortest size need free candidates)
              (occurs own (get_value env s))
              candidates
              [])
  unfolding tables_to_free
  tables_to_free-eq need free =
      rw (eviction_loop-eq own cached size need (get_value env s) free []) refl

  -- Whatever the sizes, each table that is freed is in the cache and is not the table itself.
  pub tables_to_free-All :
      (need free : ℤ)
      → All
          (λ t. (is_exist_in_alluxio env t s ≡ true) × (str_eq t own ≡ false))
          (tables_to_free env own need free s)
  tables_to_free-All need free =
      rw (tables_to_free-eq need free) (elim (Bool-cases (ltb_ℤ need free)) [
        | inl t ↦ ground arith
        | inr f ↦
            rw (f, if◌then◌else◌)
              (chosen_of-All (λ t. (cached t ≡ true) × (str_eq t own ≡ false)) size need free
                candidates (occurs own (get_value env s)) (keep-All own cached (get_value env s)))
      ])

  -- If the table is in the set, then no shorter prefix would have been enough: with any proper part,
  -- of one table at least, from the start of the tables that are freed, there is less space than the
  -- table needs.
  pub tables_to_free_minimal :
      (need free : ℤ) (vs : List Text) (w u : Text) (us : List Text)
      → occurs own (get_value env s) ≡ true
      → tables_to_free env own need free s ≡ vs ++ (w ∷ u ∷ us)
      → ltb_ℤ (freed size free (vs ++ (w ∷ []))) need ≡ true
  tables_to_free_minimal need free vs w u us h e =
      choice_minimal size need free candidates (occurs own (get_value env s)) vs w u us h
        (sym (tables_to_free-eq need free) ∙ e)
