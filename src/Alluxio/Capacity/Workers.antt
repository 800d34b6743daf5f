-- ===== src/Alluxio/Capacity/Workers.antt =====
-- The loop of GetWorkerUsedCapacity in pkg/ddc/alluxio/utils.go, and the same with the
-- lines taken two at a time.
use fluid_data_table.Base.{
  ℕ, zero, suc, ◌+◌, ◌≤◌, ◌<◌, true, ltb, Option, none, some, List, [], ◌∷◌, ◌++◌, ◌≡◌, refl, sym,
  ap, ◌∙◌, arith, length, Bool-cases, inl, inr, ltb→lt,
}
use fluid_data_table.Base.Text.{Text}
use fluid_data_table.Base.Dict.{Dict, insert}
use fluid_data_table.Base.Int.{ℤ}
use fluid_data_table.Base.Strconv.{fields}
use fluid_data_table.Datatable.World.{Outcome, returned, panicked}
use fluid_data_table.Alluxio.Capacity.{entry_of, worker_at, capacity_loop}

-- The lines from an index on.
abbrev pub drop : ℕ → List Text → List Text
drop zero lines = lines
drop (suc n) [] = []
drop (suc n) (line ∷ lines) = drop n lines

module _ (from_human_size : Text → ℤ) where
  -- The workers of a list of lines, two at a time; an odd last line panics.
  unfoldable pub workers_of : List Text → Dict ℤ → Outcome (Dict ℤ)
  workers_of [] m = returned m
  workers_of (first ∷ []) m = panicked
  workers_of (first ∷ second ∷ lines) m = elim (entry_of (fields first ++ fields second)) [
    | none ↦ panicked
    | some (name, used) ↦ workers_of lines (insert name (from_human_size used) m)
  ]

  abbrev next_round : {A : Type 0} → A → (Text → Text → A) → Option (Text × Text) → A
  next_round panic go none = panic
  next_round panic go (some (name, used)) = go name used

  worker_step :
      (lines : List Text) (i : ℕ) (m : Dict ℤ)
      → i < length lines
      → workers_of (drop i lines) m
        ≡ next_round panicked
            (λ name used.
              workers_of (drop (suc (suc i)) lines) (insert name (from_human_size used) m))
            (worker_at lines i)
  unfolding workers_of worker_at
  worker_step [] i m h = ground arith
  worker_step (a ∷ []) zero m h = refl
  worker_step (a ∷ b ∷ lines) zero m h = refl
  worker_step (a ∷ lines) (suc i) m h = worker_step lines i m (omega (arith, h))

  drop_all : (lines : List Text) (i : ℕ) → length lines ≤ i → drop i lines ≡ []
  drop_all [] zero h = refl
  drop_all (line ∷ lines) zero h = ground arith
  drop_all [] (suc i) h = refl
  drop_all (line ∷ lines) (suc i) h = drop_all lines i (omega (arith, h))

  ended :
      (fuel : ℕ) (lines : List Text) (i : ℕ) (m : Dict ℤ)
      → length lines ≤ i
      → capacity_loop from_human_size (suc fuel) lines i m ≡ some (workers_of (drop i lines) m)
  unfolding capacity_loop workers_of
  ended fuel lines i m h = ground (arith, drop_all lines i h)

  one_round :
      (fuel : ℕ) (lines : List Text) (i : ℕ) (m : Dict ℤ)
      → ltb i (length lines) ≡ true
      → capacity_loop from_human_size (suc fuel) lines i m
        ≡ next_round
            (some panicked)
            (λ name used.
              capacity_loop from_human_size fuel lines
                (suc (suc i))
                (insert name (from_human_size used) m))
            (worker_at lines i)
  unfolding capacity_loop
  one_round fuel lines i m h = ground arith

  rounds :
      (fuel : ℕ) (lines : List Text) (i : ℕ) (m : Dict ℤ) (o : Option (Text × Text))
      → ((name used : Text)
          → capacity_loop from_human_size
              (suc fuel)
              lines
              (suc (suc i))
              (insert name (from_human_size used) m)
            ≡ some (workers_of (drop (suc (suc i)) lines) (insert name (from_human_size used) m)))
      → next_round
          (some panicked)
          (λ name used.
            capacity_loop from_human_size
              (suc fuel)
              lines
              (suc (suc i))
              (insert name (from_human_size used) m))
          o
        ≡ some (
            next_round panicked
              (λ name used.
                workers_of (drop (suc (suc i)) lines) (insert name (from_human_size used) m))
              o)
  rounds fuel lines i m none h = refl
  rounds fuel lines i m (some (name, used)) h = h name used

  -- With fuel for every line, the loop over the indices ends, and its result is that of reading the
  -- lines from the index on two at a time, with a panic for an odd line at the end.
  pub capacity_loop_ends :
      (fuel : ℕ) (lines : List Text) (i : ℕ) (m : Dict ℤ)
      → length lines ≤ fuel + i
      → capacity_loop from_human_size (suc fuel) lines i m ≡ some (workers_of (drop i lines) m)
  capacity_loop_ends zero lines i m h = ended zero lines i m (omega (arith, h))
  capacity_loop_ends (suc fuel) lines i m h = elim (Bool-cases (ltb i (length lines))) [
    | inl in_range ↦
        one_round (suc fuel) lines i m in_range
        ∙ (rounds fuel lines i m (worker_at lines i) (λ name used.
              capacity_loop_ends fuel lines (suc (suc i)) (insert name (from_human_size used) m)
                (omega (arith, h)))
            ∙ sym (ap some (worker_step lines i m (ltb→lt i (length lines) in_range))))
    | inr past ↦ ended (suc fuel) lines i m (ground arith)
  ]
