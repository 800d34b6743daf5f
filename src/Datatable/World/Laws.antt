-- ===== src/Datatable/World/Laws.antt =====
-- The sequencing of the programs of the table controller: what a sequence that returns has done.
use fluid_data_table.Base.{◌≡◌, refl, arith, ◌⊎◌, inl, inr}
use fluid_data_table.Base.Result.{Error}
use fluid_data_table.Datatable.World.{
  State, Outcome, returned, failed, panicked, Prog, pure, attempt, attempt_outcome, continue, ◌>>=◌,
  ◌>>◌,
}

pub outcome-cases {ℓ} :
    {A : Type ℓ} (o : Outcome A × State)
    → ((a : A) × (s : State) × (o ≡ (returned a, s)))
      ⊎ (((e : Error) × (s : State) × (o ≡ (failed e, s))) ⊎ ((s : State) × (o ≡ (panicked, s))))
outcome-cases (returned a, s) = inl (a, s, refl)
outcome-cases (failed e, s) = inr (inl (e, s, refl))
outcome-cases (panicked, s) = inr (inr (s, refl))

continue_returned {ℓ κ} :
    {A : Type ℓ} {B : Type κ} (o : Outcome A) (f : A → Prog B) (b : B) (s1 s' : State)
    → continue o f s1 ≡ (returned b, s')
    → (a : A) × (o ≡ returned a) × (f a s1 ≡ (returned b, s'))
continue_returned (returned a) f b s1 s' h = (a, refl, h)
continue_returned (failed e) f b s1 s' h = ground arith
continue_returned panicked f b s1 s' h = ground arith

-- A sequence returns only if both of its parts do.
pub bind_returned {ℓ κ} :
    {A : Type ℓ} {B : Type κ} (m : Prog A) (f : A → Prog B) (b : B) (s s' : State)
    → (m >>= f) s ≡ (returned b, s')
    → (a : A) × (s1 : State) × (m s ≡ (returned a, s1)) × (f a s1 ≡ (returned b, s'))
unfolding ◌>>=◌
bind_returned m f b s s' h =
    let (a, e, k) = continue_returned ((m s).0) f b ((m s).1) s' h in (a, (m s).1, cc e, k)

-- A program whose error is dropped, and that does not panic, goes on.
pub attempt_returned {ℓ} :
    {A : Type ℓ} (m : Prog A) (s : State)
    → ¬ ((m s).0 ≡ panicked)
    → (attempt m >> pure (tt {0})) s ≡ (returned tt, (m s).1)
unfolding ◌>>=◌
attempt_returned m s h = elim (outcome-cases (m s)) [
  | inl (a, s1, e) ↦ rw (e, attempt_outcome) refl
  | inr (inl (a, s1, e)) ↦ rw (e, attempt_outcome) refl
  | inr (inr (s1, e)) ↦ absurd (h (cc e))
]
