-- ===== src/Runtime/Template.antt =====
-- pkg/ddc/base: the interface that an engine implements (implement.go), and the template that sets
-- one up (template_engine.go).
pub mod Stages
use fluid_data_table.Base.{Bool, true, false, Option, none, some, if◌then◌else◌, ◌≡◌, refl, arith}
use fluid_data_table.Base.Result.{Error}
use fluid_data_table.Runtime.Types.{Checked, Step, Check}

-- Implement of pkg/ddc/base/engine.go, over the state of the cluster.
pub record Implement (S : Type 0) : Type 0 where
  pub should_setup_master : Check S
  pub setup_master : Step S
  pub check_master_ready : Check S
  pub should_setup_workers : Check S
  pub setup_workers : Step S
  pub check_workers_ready : Check S
  pub check_and_update_runtime_status : Check S

abbrev pub answer : Bool → Option Error → Checked
answer ready error = record { ready = ready; error = error }

module _ {S : Type 0} where
  -- Go on after a step that has no error; an error ends with `false`.
  abbrev pub after : Option Error × S → Check S → Checked × S
  after (some e, s) next = (answer false (some e), s)
  after (none, s) next = next s

  -- Go on with the flag of a check that has no error; an error ends with `false`.
  abbrev pub with_flag : Checked × S → (Bool → Check S) → Checked × S
  with_flag (c, s) next = elim c.error [
    | some e ↦ (answer false (some e), s)
    | none ↦ next c.ready s
  ]

  -- Go on after a check that is passed; otherwise its answer is the result.
  abbrev pub if_ready : Checked × S → Check S → Checked × S
  if_ready (c, s) next = elim c.error [
    | some e ↦ (c, s)
    | none ↦ if c.ready then next s else (c, s)
  ]

  abbrev pub step_if : Bool → Step S → Step S
  step_if true step s = step s
  step_if false step s = (none, s)

  module _ (b : Implement S) where
    -- 4 and 5: the workers and the status have to be ready.
    unfoldable pub finish : Check S
    finish s =
        if_ready (b.check_workers_ready s)
          λ s1. if_ready (b.check_and_update_runtime_status s1) λ s2. (answer true none, s2)

    -- 3: set up the workers if that is due.
    unfoldable pub setup_workers_first : Check S
    setup_workers_first s =
        with_flag (b.should_setup_workers s)
          λ should. λ s1. after (step_if should b.setup_workers s1) finish

    -- 2: the master has to be ready.
    unfoldable pub master_first : Check S
    master_first s =
        with_flag (b.check_master_ready s)
          λ ready. λ s1. if ready then setup_workers_first s1 else (answer false none, s1)

    -- Setup
    unfoldable pub setup : Check S
    setup s =
        with_flag (b.should_setup_master s)
          λ should. λ s1. after (step_if should b.setup_master s1) master_first
