-- ===== src/Runtime/Template/Stages.antt =====
-- The order of the stages of TemplateEngine.Setup (pkg/ddc/base/template_engine.go).
use fluid_data_table.Base.{
  Bool, true, false, Option, none, some, if◌then◌else◌, ◌≡◌, refl, arith, ◌∙◌,
}
use fluid_data_table.Base.Result.{Error}
use fluid_data_table.Runtime.Types.{Checked, Check}
use fluid_data_table.Runtime.Template.{
  Implement, answer, after, with_flag, if_ready, step_if, finish, setup_workers_first, master_first,
  setup,
}

module _ {S : Type 0} where
  -- A result that is ready, and how each kind of stage comes to one.
  abbrev IsReady : Checked × S → S → Type 0
  IsReady o s = o ≡ (answer true none, s)

  if_ready_inverse :
      (o : Checked × S) (next : Check S) (s' : S)
      → IsReady (if_ready o next) s'
      → IsReady o o.1 × IsReady (next o.1) s'
  if_ready_inverse o next s' h = go o.0.ready o.0.error o.1 h
    where
      go :
          (ready : Bool) (error : Option Error) (s1 : S)
          → IsReady (if_ready (answer ready error, s1) next) s'
          → IsReady (answer ready error, s1) s1 × IsReady (next s1) s'
      go true none s1 h = (refl, h)
      go false none s1 h = ground arith
      go ready (some e) s1 h = ground arith

  with_flag_inverse :
      (o : Checked × S) (next : Bool → Check S) (s' : S)
      → IsReady (with_flag o next) s'
      → (o.0.error ≡ none) × IsReady (next o.0.ready o.1) s'
  with_flag_inverse o next s' h = go o.0.ready o.0.error o.1 h
    where
      go :
          (flag : Bool) (error : Option Error) (s1 : S)
          → IsReady (with_flag (answer flag error, s1) next) s'
          → (error ≡ none) × IsReady (next flag s1) s'
      go flag none s1 h = (refl, h)
      go flag (some e) s1 h = ground arith

  after_inverse :
      (o : Option Error × S) (next : Check S) (s' : S)
      → IsReady (after o next) s'
      → IsReady (next o.1) s'
  after_inverse (none, s1) next s' h = h
  after_inverse (some e, s1) next s' h = ground arith

  flag_true :
      (o : Checked × S) (next : Check S) (s' : S)
      → o.0.error ≡ none
      → IsReady (if o.0.ready then next o.1 else (answer false none, o.1)) s'
      → IsReady o o.1 × IsReady (next o.1) s'
  flag_true o next s' e h = go o.0.ready o.0.error o.1 e h
    where
      go :
          (flag : Bool) (error : Option Error) (s1 : S)
          → error ≡ none
          → IsReady (if flag then next s1 else (answer false none, s1)) s'
          → IsReady (answer flag error, s1) s1 × IsReady (next s1) s'
      go true error s1 e h = (rw e refl, h)
      go false error s1 e h = ground arith

module _ {S : Type 0} (b : Implement S) where
  -- The engine is reported ready only if, in this order, the master was found ready, the workers
  -- were found ready and the status of the runtime was found ready, each without an error.
  pub setup_ready :
      (s s' : S)
      → setup b s ≡ (answer true none, s')
      → (s1 s2 s3 s4 : S) × (b.check_master_ready s1 ≡ (answer true none, s2))
        × (b.check_workers_ready s3 ≡ (answer true none, s4))
        × (b.check_and_update_runtime_status s4 ≡ (answer true none, s'))
  unfolding setup master_first setup_workers_first finish
  setup_ready s s' h =
      let m = b.should_setup_master s in
      let made = step_if m.0.ready b.setup_master m.1 in
      let c = b.check_master_ready made.1 in
      let w = b.should_setup_workers c.1 in
      let built = step_if w.0.ready b.setup_workers w.1 in
      let up = b.check_workers_ready built.1 in
      let done = b.check_and_update_runtime_status up.1 in
      let h1 =
        with_flag_inverse m
          (λ should. λ s1. after (step_if should b.setup_master s1) (master_first b)) s' h in
      let h2 = after_inverse made (master_first b) s' h1.1 in
      let h3 =
        with_flag_inverse c
          (λ ready. λ s1. if ready then setup_workers_first b s1 else (answer false none, s1)) s'
          h2 in
      let h4 = flag_true c (setup_workers_first b) s' h3.0 h3.1 in
      let h5 =
        with_flag_inverse w (λ should. λ s1. after (step_if should b.setup_workers s1) (finish b))
          s' h4.1 in
      let h6 = after_inverse built (finish b) s' h5.1 in
      let h7 =
        if_ready_inverse up
          (λ s1. if_ready (b.check_and_update_runtime_status s1) λ s2. (answer true none, s2)) s'
          h6 in
      let h8 = if_ready_inverse done (λ s2. (answer true none, s2)) s' h7.1 in
      (made.1, c.1, built.1, up.1, h4.0, h7.0, h8.0 ∙ h8.1)

  -- While the master is not ready the workers are left alone: the set-up ends with the check of the
  -- master, with `false`, in the state that the check leaves.
  pub setup_waits_for_master :
      (s s1 s2 s3 : S) (due : Checked)
      → b.should_setup_master s ≡ (due, s1)
      → due.error ≡ none
      → step_if due.ready b.setup_master s1 ≡ (none, s2)
      → b.check_master_ready s2 ≡ (answer false none, s3)
      → setup b s ≡ (answer false none, s3)
  unfolding setup master_first
  setup_waits_for_master s s1 s2 s3 due h1 h2 h3 h4 = ground arith
