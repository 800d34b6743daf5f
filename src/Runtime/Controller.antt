-- ===== src/Runtime/Controller.antt =====
-- pkg/controllers/runtime_controller.go: one reconciliation of a runtime.
pub mod Finalizers
pub mod Pool
use fluid_data_table.Base.{
  ℕ, Bool, true, false, not, ◌&&◌, ◌||◌, Option, none, some, List, [], ◌∷◌, ◌++◌, if◌then◌else◌,
}
use fluid_data_table.Base.Text.{Text, codes}
use fluid_data_table.Base.Result.{Error, Result, ok, err, message}
use fluid_data_table.Datatable.Reconcile.{
  Requeue, no_requeue, requeue_after_interval, requeue_immediately_unless_generation_changed,
  contains_string, remove_string,
}
use fluid_data_table.Runtime.Types.{
  Phase, phase_none, phase_not_ready, phase_partial_ready, phase_ready, Checked, Step, Check,
}

-- What the controller reads of the metadata of a runtime.
pub record Meta : Type 0 where
  pub finalizers : List Text
  pub deleting : Bool
  pub generation : ℕ

-- RuntimeReconcilerInterface, the engine and the API server, over a state.
pub record ControllerApi (S : Type 0) : Type 0 where
  pub get_or_create_engine : S → Option Error × S
  pub get_runtime_object_meta : S → Result Meta × S
  pub remove_engine : S → S
  pub setup : Check S
  pub shutdown : Step S
  pub get_phases : S → Result (Phase × Phase) × S
  pub update_finalizers : List Text → Step S
  pub current_generation : S → ℕ

module _ {S : Type 0} (api : ControllerApi S) (finalizer_name : Text) where
  abbrev pub is_ready_phase : Phase → Bool
  is_ready_phase phase_ready = true
  is_ready_phase _ = false

  abbrev pub is_partial_phase : Phase → Bool
  is_partial_phase phase_partial_ready = true
  is_partial_phase _ = false

  -- A runtime that is not read has no phases.
  abbrev pub phases_of : Result (Phase × Phase) → Phase × Phase
  phases_of (ok p) = p
  phases_of (err e) = (phase_none, phase_none)

  abbrev pub is_setup : Phase × Phase → Bool
  is_setup (master, worker) =
      is_ready_phase master && (is_ready_phase worker || is_partial_phase worker)

  -- ReconcileRuntime: whatever the set-up comes to, it is tried again after 20 seconds.
  unfoldable pub reconcile_runtime : S → Result Requeue × S
  reconcile_runtime s =
      let (p, s1) = api.get_phases s in
      if not (is_setup (phases_of p))
      then (let (_, s2) = api.setup s1 in (ok (requeue_after_interval 20), s2))
      else (ok (requeue_after_interval 20), s1)

  abbrev pub with_meta : (Meta → S → Result Requeue × S) → S → Result Requeue × S
  with_meta next s =
      let (m, s1) = api.get_runtime_object_meta s in
      elim m [ err e ↦ (err e, s1) | ok meta ↦ next meta s1 ]

  abbrev pub updated_as : Requeue → Option Error × S → Result Requeue × S
  updated_as r (none, s) = (ok r, s)
  updated_as r (some e, s) = (err e, s)

  -- ReconcileRuntimeDeletion: a shutdown that fails is tried again after 20 seconds.
  unfoldable pub reconcile_runtime_deletion : S → Result Requeue × S
  reconcile_runtime_deletion s =
      let (e, s1) = api.shutdown s in
      elim e [
        | some x ↦ (ok (requeue_after_interval 20), s1)
        | none ↦
            with_meta
              (λ (meta : Meta). λ s2.
                if meta.deleting
                then updated_as no_requeue
                    (api.update_finalizers (remove_string meta.finalizers finalizer_name) s2)
                else (ok no_requeue, s2))
              s1
      ]

  abbrev pub added_as : ℕ → Option Error × S → Result Requeue × S
  added_as previous (none, s) =
      (ok (requeue_immediately_unless_generation_changed previous (api.current_generation s)), s)
  added_as previous (some e, s) = (err e, s)

  -- AddFinalizerAndRequeue of the runtime controller
  unfoldable pub add_runtime_finalizer : S → Result Requeue × S
  add_runtime_finalizer = with_meta λ (meta : Meta). λ s.
      added_as meta.generation (api.update_finalizers (meta.finalizers ++ (finalizer_name ∷ [])) s)

  -- After a deletion that fails the engine is dropped.
  abbrev pub drop_engine : Result Requeue × S → Result Requeue × S
  drop_engine (ok r, s) = (ok r, s)
  drop_engine (err e, s) = (err e, api.remove_engine s)

  -- ReconcileInternal, for a runtime that is there
  unfoldable pub reconcile_internal : S → Result Requeue × S
  reconcile_internal s =
      let (e, s1) = api.get_or_create_engine s in
      elim e [
        | some x ↦ (err x, s1)
        | none ↦
            with_meta
              (λ (meta : Meta). λ s2.
                if meta.deleting
                then drop_engine (reconcile_runtime_deletion s2)
                else if not (contains_string meta.finalizers finalizer_name)
                then add_runtime_finalizer s2
                else reconcile_runtime s2)
              s1
      ]
