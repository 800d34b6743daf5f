-- ===== src/Runtime/Controller/Pool.antt =====
-- The runtime controller of pkg/controllers/runtime_controller.go over the map of engines of
-- pkg/controllers/v1alpha1/alluxio: which engines are left in it.
use fluid_data_table.Base.{Option, some, ◌≡◌, refl, arith}
use fluid_data_table.Base.Text.{Text, str_eq_refl}
use fluid_data_table.Base.Dict.{Dict, lookup, lookup-insert}
use fluid_data_table.Base.Result.{Error, Result, ok, err}
use fluid_data_table.Process.{failure_of}
use fluid_data_table.Datatable.Reconcile.{Requeue}
use fluid_data_table.Runtime.Engines.{
  Request, generate_engine_id, remove_engine, create_engine, get_or_create_engine,
}
use fluid_data_table.Runtime.Controller.{
  ControllerApi, reconcile_runtime, reconcile_runtime_deletion, add_runtime_finalizer,
  reconcile_internal,
}

-- A call that leaves the map of engines as it is; an engine is a pointer, and what it points to is
-- in the other part of the state.
abbrev pub lifted : {E S A : Type 0} → (S → A × S) → Dict E × S → A × (Dict E × S)
lifted call (m, s) = let (a, s1) = call s in (a, (m, s1))

abbrev pub without_engine : {E X : Type 0} → Result E × X → Option Error × X
without_engine (r, x) = (failure_of r, x)

module _ {E S : Type 0} (build : Text → Request → S → Result E × S) (request : Request)
    (rest : ControllerApi S) (finalizer_name : Text) where
  -- The controller's calls, with those of the map of engines.
  abbrev pub with_engines : ControllerApi (Dict E × S)
  with_engines = record {
    get_or_create_engine = λ ms. without_engine (get_or_create_engine build request ms);
    get_runtime_object_meta = lifted rest.get_runtime_object_meta;
    remove_engine = λ ms. (remove_engine request ms.0, ms.1);
    setup = lifted rest.setup;
    shutdown = lifted rest.shutdown;
    get_phases = lifted rest.get_phases;
    update_finalizers = λ finalizers. lifted (rest.update_finalizers finalizers);
    current_generation = λ ms. rest.current_generation ms.1;
  }

  got_engine :
      (m m1 : Dict E) (s s1 : S) (e : E)
      → get_or_create_engine build request (m, s) ≡ (ok e, (m1, s1))
      → lookup (generate_engine_id request) m1 ≡ some e
  unfolding get_or_create_engine
  got_engine m m1 s s1 e h =
      let id = generate_engine_id request in
      let (r, s2) = create_engine build id request s in
      ground (arith, lookup-insert id id e m, str_eq_refl id)

  reconcile_runtime_keeps :
      (m : Dict E) (s : S) → (reconcile_runtime with_engines finalizer_name (m, s)).1.0 ≡ m
  unfolding reconcile_runtime
  reconcile_runtime_keeps m s = ground arith

  add_runtime_finalizer_keeps :
      (m : Dict E) (s : S) → (add_runtime_finalizer with_engines finalizer_name (m, s)).1.0 ≡ m
  unfolding add_runtime_finalizer
  add_runtime_finalizer_keeps m s = ground arith

  reconcile_runtime_deletion_keeps :
      (m : Dict E) (s : S) → (reconcile_runtime_deletion with_engines finalizer_name (m, s)).1.0 ≡ m
  unfolding reconcile_runtime_deletion
  reconcile_runtime_deletion_keeps m s = ground arith

  reconciled_keeps :
      (m m0 m1 : Dict E) (s s0 s1 : S) (r : Result E) (requeue : Requeue)
      → get_or_create_engine build request (m, s) ≡ (r, (m0, s0))
      → reconcile_internal with_engines finalizer_name (m, s) ≡ (ok requeue, (m1, s1))
      → (e : E) × (lookup (generate_engine_id request) m1 ≡ some e)
  unfolding reconcile_internal
  reconciled_keeps m m0 m1 s s0 s1 (err x) requeue g h = ground arith
  reconciled_keeps m m0 m1 s s0 s1 (ok e) requeue g h =
      let (meta, s2) = rest.get_runtime_object_meta s0 in
      (
        e,
        ground (
          arith,
          got_engine m m0 s s0 e,
          reconcile_runtime_keeps m0 s2,
          add_runtime_finalizer_keeps m0 s2,
          reconcile_runtime_deletion_keeps m0 s2,
        ),
      )

  -- A reconciliation that returns no error leaves an engine for the runtime in the map, also when it
  -- has deleted the runtime: a later GetOrCreateEngine for a runtime with the same id returns that
  -- engine without building one, and changes nothing.
  pub reconcile_internal_keeps_engine :
      (m m1 : Dict E) (s s1 s2 : S) (requeue : Requeue) (later : Request)
      → generate_engine_id later ≡ generate_engine_id request
      → reconcile_internal with_engines finalizer_name (m, s) ≡ (ok requeue, (m1, s1))
      → (e : E) × (get_or_create_engine build later (m1, s2) ≡ (ok e, (m1, s2)))
  unfolding get_or_create_engine
  reconcile_internal_keeps_engine m m1 s s1 s2 requeue later i h =
      let (r, (m0, s0)) = get_or_create_engine build request (m, s) in
      let (e, k) = reconciled_keeps m m0 m1 s s0 s1 r requeue refl h in (e, ground arith)
