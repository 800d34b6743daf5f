-- ===== src/Runtime/Controller/Finalizers.antt =====
-- The finalizer of a runtime in pkg/controllers/runtime_controller.go.
use fluid_data_table.Base.{true, none, some, ◌≡◌, arith}
use fluid_data_table.Base.Text.{Text}
use fluid_data_table.Base.Result.{Error, ok}
use fluid_data_table.Datatable.Reconcile.{requeue_after_interval}
use fluid_data_table.Runtime.Controller.{
  Meta, ControllerApi, reconcile_runtime_deletion, reconcile_internal,
}

module _ {S : Type 0} (api : ControllerApi S) (finalizer_name : Text) where
  -- A runtime that is deleted keeps its finalizer while its engine cannot be shut down: the
  -- reconciliation ends with the shutdown, asks for another try after 20 seconds, and keeps the engine.
  pub reconcile_internal_of_failed_shutdown :
      (s s1 s2 s3 : S) (meta : Meta) (e : Error)
      → api.get_or_create_engine s ≡ (none, s1)
      → api.get_runtime_object_meta s1 ≡ (ok meta, s2)
      → meta.deleting ≡ true
      → api.shutdown s2 ≡ (some e, s3)
      → reconcile_internal api finalizer_name s ≡ (ok (requeue_after_interval 20), s3)
  unfolding reconcile_internal reconcile_runtime_deletion
  reconcile_internal_of_failed_shutdown s s1 s2 s3 meta e h1 h2 h3 h4 = ground arith
