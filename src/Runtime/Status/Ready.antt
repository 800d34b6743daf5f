-- ===== src/Runtime/Status/Ready.antt =====
-- The Alluxio engine as an implementation of the template, and when its status says that it is ready
-- (pkg/ddc/alluxio/status.go).
use fluid_data_table.Base.{Bool, true, false, Option, none, some, if◌then◌else◌, ◌≡◌}
use fluid_data_table.Base.Result.{Error, is_conflict}
use fluid_data_table.Runtime.Types.{
  Phase, phase_ready, phase_partial_ready, Runtime, StatefulSet, DaemonSet, Step, Status,
}
use fluid_data_table.Runtime.Template.{Implement}
use fluid_data_table.Runtime.Status.Workers.{
  should_setup_workers, setup_workers, check_workers_ready,
}
use fluid_data_table.Runtime.Status.{
  Engine, should_setup_master, setup_master, check_master_ready, check_and_update_runtime_status,
  observe,
}

-- The phases of a master or of workers that are ready, at least in part.
abbrev pub is_ready_phase : Phase → Bool
is_ready_phase phase_ready = true
is_ready_phase phase_partial_ready = true
is_ready_phase _ = false

module _ {S : Type 0} (e : Engine S) where
  -- The operations that AlluxioEngine gives to the template.
  abbrev pub alluxio_engine : Implement S
  alluxio_engine = record {
    should_setup_master = should_setup_master e;
    setup_master = setup_master e;
    check_master_ready = check_master_ready e;
    should_setup_workers = should_setup_workers e;
    setup_workers = setup_workers e;
    check_workers_ready = check_workers_ready e;
    check_and_update_runtime_status = check_and_update_runtime_status e;
  }

  abbrev pub no_conflict : Option Error → Bool
  no_conflict none = true
  no_conflict (some x) = if is_conflict x then false else true

  -- retry.RetryOnConflict returns what its function returns, if that is no conflict.
  abbrev pub ReturnsFirst : Type 1
  ReturnsFirst =
      (X : Type 0) (f : Step X) (x : X)
      → no_conflict (f x).0 ≡ true
      → e.retry_on_conflict X f x ≡ f x

  module _ (master : StatefulSet) (workers : DaemonSet) (runtime : Runtime) (s s1 : S) where
    abbrev observed : Option Error × ((Bool × Bool × Bool) × S)
    observed = observe e master workers ((false, false, false), s)
