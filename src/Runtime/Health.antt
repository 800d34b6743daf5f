-- ===== src/Runtime/Health.antt =====
-- pkg/ddc/alluxio/health_check.go: the health of the master, the workers and the fuses. The texts of
-- errors and conditions are shortened; no code reads them.
pub mod Stale
use fluid_data_table.Base.{
  ℕ, Bool, true, false, ◌&&◌, ◌||◌, not, ◌==◌, ltb, Option, none, some, List, if◌then◌else◌,
}
use fluid_data_table.Base.Text.{Text, codes, str_eq}
use fluid_data_table.Base.Result.{Error, Result, ok, err, message}
use fluid_data_table.Runtime.Types.{
  phase_not_ready, phase_ready, Condition, ConditionStatus, condition_true, condition_false, Status,
  Runtime, StatefulSet, DaemonSet, Step,
}
use fluid_data_table.Runtime.Conditions.{
  new_runtime_condition, update_runtime_condition, get_runtime_condition,
}
use fluid_data_table.Runtime.Status.{
  Engine, write_status, master_ready_type, workers_ready_type, fuses_ready_type,
}

-- A condition is only added if there is none of its type: one that is found has the type that was
-- looked for, so the second test of the code never holds.
unfoldable pub add_condition : List Condition → Condition → List Condition
add_condition conditions new = elim (get_runtime_condition conditions new.type) [
  | none ↦ update_runtime_condition conditions new
  | some p ↦
      if not (str_eq p.1.type new.type) then update_runtime_condition conditions new else conditions
]

abbrev pub healthy_or : Bool → Error → Option Error
healthy_or true e = none
healthy_or false e = some e

-- The end of each check: the error of the retried function, or one that says what is not healthy.
abbrev pub verdict : {S : Type 0} → Error → Option Error × (Bool × S) → Option Error × S
verdict unhealthy (some e, (healthy, s)) = (some e, s)
verdict unhealthy (none, (healthy, s)) = (healthy_or healthy unhealthy, s)

-- `NumberUnavailable > 0 || (DesiredNumberScheduled > 0 && NumberAvailable == 0)`
unfoldable pub is_unhealthy : DaemonSet → Bool
is_unhealthy d =
    ltb 0 d.number_unavailable || (ltb 0 d.desired_number_scheduled && d.number_available == 0)

module _ {S : Type 0} (e : Engine S) where
  -- A retried function that reads the runtime; its flag is a variable of the function around it.
  abbrev pub with_runtime_flag : (Runtime → Step (Bool × S)) → Step (Bool × S)
  with_runtime_flag next (healthy, s) =
      let (r, s1) = e.cluster.get_runtime s in
      elim r [ err x ↦ (some x, (healthy, s1)) | ok runtime ↦ next runtime (healthy, s1) ]

  abbrev pub keep_flag : Bool → Option Error × S → Option Error × (Bool × S)
  keep_flag healthy (x, s) = (x, (healthy, s))

  -- The retried function of checkMasterHealthy: it returns before the write of a master that is not
  -- ready.
  unfoldable pub observe_master : StatefulSet → Step (Bool × S)
  observe_master master = with_runtime_flag λ runtime. λ (f : Bool × S).
      if not (master.replicas == master.ready_replicas)
      then (none, f)
      else keep_flag true (
          write_status e runtime.status
            (record runtime.status {
              conditions = add_condition runtime.status.conditions (
                  new_runtime_condition (e.cluster.now f.1) master_ready_type
                    (codes "The master is ready.") (codes "The master is ready.") condition_true);
              master_phase = phase_ready;
            })
            f.1)

  -- checkMasterHealthy
  unfoldable pub check_master_healthy : Step S
  check_master_healthy s =
      let (m, s1) = e.cluster.get_master s in
      elim m [
        | err x ↦ (some x, s1)
        | ok master ↦
            verdict (message (codes "the master is not ready"))
              (e.retry_on_conflict (Bool × S) (observe_master master) (false, s1))
      ]

  -- The status that checkWorkersHealthy writes.
  abbrev pub workers_status : ℕ → DaemonSet → Status → Status
  workers_status now workers st =
      let bad : Condition =
        new_runtime_condition now workers_ready_type (codes "The workers are not ready.")
          (codes "The workers are not ready.") condition_false in
      let good : Condition =
        new_runtime_condition now workers_ready_type (codes "The workers are ready.")
          (codes "The workers are ready") condition_true in
      if is_unhealthy workers
      then record st {
        conditions = add_condition st.conditions bad;
        worker_phase = phase_not_ready;
        worker_number_ready = workers.number_ready;
        worker_number_available = workers.number_available;
      }
      else record st {
        conditions = add_condition st.conditions good;
        worker_number_ready = workers.number_ready;
        worker_number_available = workers.number_available;
      }

  -- The retried function of checkWorkersHealthy
  unfoldable pub observe_workers : DaemonSet → Step (Bool × S)
  observe_workers workers = with_runtime_flag λ runtime. λ (f : Bool × S).
      keep_flag (f.0 || not (is_unhealthy workers)) (
        write_status e runtime.status (workers_status (e.cluster.now f.1) workers runtime.status)
          f.1)

  -- checkWorkersHealthy
  unfoldable pub check_workers_healthy : Step S
  check_workers_healthy s =
      let (w, s1) = e.cluster.get_workers s in
      elim w [
        | err x ↦ (some x, s1)
        | ok workers ↦
            verdict (message (codes "the workers are not ready"))
              (e.retry_on_conflict (Bool × S) (observe_workers workers) (false, s1))
      ]

  -- The status that checkFuseHealthy writes: its condition is false in both branches.
  abbrev pub fuses_status : ℕ → DaemonSet → Status → Status
  fuses_status now fuses st =
      let condition : Text → Condition =
        λ text. new_runtime_condition now fuses_ready_type text text condition_false in
      if is_unhealthy fuses
      then record st {
        conditions = add_condition st.conditions (condition (codes "The Fuses are not ready."));
        fuse_phase = phase_not_ready;
        fuse_number_ready = fuses.number_ready;
        fuse_number_available = fuses.number_available;
      }
      else record st {
        conditions = add_condition st.conditions (condition (codes "The Fuses are ready."));
        fuse_phase = phase_ready;
        fuse_number_ready = fuses.number_ready;
        fuse_number_available = fuses.number_available;
      }

  -- The retried function of checkFuseHealthy
  unfoldable pub observe_fuses : DaemonSet → Step (Bool × S)
  observe_fuses fuses = with_runtime_flag λ runtime. λ (f : Bool × S).
      keep_flag (f.0 || not (is_unhealthy fuses))
        (write_status e runtime.status (fuses_status (e.cluster.now f.1) fuses runtime.status) f.1)

  -- checkFuseHealthy
  unfoldable pub check_fuse_healthy : Step S
  check_fuse_healthy s =
      let (w, s1) = e.cluster.get_fuses s in
      elim w [
        | err x ↦ (some x, s1)
        | ok fuses ↦
            verdict (message (codes "the fuses are not ready"))
              (e.retry_on_conflict (Bool × S) (observe_fuses fuses) (false, s1))
      ]
