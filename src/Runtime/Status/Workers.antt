-- ===== src/Runtime/Status/Workers.antt =====
-- pkg/ddc/alluxio/worker.go: the set-up of the workers, and when they are ready.
use fluid_data_table.Base.{ℕ, Bool, false, not, ◌==◌, ltb, none, some, if◌then◌else◌}
use fluid_data_table.Base.Text.{codes}
use fluid_data_table.Base.Result.{ok, err, message}
use fluid_data_table.Runtime.Types.{phase_not_ready, phase_partial_ready, Step, Check}
use fluid_data_table.Runtime.Template.{answer}
use fluid_data_table.Runtime.Status.{
  Engine, with_condition, is_none_phase, workers_ready_type, workers_initialized_type, with_runtime,
  write_status, reported,
}

module _ {S : Type 0} (e : Engine S) where
  -- The function that SetupWorkers retries.
  unfoldable pub report_workers_initialized : ℕ → ℕ → Step S
  report_workers_initialized desired current = with_runtime e λ runtime. λ s.
      write_status e runtime.status
        (with_condition (e.cluster.now s) workers_initialized_type
          (codes "The workers are initialized.")
          (record runtime.status {
            worker_phase = phase_not_ready;
            desired_worker_number_scheduled = desired;
            current_worker_number_scheduled = current;
          }))
        s

  -- SetupWorkers
  unfoldable pub setup_workers : Step S
  setup_workers s =
      let (r, s1) = e.cluster.get_runtime s in
      elim r [
        | err x ↦ (some x, s1)
        | ok runtime ↦
            (let (n, s2) = e.assign_nodes_to_cache runtime.replicas s1 in
              elim n [
                | err x ↦ (some x, s2)
                | ok current ↦
                    if current == 0
                    then (some (message (codes "the number of the current workers is 0")), s2)
                    else e.retry_on_conflict S (report_workers_initialized runtime.replicas current)
                        s2
              ])
      ]

  -- ShouldSetupWorkers
  unfoldable pub should_setup_workers : Check S
  should_setup_workers s =
      let (r, s1) = e.cluster.get_runtime s in
      elim r [
        | err x ↦ (answer false (some x), s1)
        | ok runtime ↦ (answer (is_none_phase runtime.status.worker_phase) none, s1)
      ]

  -- The function that CheckWorkersReady retries; the phase is only written for some of the workers.
  unfoldable pub report_workers_ready : Bool → Step S
  report_workers_ready partly = with_runtime e λ runtime. λ s.
      write_status e runtime.status
        (if partly
          then with_condition (e.cluster.now s) workers_ready_type
              (codes "The workers are partially ready.")
              (record runtime.status { worker_phase = phase_partial_ready })
          else with_condition (e.cluster.now s) workers_ready_type (codes "The workers are ready.")
              runtime.status)
        s

  -- CheckWorkersReady: one worker that is ready is enough.
  unfoldable pub check_workers_ready : Check S
  check_workers_ready s =
      let (r, s1) = e.cluster.get_runtime s in
      elim r [
        | err x ↦ (answer false (some x), s1)
        | ok runtime ↦
            (let (w, s2) = e.cluster.get_workers s1 in
              elim w [
                | err x ↦ (answer false (some x), s2)
                | ok workers ↦
                    if ltb 0 workers.number_ready
                    then reported e (
                        e.retry_on_conflict S
                          (report_workers_ready (not (runtime.replicas == workers.number_ready)))
                          s2)
                    else (answer false none, s2)
              ])
      ]
