-- ===== src/Runtime/Status.antt =====
-- pkg/ddc/alluxio: the status of a runtime while it is set up, in master.go and status.go.
-- The texts of errors and conditions are shortened; no code reads them.
pub mod Workers
pub mod Ready
use fluid_data_table.Base.{
  ℕ, Bool, true, false, ◌&&◌, ◌||◌, not, ◌==◌, ltb, leb, Option, none, some, if◌then◌else◌,
  is_empty,
}
use fluid_data_table.Base.Text.{Text, codes, str_eq}
use fluid_data_table.Base.Result.{Error, Result, ok, err, message, is_not_found}
use fluid_data_table.Runtime.Types.{
  Phase, phase_none, phase_not_ready, phase_partial_ready, phase_ready, Condition, condition_true,
  Status, Runtime, StatefulSet, DaemonSet, Checked, Step, Check, Cluster,
}
use fluid_data_table.Runtime.Conditions.{new_runtime_condition, update_runtime_condition}
use fluid_data_table.Runtime.Template.{answer}

abbrev pub master_ready_type : Text
master_ready_type = codes "MasterReady"

abbrev pub master_initialized_type : Text
master_initialized_type = codes "MasterInitialized"

abbrev pub workers_ready_type : Text
workers_ready_type = codes "WorkersReady"

abbrev pub workers_initialized_type : Text
workers_initialized_type = codes "WorkersInitialized"

abbrev pub fuses_ready_type : Text
fuses_ready_type = codes "FusesReady"

-- The status with a condition of a type that is true.
abbrev pub with_condition : ℕ → Text → Text → Status → Status
with_condition now type text st = record st {
  conditions =
      update_runtime_condition st.conditions
        (new_runtime_condition now type text text condition_true);
}

-- `0` replicas stand for one.
abbrev pub at_least_one : ℕ → ℕ
at_least_one n = if n == 0 then 1 else n

abbrev pub is_none_phase : Phase → Bool
is_none_phase phase_none = true
is_none_phase _ = false

abbrev pub is_none {ℓ} : {A : Type ℓ} → Option A → Bool
is_none none = true
is_none (some a) = false

-- The engine's other parts, and retry.RetryOnConflict: it runs a step again while it conflicts.
pub record Engine (S : Type 0) : Type 1 where
  pub cluster : Cluster S
  pub retry_on_conflict : (X : Type 0) → Step X → Step X
  -- setupMasterInternal of master_internal.go, which installs the Helm chart
  pub setup_master_internal : Step S
  -- AssignNodesToCache of node.go
  pub assign_nodes_to_cache : ℕ → S → Result ℕ × S
  pub worker_selectors : Text
  pub configmap_name : Text

module _ {S : Type 0} (e : Engine S) where
  -- The write of a status that is not deeply equal to the old one.
  unfoldable pub write_status : Status → Status → Step S
  write_status old new s =
      if e.cluster.same_status old new then (none, s) else e.cluster.update_status new s

  -- A step that reads the runtime first.
  abbrev pub with_runtime : (Runtime → Step S) → Step S
  with_runtime next s =
      let (r, s1) = e.cluster.get_runtime s in
      elim r [ err x ↦ (some x, s1) | ok runtime ↦ next runtime s1 ]

  -- The status of CheckMasterReady, before the API gateway is looked at.
  abbrev pub master_ready_status : ℕ → StatefulSet → Status → Status
  master_ready_status now master st =
      with_condition now master_ready_type (codes "The master is ready.") (record st {
        current_master_number_scheduled = master.ready_replicas;
        master_phase = phase_ready;
      })

  -- The function that CheckMasterReady retries.
  unfoldable pub report_master_ready : StatefulSet → Step S
  report_master_ready master = with_runtime λ runtime. λ s.
      let new : Status = master_ready_status (e.cluster.now s) master runtime.status in
      if runtime.api_gateway_enabled && is_none new.api_gateway_status
      then (let (r, s1) = e.cluster.get_api_gateway_status s in
          elim r [
            | err x ↦ (some x, s1)
            | ok gateway ↦
                write_status runtime.status (record new { api_gateway_status = some gateway }) s1
          ])
      else write_status runtime.status new s

  abbrev pub reported : Option Error × S → Checked × S
  reported (x, s) = (answer true x, s)

  -- CheckMasterReady
  unfoldable pub check_master_ready : Check S
  check_master_ready s =
      let (r, s1) = e.cluster.get_runtime s in
      elim r [
        | err x ↦ (answer false (some x), s1)
        | ok runtime ↦
            (let (m, s2) = e.cluster.get_master s1 in
              elim m [
                | err x ↦ (answer false (some x), s2)
                | ok master ↦
                    if at_least_one runtime.master_replicas == master.ready_replicas
                    then reported (e.retry_on_conflict S (report_master_ready master) s2)
                    else (answer false none, s2)
              ])
      ]

  -- ShouldSetupMaster
  unfoldable pub should_setup_master : Check S
  should_setup_master s =
      let (r, s1) = e.cluster.get_runtime s in
      elim r [
        | err x ↦ (answer false (some x), s1)
        | ok runtime ↦ (answer (is_none_phase runtime.status.master_phase) none, s1)
      ]

  -- The function that SetupMaster retries.
  unfoldable pub report_master_initialized : Step S
  report_master_initialized = with_runtime λ runtime. λ s.
      write_status runtime.status
        (with_condition (e.cluster.now s) master_initialized_type
          (codes "The master is initialized.")
          (record runtime.status {
            master_phase = phase_not_ready;
            selector = e.worker_selectors;
            desired_master_number_scheduled = at_least_one runtime.master_replicas;
            value_file_configmap = e.configmap_name;
          }))
        s

  -- SetupMaster
  unfoldable pub setup_master : Step S
  setup_master s =
      let (m, s1) = e.cluster.get_master s in
      elim m [
        | err x ↦ if is_not_found x then e.setup_master_internal s1 else (some x, s1)
        | ok master ↦ e.retry_on_conflict S report_master_initialized s1
      ]

  -- The branches over the master: the phase that is written, and whether the master's flag is set.
  unfoldable pub master_branch : StatefulSet → Phase × Bool
  master_branch master =
      if master.spec_replicas == master.ready_replicas
      then (phase_ready, true)
      else (phase_not_ready, false)

  -- The branches over the workers, in the same way.
  unfoldable pub worker_branch : ℕ → DaemonSet → Phase × Bool
  worker_branch replicas workers =
      if replicas == workers.number_ready
      then (phase_ready, true)
      else if workers.number_available == workers.number_ready
      then (phase_partial_ready, true)
      else (phase_not_ready, false)

  -- The status that CheckAndUpdateRuntimeStatus writes, but for the duration of the set-up.
  abbrev pub observed_status : StatefulSet → DaemonSet → ℕ → Status → Status
  observed_status master workers replicas st = record st {
    has_cache_states = true;
    current_master_number_scheduled = master.replicas;
    master_number_ready = master.ready_replicas;
    master_phase = (master_branch master).0;
    worker_number_ready = workers.number_ready;
    worker_number_unavailable = workers.number_unavailable;
    worker_number_available = workers.number_available;
    worker_phase = (worker_branch replicas workers).0;
  }

  abbrev pub with_duration : Bool → Text → Status → Status
  with_duration ready duration st =
      if ready && is_empty st.setup_duration then record st { setup_duration = duration } else st

  -- The function that CheckAndUpdateRuntimeStatus retries. Its flags are variables of the function
  -- around it, which it sets and never clears: the master's, the workers' and both.
  unfoldable pub observe : StatefulSet → DaemonSet → Step ((Bool × Bool × Bool) × S)
  observe master workers ((m, w, both), s) =
      let (r, s1) = e.cluster.get_runtime s in
      elim r [
        | err x ↦ (some x, ((m, w, both), s1))
        | ok runtime ↦
            (let m' : Bool = m || (master_branch master).1 in
              let w' : Bool = w || (worker_branch runtime.replicas workers).1 in
              let both' : Bool = both || (m' && w') in
              let (x, s2) =
                write_status runtime.status
                  (with_duration both' (e.cluster.duration s1)
                    (observed_status master workers runtime.replicas runtime.status))
                  s1 in
              (x, ((m', w', both'), s2)))
      ]

  abbrev pub flagged : Option Error × ((Bool × Bool × Bool) × S) → Checked × S
  flagged (x, ((m, w, both), s)) = (answer both x, s)

  -- CheckAndUpdateRuntimeStatus
  unfoldable pub check_and_update_runtime_status : Check S
  check_and_update_runtime_status s =
      let (m, s1) = e.cluster.get_master s in
      elim m [
        | err x ↦ (answer false (some x), s1)
        | ok master ↦
            (let (w, s2) = e.cluster.get_workers s1 in
              elim w [
                | err x ↦ (answer false (some x), s2)
                | ok workers ↦ flagged (
                    e.retry_on_conflict ((Bool × Bool × Bool) × S) (observe master workers)
                      ((false, false, false), s2))
              ])
      ]
