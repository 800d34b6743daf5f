-- ===== src/Alluxio/Shell.antt =====
-- How a command is run in the master's pod: exec and execWithoutTimeout of
-- pkg/ddc/alluxio/operations/base.go.
use fluid_data_table.Base.{ℕ, ltb, Option, none, some, List, [], ◌++◌, if◌then◌else◌}
use fluid_data_table.Base.Text.{Text, codes, join}
use fluid_data_table.Base.Result.{Error, message}
use fluid_data_table.Datatable.World.{Outcome, failed}

-- What kubeclient.ExecCommandInContainer gives back, and after how many seconds.
pub record Reply : Type 0 where
  pub stdout : Text
  pub stderr : Text
  pub error : Option Text
  pub seconds : ℕ

-- The pod: it runs a command in a state of the cluster.
abbrev pub Pod : Type 0 → Type 0
Pod S = List Text → S → Reply × S

-- `%v` of a command
abbrev pub shown : List Text → Text
shown command = codes "[" ++ (join (codes " ") command ++ codes "]")

-- The error of every operation whose command fails.
abbrev pub exec_error : List Text → Text → Reply → Error
exec_error command e r = message (
    codes "execute command "
    ++ (shown command
        ++ (codes " with expectedErr: "
            ++ (e ++ (codes " stdout " ++ (r.stdout ++ (codes " and stderr " ++ r.stderr)))))))

abbrev pub in_time : List Text → Reply → Reply
in_time command r = if ltb r.seconds 1500 then r else record {
  stdout = [];
  stderr = [];
  error = some (codes "timeout when executing " ++ shown command);
  seconds = 1500;
}

module _ {S : Type 0} (pod : Pod S) where
  -- execWithoutTimeout
  unfoldable pub exec_without_timeout : List Text → S → Reply × S
  exec_without_timeout command s = pod command s

  -- exec: a command that takes 1500 seconds is given up, but goes on in the pod.
  unfoldable pub exec : List Text → S → Reply × S
  exec command s = let (r, s1) = exec_without_timeout command s in (in_time command r, s1)

-- An operation that fails if its command fails, and otherwise reads the output.
abbrev pub on_success {ℓ} : {A : Type ℓ} → List Text → Reply → (Text → Outcome A) → Outcome A
on_success command r next = elim r.error [
  | none ↦ next r.stdout
  | some e ↦ failed (exec_error command e r)
]
