-- ===== src/Process.antt =====
-- The operating system as the wrappers of pkg/utils/helm and pkg/utils/kubectl see it: LookPath and
-- Command of os/exec, Stat and Write of os, and TempFile of ioutil. All of them are parameters.
use fluid_data_table.Base.{Bool, Option, none, some, List}
use fluid_data_table.Base.Text.{Text}
use fluid_data_table.Base.Int.{ℤ}
use fluid_data_table.Base.Result.{Error, Result, ok, err}

-- The error of a command's Wait: an *exec.ExitError, with the exit status if Sys() is a WaitStatus,
-- or any other.
pub data WaitError : Type 0 where
  exit_error : Option ℤ → Error → WaitError
  wait_failed : Error → WaitError

abbrev pub error_of : WaitError → Error
error_of (exit_error status e) = e
error_of (wait_failed e) = e

-- A command that was started and waited for; `exit_status` is that of its ProcessState.
pub record Ended : Type 0 where
  pub stdout : Text
  pub error : Option WaitError
  pub exit_status : ℤ

-- Looking for files does not change them; commands and new files do.
pub record Machine (S : Type 0) : Type 0 where
  pub look_path : Text → S → Result Text
  pub stat : Text → S → Option Error
  -- os.IsNotExist
  pub is_not_exist : Error → Bool
  -- a program and its arguments; an error is that of Start
  pub run : Text → List Text → S → Result Ended × S
  -- by directory and pattern; the name of the file
  pub temp_file : Text → Text → S → Result Text × S
  -- the text that is written to a file
  pub write_file : Text → Text → S → Option Error × S

-- The output of Command.Output and Command.CombinedOutput, which both start the command and wait.
abbrev pub output_of : Result Ended → Result Text
output_of (err e) = err e
output_of (ok r) = elim r.error [ none ↦ ok r.stdout | some w ↦ err (error_of w) ]

-- The error alone
abbrev pub failure_of {ℓ} : {A : Type ℓ} → Result A → Option Error
failure_of (err e) = some e
failure_of (ok a) = none
