-- ===== src/Helm.antt =====
-- pkg/utils/helm/utils.go: releases are installed, looked up and deleted by the program `helm`.
mod Tests
pub mod Releases
pub mod Listing
pub mod Chart
use fluid_data_table.Base.{
  Bool, true, false, ◌==◌, Option, none, some, List, [], ◌∷◌, ◌++◌, if◌then◌else◌,
}
use fluid_data_table.Base.Text.{Text, codes, has_prefix}
use fluid_data_table.Base.Int.{ℤ, pos, negsuc}
use fluid_data_table.Base.Result.{Error, Result, ok, err, message}
use fluid_data_table.Base.Strconv.{format_int}
use fluid_data_table.Process.{
  WaitError, exit_error, wait_failed, Ended, Machine, output_of, failure_of,
}
use fluid_data_table.Runtime.Types.{Checked, Step}
use fluid_data_table.Runtime.Template.{answer}

-- helmCmd[0]
abbrev pub helm_cmd : Text
helm_cmd = codes "helm"

-- The directory that InstallRelease takes the values from.
abbrev pub values_path : Text
values_path = codes "/data1/wwx/Fluid-DataTable-main/charts/alluxio/"

-- The label that selects the nodes of the workers.
unfoldable pub worker_selector : Text → Text → Text
worker_selector name namespace =
    codes "worker.nodeSelector."
    ++ (codes "fluid-io/s-" ++ (namespace ++ (codes "-" ++ (name ++ codes "=ok"))))

-- The arguments of `helm install`.
unfoldable pub install_args : Text → Text → Text → Text → List Text
install_args name namespace chart_name engine_name =
    codes "install"
    ∷ name
    ∷ codes "-f"
    ∷ (values_path ++ codes "values.yaml")
    ∷ codes "--namespace"
    ∷ namespace
    ∷ codes "--set"
    ∷ (codes "master.name=" ++ engine_name)
    ∷ codes "--set"
    ∷ worker_selector name namespace
    ∷ chart_name
    ∷ []

abbrev pub status_args : Text → Text → List Text
status_args name namespace = codes "status" ∷ name ∷ codes "-n" ∷ namespace ∷ []

abbrev pub uninstall_args : Text → Text → List Text
uninstall_args name namespace = codes "uninstall" ∷ name ∷ codes "-n" ∷ namespace ∷ []

unfoldable pub is_status : ℤ → ℤ → Bool
is_status (pos a) (pos b) = a == b
is_status (negsuc a) (negsuc b) = a == b
is_status (pos a) (negsuc b) = false
is_status (negsuc a) (pos b) = false

-- The exit status of a status command that Wait has no error for.
unfoldable pub read_success : Text → Text → ℤ → Checked
unfolding is_status
read_success name namespace status =
    if is_status status (pos 0)
    then answer true none
    else if is_status status (negsuc 0)
    then answer false none
    else answer false (
        some (
          message (
            codes "unexpected return code "
            ++ (format_int status
                ++ (codes " when exec helm status " ++ (name ++ (codes " -n " ++ namespace)))))))

-- The error of Wait: exit status 1 means that there is no such release.
unfoldable pub read_failure : WaitError → Checked
unfolding is_status
read_failure (exit_error none e) = answer false (some e)
read_failure (exit_error (some status) e) =
    if is_status status (pos 1) then answer false none else answer false (some e)
read_failure (wait_failed e) = answer false (some e)

unfoldable pub read_status : Text → Text → Result Ended → Checked
unfolding read_success read_failure
read_status name namespace (err e) = answer false (some e)
read_status name namespace (ok r) = elim r.error [
  | none ↦ read_success name namespace r.exit_status
  | some w ↦ read_failure w
]

module _ {S : Type 0} (m : Machine S) where
  -- The error for a chart that is a path of its own and is not there.
  unfoldable pub missing_chart : Text → S → Option Error
  missing_chart chart_name s =
      if has_prefix chart_name (codes "/")
      then (elim (m.stat chart_name s) [
        | none ↦ none
        | some e ↦ if m.is_not_exist e then some e else none
      ])
      else none

  -- InstallRelease; the value file is not used.
  unfoldable pub install_release : Text → Text → Text → Text → Text → Step S
  install_release name namespace value_file chart_name engine_name s =
      elim (m.look_path helm_cmd s) [
        | err e ↦ (some e, s)
        | ok binary ↦ (elim (missing_chart chart_name s) [
          | some e ↦ (some e, s)
          | none ↦
              (let (r, s1) = m.run binary (install_args name namespace chart_name engine_name) s in
                (failure_of (output_of r), s1))
        ])
      ]

  -- CheckRelease
  unfoldable pub check_release : Text → Text → S → Checked × S
  check_release name namespace s = elim (m.look_path helm_cmd s) [
    | err e ↦ (answer false (some e), s)
    | ok binary ↦
        (let (r, s1) = m.run helm_cmd (status_args name namespace) s in
          (read_status name namespace r, s1))
  ]

  -- DeleteRelease
  unfoldable pub delete_release : Text → Text → Step S
  delete_release name namespace s = elim (m.look_path helm_cmd s) [
    | err e ↦ (some e, s)
    | ok binary ↦
        (let (r, s1) = m.run binary (uninstall_args name namespace) s in
          (failure_of (output_of r), s1))
  ]

  abbrev pub delete_if : Text → Text → Checked × S → Option Error × S
  delete_if name namespace (c, s) = elim c.error [
    | some e ↦ (some e, s)
    | none ↦ if c.ready then delete_release name namespace s else (none, s)
  ]

  -- DeleteReleaseIfExists
  unfoldable pub delete_release_if_exists : Text → Text → Step S
  delete_release_if_exists name namespace s =
      delete_if name namespace (check_release name namespace s)
