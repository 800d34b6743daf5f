-- ===== src/Helm/Releases.antt =====
-- What the functions of pkg/utils/helm/utils.go promise: a view of the releases that are installed,
-- what `helm` does to it, and what that makes of each function.
use fluid_data_table.Base.{Bool, true, false, none, some, ◌≡◌, refl, arith, [], if◌then◌else◌}
use fluid_data_table.Base.Text.{Text}
use fluid_data_table.Base.Int.{pos}
use fluid_data_table.Base.Result.{Error, Result, ok}
use fluid_data_table.Process.{exit_error, Ended, Machine, output_of, failure_of}
use fluid_data_table.Runtime.Template.{answer}
use fluid_data_table.Helm.{
  helm_cmd, install_args, status_args, uninstall_args, is_status, read_success, read_failure,
  read_status, install_release, check_release, delete_release, delete_release_if_exists,
}

-- What `helm status` reports: text and exit status 0, or an error with exit status 1.
abbrev pub reported : Bool → Text → Error → Result Ended
reported true text e = ok (record { stdout = text; error = none; exit_status = pos 0 })
reported false text e =
    ok (record { stdout = []; error = some (exit_error (some (pos 1)) e); exit_status = pos 1 })

-- What the documentation of Helm says of `status`, `install` and `uninstall`, for a view of the
-- releases by name and namespace.
pub record HelmLaws {S : Type 0} (m : Machine S) (installed : Text → Text → S → Bool) : Type 0 where
  pub helm : Text
  pub text : Text → Text → S → Text
  pub no_release : Error
  -- the program is found
  pub found : (s : S) → m.look_path helm_cmd s ≡ ok helm
  -- `helm status` only reads
  pub status :
      (name namespace : Text) (s : S)
      → m.run helm_cmd (status_args name namespace) s
        ≡ (reported (installed name namespace s) (text name namespace s) no_release, s)
  -- `helm install` that succeeds has installed the release
  pub install :
      (name namespace chart_name engine_name : Text) (s : S)
      → failure_of (output_of (m.run helm (install_args name namespace chart_name engine_name) s).0)
        ≡ none
      → installed name namespace
          (m.run helm (install_args name namespace chart_name engine_name) s).1
        ≡ true
  -- `helm uninstall` that succeeds has removed the release
  pub uninstall :
      (name namespace : Text) (s : S)
      → failure_of (output_of (m.run helm (uninstall_args name namespace) s).0) ≡ none
      → installed name namespace (m.run helm (uninstall_args name namespace) s).1 ≡ false

read_reported :
    (name namespace text : Text) (e : Error) (b : Bool)
    → read_status name namespace (reported b text e) ≡ answer b none
unfolding read_status read_success read_failure is_status
read_reported name namespace text e true = refl
read_reported name namespace text e false = refl

-- Helm keeps its promises.
module _ {S : Type 0} {m : Machine S} {installed : Text → Text → S → Bool}
    (laws : HelmLaws m installed) (name namespace : Text) where
  -- CheckRelease answers by the view, and changes nothing.
  pub check_release_lem :
      (s : S) → check_release m name namespace s ≡ (answer (installed name namespace s) none, s)
  unfolding check_release
  check_release_lem s = ground (
    arith,
    laws.found s,
    laws.status name namespace s,
    read_reported name namespace (laws.text name namespace s) laws.no_release
        (installed name namespace s),
  )

  -- What InstallRelease that has no error leaves behind.
  pub install_release-installed :
      (value_file chart_name engine_name : Text) (s : S) {s1 : S}
      → install_release m name namespace value_file chart_name engine_name s ≡ (none, s1)
      → installed name namespace s1 ≡ true
  unfolding install_release
  install_release-installed value_file chart_name engine_name s h =
      ground (arith, laws.found s, laws.install name namespace chart_name engine_name s)

  pub delete_release-installed :
      (s : S) {s1 : S}
      → delete_release m name namespace s ≡ (none, s1)
      → installed name namespace s1 ≡ false
  unfolding delete_release
  delete_release-installed s h = ground (arith, laws.found s, laws.uninstall name namespace s)

  pub delete_release_if_exists_of :
      (s : S)
      → delete_release_if_exists m name namespace s
        ≡ (if installed name namespace s then delete_release m name namespace s else (none, s))
  unfolding delete_release_if_exists
  delete_release_if_exists_of s = ground (arith, check_release_lem s)

  -- Where Helm keeps its promises, DeleteReleaseIfExists that returns no error has removed the
  -- release, and after that a second call returns no error and changes nothing.
  pub delete_release_if_exists-installed :
      (s s1 : S)
      → delete_release_if_exists m name namespace s ≡ (none, s1)
      → (installed name namespace s1 ≡ false)
        × (delete_release_if_exists m name namespace s1 ≡ (none, s1))
  delete_release_if_exists-installed s s1 h = ground (
    arith,
    delete_release_if_exists_of s,
    delete_release_if_exists_of s1,
    delete_release-installed s {s1 = s1},
  )
