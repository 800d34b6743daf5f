-- ===== src/Kubectl.antt =====
-- pkg/utils/kubectl/configmap.go: config maps are created from files, and written to files, by the
-- program `kubectl`.
use fluid_data_table.Base.{Option, none, some, List, [], ◌∷◌, ◌++◌, if◌then◌else◌}
use fluid_data_table.Base.Text.{Text, codes, join}
use fluid_data_table.Base.Result.{Error, Result, ok, err}
use fluid_data_table.Datatable.World.{Outcome, returned, panicked}
use fluid_data_table.Process.{Machine, output_of, failure_of}
use fluid_data_table.Runtime.Types.{Step}
use fluid_data_table.Helm.Chart.{Named, run_shell, template_error}

-- kubectlCmd[0]
abbrev pub kubectl_cmd : Text
kubectl_cmd = codes "kubectl"

unfoldable pub create_args : Text → Text → Text → Text → List Text
create_args name key file_name namespace =
    codes "create"
    ∷ codes "configmap"
    ∷ name
    ∷ codes "--namespace"
    ∷ namespace
    ∷ (codes "--from-file=" ++ (key ++ (codes "=" ++ file_name)))
    ∷ []

unfoldable pub get_command : Text → Text → Text → Text → Text → Text
get_command binary name key namespace file_name = join (codes " ") (
    binary
    ∷ codes "get"
    ∷ codes "configmap"
    ∷ name
    ∷ codes "--namespace"
    ∷ namespace
    ∷ (codes "-o=jsonpath='{.data." ++ (key ++ codes "}'"))
    ∷ codes ">"
    ∷ file_name
    ∷ [])

abbrev pub returned_after : {S : Type 0} → Named × S → Outcome Named × S
returned_after (n, s) = (returned n, s)

module _ {S : Type 0} (m : Machine S) where
  -- kubectl
  unfoldable pub kubectl : List Text → S → Result Text × S
  kubectl args s = elim (m.look_path kubectl_cmd s) [
    | err e ↦ (err e, s)
    | ok binary ↦ (let (r, s1) = m.run binary args s in (output_of r, s1))
  ]

  abbrev pub is_missing : Text → S → Option Error
  is_missing file_name s = elim (m.stat file_name s) [
    | none ↦ none
    | some e ↦ if m.is_not_exist e then some e else none
  ]

  -- CreateConfigMapFromFile
  unfoldable pub create_config_map_from_file : Text → Text → Text → Text → Step S
  create_config_map_from_file name key file_name namespace s = elim (is_missing file_name s) [
    | some e ↦ (some e, s)
    | none ↦
        (let (r, s1) = kubectl (create_args name key file_name namespace) s in (failure_of r, s1))
  ]

  -- SaveConfigMapToFile: if there is no temporary file, the log asks it for its name and panics.
  unfoldable pub save_config_map_to_file : Text → Text → Text → Text → S → Outcome Named × S
  save_config_map_to_file temp_dir name key namespace s = elim (m.look_path kubectl_cmd s) [
    | err e ↦ (returned ([], some e), s)
    | ok binary ↦
        (let (f, s1) = m.temp_file temp_dir name s in
          elim f [
            | err e ↦ (panicked, s1)
            | ok file ↦ returned_after (
                template_error (codes "kubectl") file
                  (run_shell m (get_command binary name key namespace file) s1))
          ])
  ]
