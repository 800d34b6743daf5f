-- ===== src/Helm/Chart.antt =====
-- pkg/utils/helm/helm.go: value files, templates, and the version and the name of a chart; with
-- ToYaml of pkg/utils/yaml.go.
use fluid_data_table.Base.{Option, none, some, List, [], ◌∷◌, ◌++◌}
use fluid_data_table.Base.Text.{Text, codes, split, join, trim_right}
use fluid_data_table.Base.Strconv.{trim_space}
use fluid_data_table.Base.Result.{Error, Result, ok, err, message}
use fluid_data_table.Datatable.World.{Outcome, returned, panicked}
use fluid_data_table.Process.{Machine, output_of}
use fluid_data_table.Helm.{helm_cmd}

-- A Go function's `(name string, err error)`.
abbrev pub Named : Type 0
Named = Text × Option Error

-- filepath.Base: trailing slashes do not count, and the last part is taken.
abbrev pub last_part : Text → List Text → Text
last_part part [] = part
last_part part (p ∷ parts) = last_part p parts

abbrev pub base_of : Text → Text
base_of [] = codes "/"
base_of (c ∷ cs) = last_part [] (split b'/' (c ∷ cs))

unfoldable pub file_base : Text → Text
file_base [] = codes "."
file_base (c ∷ cs) = base_of (trim_right b'/' (c ∷ cs))

-- GetChartName
abbrev pub get_chart_name : Text → Text
get_chart_name chart = file_base chart

-- The version in the output of `helm inspect`: the first line has to have one colon.
unfoldable pub version_in : List Text → Result Text
version_in (key ∷ version ∷ []) = ok (trim_space version)
version_in _ = err (message (codes "failed to find version"))

unfoldable pub first_line : List Text → Result Text
unfolding version_in
first_line [] = err (message (codes "failed to find version"))
first_line (line ∷ lines) = version_in (split b':' line)

-- The shell's command of GenerateHelmTemplate.
unfoldable pub template_args : Text → Text → Text → Text → Text → List Text → Text → Text
template_args binary name namespace value_file chart_name options file = join (codes " ") (
    (binary
      ∷ codes "template"
      ∷ codes "-f"
      ∷ value_file
      ∷ codes "--namespace"
      ∷ namespace
      ∷ codes "--name"
      ∷ name
      ∷ [])
    ++ (options ++ chart_name ∷ codes ">" ∷ file ∷ []))

-- The shell's command of GetChartVersion.
abbrev pub inspect_command : Text → Text → Text
inspect_command binary chart = join (codes " ") (
    binary
    ∷ codes "inspect"
    ∷ codes "chart"
    ∷ chart
    ∷ codes "|"
    ∷ codes "grep"
    ∷ codes "version:"
    ∷ [])

-- The name of a template's file, with an error if the command has failed.
abbrev pub template_error : {S : Type 0} → Text → Text → Result Text × S → Named × S
template_error binary name (r, s) = (
  (name, elim r [ ok out ↦ none | err e ↦ some (message (codes "failed to execute " ++ binary)) ]),
  s,
)

abbrev pub named : {S : Type 0} → Text → Option Error × S → Outcome Named × S
named name (e, s) = (returned (name, e), s)

module _ {S : Type 0} (m : Machine S) where
  -- ToYaml, of what yaml.Marshal gives
  unfoldable pub to_yaml : Result Text → Text → S → Option Error × S
  to_yaml (err e) file s = (some e, s)
  to_yaml (ok text) file s = m.write_file file text s

  -- GenerateValueFile: if there is no temporary file, the log asks it for its name and panics.
  unfoldable pub generate_value_file : Text → Result Text → S → Outcome Named × S
  generate_value_file temp_dir yaml s =
      let (f, s1) = m.temp_file temp_dir (codes "values") s in
      elim f [ err e ↦ (panicked, s1) | ok name ↦ named name (to_yaml yaml name s1) ]

  -- `bash -c` with a command, and its output.
  abbrev pub run_shell : Text → S → Result Text × S
  run_shell command s =
      let (r, s1) = m.run (codes "bash") (codes "-c" ∷ command ∷ []) s in (output_of r, s1)

  -- GenerateHelmTemplate
  unfoldable pub generate_helm_template : Text → Text → Text → Text → List Text → S → Named × S
  generate_helm_template name namespace value_file chart_name options s =
      let (f, s1) = m.temp_file [] (name ++ codes ".yaml") s in
      elim f [
        | err e ↦ (([], some e), s1)
        | ok file ↦ (elim (m.look_path helm_cmd s1) [
          | err e ↦ ((file, some e), s1)
          | ok binary ↦ (elim (m.stat chart_name s1) [
            | some e ↦ ((file, some e), s1)
            | none ↦ template_error binary file (
                run_shell (template_args binary name namespace value_file chart_name options file)
                  s1)
          ])
        ])
      ]

  abbrev pub read_version : Result Text × S → Result Text × S
  read_version (r, s) = (elim r [ err e ↦ err e | ok out ↦ first_line (split b'\n' out) ], s)

  -- GetChartVersion
  unfoldable pub get_chart_version : Text → S → Result Text × S
  get_chart_version chart s = elim (m.look_path helm_cmd s) [
    | err e ↦ (err e, s)
    | ok binary ↦ (elim (m.stat chart s) [
      | some e ↦ (err e, s)
      | none ↦ read_version (run_shell (inspect_command binary chart) s)
    ])
  ]
