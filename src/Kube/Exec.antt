-- ===== src/Kube/Exec.antt =====
-- pkg/utils/kubeclient/exec.go: commands in containers, with Home of pkg/utils/home.go and PathExists
-- of pkg/utils/charts.go, which look for the client's configuration. The stream to the API server is
-- a parameter.
pub mod Clients
use fluid_data_table.Base.{
  Bool, true, false, Option, none, some, List, [], ◌∷◌, ◌++◌, if◌then◌else◌, is_empty,
}
use fluid_data_table.Base.Text.{Text, codes, has_prefix, trim_right}
use fluid_data_table.Base.Strconv.{trim_space}
use fluid_data_table.Base.Result.{Error, Result, ok, err, message}
use fluid_data_table.Datatable.World.{Outcome, returned, panicked}

-- ExecOptions
pub record ExecOptions : Type 0 where
  pub command : List Text
  pub namespace : Text
  pub pod_name : Text
  pub container_name : Text
  pub stdin : Option Text
  pub capture_stdout : Bool
  pub capture_stderr : Bool
  pub preserve_whitespace : Bool

-- The two outputs and the error of a command.
pub record Streams : Type 0 where
  pub stdout : Text
  pub stderr : Text
  pub error : Option Error

-- The global variables of the package, over a type of client configurations.
pub record Globals (C : Type 0) : Type 0 where
  pub clientset : Bool
  pub rest_config : Option C
  pub kubeconfig_path : Text

-- What the package calls. Files, variables and the user do not change between two calls.
pub record ExecApi (C S : Type 0) : Type 0 where
  -- user.Current, and the answer of the shell to `echo ~$USER`
  pub current_home : Option Text
  pub shell_home : Result Text
  pub is_windows : Bool
  pub getenv : Text → Text
  -- os.Stat, and os.IsExist of an error
  pub stat : Text → Option Error
  pub is_exist : Error → Bool
  -- clientcmd.BuildConfigFromFlags, and the error of kubernetes.NewForConfig
  pub build_config : Text → Result C
  pub new_for_config : C → Option Error
  -- path.Join
  pub path_join : Text → Text → Text
  -- execute
  pub stream : ExecOptions → S → Streams × S
  -- the names of a pod's containers, by namespace and name
  pub get_containers : Text → Text → S → Result (List Text)

-- PathExists
abbrev pub path_exists : (Text → Option Error) → (Error → Bool) → Text → Bool
path_exists stat is_exist path = elim (stat path) [ none ↦ true | some e ↦ is_exist e ]

abbrev pub failed_with : Option Error → Streams
failed_with e = record { stdout = []; stderr = []; error = e }

module _ {C S : Type 0} (api : ExecApi C S) where
  abbrev pub non_blank : Text → Result Text
  non_blank text =
      if is_empty text
      then err (message (codes "blank output when reading home directory"))
      else ok text

  -- homeUnix
  unfoldable pub home_unix : Result Text
  home_unix =
      if is_empty (api.getenv (codes "HOME"))
      then (elim api.shell_home [ err e ↦ err e | ok out ↦ non_blank (trim_space out) ])
      else ok (api.getenv (codes "HOME"))

  abbrev pub drive_home : Text → Text → Text
  drive_home drive path =
      if is_empty drive
      then api.getenv (codes "USERPROFILE")
      else if is_empty path
      then api.getenv (codes "USERPROFILE")
      else drive ++ path

  -- homeWindows
  unfoldable pub home_windows : Result Text
  home_windows =
      let home : Text =
        drive_home (api.getenv (codes "HOMEDRIVE")) (api.getenv (codes "HOMEPATH")) in
      if is_empty home
      then err (message (codes "HOMEDRIVE, HOMEPATH, and USERPROFILE are blank"))
      else ok home

  -- Home
  unfoldable pub home : Result Text
  home = elim api.current_home [
    | some dir ↦ ok dir
    | none ↦ if api.is_windows then home_windows else home_unix
  ]

  -- The path of the configuration: that of the variable if there is one, and none if there is no
  -- such file.
  unfoldable pub config_path : Text → Text
  config_path dir =
      let named : Text = api.getenv (codes "KUBECONFIG") in
      let path : Text =
        if is_empty named then api.path_join dir (codes ".kube/config") else named in
      if path_exists api.stat api.is_exist path then path else []

  -- The clients of initClient, once there is a configuration.
  abbrev pub make_clientset : C → Globals C → Option Error × Globals C
  make_clientset config g = if g.clientset then (none, g) else (elim (api.new_for_config config) [
    | some e ↦ (some e, g)
    | none ↦ (none, record g { clientset = true })
  ])

  -- initClient
  unfoldable pub init_client : Globals C → Option Error × Globals C
  init_client g = elim g.rest_config [
    | some config ↦ make_clientset config g
    | none ↦ (elim home [
      | err e ↦ (some e, g)
      | ok dir ↦
          (let g1 : Globals C = record g { kubeconfig_path = config_path dir } in
            elim (api.build_config (config_path dir)) [
              | err e ↦ (some e, g1)
              | ok config ↦ make_clientset config (record g1 { rest_config = some config })
            ])
    ])
  ]

  abbrev pub trim_unless : Bool → Streams → Streams
  trim_unless true r = r
  trim_unless false r = record r { stdout = trim_space r.stdout; stderr = trim_space r.stderr }

  -- ExecWithOptions
  unfoldable pub exec_with_options : ExecOptions → Globals C × S → Streams × (Globals C × S)
  exec_with_options options (g, s) =
      let (e, g1) = init_client g in
      elim e [
        | some x ↦ (failed_with (some x), (g1, s))
        | none ↦
            (let (r, s1) = api.stream options s in
              (trim_unless options.preserve_whitespace r, (g1, s1)))
      ]

  -- ExecCommandInContainerWithFullOutput
  unfoldable pub exec_command_in_container_with_full_output :
      Text → Text → Text → List Text → Globals C × S → Streams × (Globals C × S)
  exec_command_in_container_with_full_output pod_name container_name namespace command =
      exec_with_options (record {
        command = command;
        namespace = namespace;
        pod_name = pod_name;
        container_name = container_name;
        stdin = none;
        capture_stdout = true;
        capture_stderr = true;
        preserve_whitespace = false;
      })

  -- ExecCommandInContainer
  abbrev pub exec_command_in_container :
      Text → Text → Text → List Text → Globals C × S → Streams × (Globals C × S)
  exec_command_in_container = exec_command_in_container_with_full_output

  -- ExecShellInContainer
  unfoldable pub exec_shell_in_container :
      Text → Text → Text → Text → Globals C × S → Streams × (Globals C × S)
  exec_shell_in_container pod_name container_name namespace command =
      exec_command_in_container pod_name container_name namespace
        (codes "/bin/sh" ∷ codes "-c" ∷ command ∷ [])

  abbrev pub returns {ℓ} : {A : Type ℓ} → Streams × A → Outcome Streams × A
  returns (r, a) = (returned r, a)

  -- ExecCommandInPod: it uses the client as it is, and the first container.
  unfoldable pub exec_command_in_pod :
      Text → Text → List Text → Globals C × S → Outcome Streams × (Globals C × S)
  exec_command_in_pod pod_name namespace command (g, s) =
      if g.clientset
      then (elim (api.get_containers namespace pod_name s) [
        | err e ↦ (
          returned
              (record { stdout = []; stderr = codes "Failed to find the pod"; error = some e }),
          (g, s),
        )
        | ok [] ↦ (panicked, (g, s))
        | ok (container ∷ containers) ↦
            returns (exec_command_in_container pod_name container namespace command (g, s))
      ])
      else (panicked, (g, s))
