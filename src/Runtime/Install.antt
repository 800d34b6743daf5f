-- ===== src/Runtime/Install.antt =====
-- pkg/ddc/alluxio/master_internal.go: the set-up of the master by Helm, and how it fits with
-- destroyMaster of shutdown.go.
pub mod Selector
use fluid_data_table.Base.{
  inl, inr, Bool, true, false, Option, none, some, ◌≡◌, ◌++◌, arith, if◌then◌else◌,
}
use fluid_data_table.Base.Text.{Text, codes}
use fluid_data_table.Base.Result.{Error, Result, ok, err, is_not_found, Result-cases}
use fluid_data_table.Process.{Machine}
use fluid_data_table.Runtime.Types.{Checked, Step}
use fluid_data_table.Helm.{install_release, check_release, delete_release, delete_release_if_exists}
use fluid_data_table.Helm.Releases.{
  HelmLaws, check_release_lem, install_release-installed, delete_release_if_exists-installed,
}
use fluid_data_table.Runtime.Status.{Engine, setup_master}
use fluid_data_table.Runtime.Shutdown.{ShutdownApi, destroy_master}

-- The chart of an engine's cluster.
abbrev pub chart_path : Text
chart_path = codes "/data1/wwx/Fluid-DataTable-main/charts/alluxio"

-- getConfigmapName
unfoldable pub get_configmap_name : Text → Text → Text
get_configmap_name name runtime_type = name ++ (codes "-" ++ (runtime_type ++ codes "-values"))

-- generateAlluxioValueFile: the body is commented out, so it returns an empty name.
abbrev pub generate_alluxio_value_file : Result Text
generate_alluxio_value_file = ok (codes "")

-- `get_runtime` is getRuntime of the engine, of which the name of the runtime is used.
module _ {S : Type 0} (m : Machine S) (get_runtime : S → Result Text) (name namespace : Text) where
  abbrev pub install_unless : Text → Text → Checked × S → Option Error × S
  install_unless value_file runtime_name (c, s) = elim c.error [
    | some e ↦ (some e, s)
    | none ↦
        if c.ready
        then (none, s)
        else install_release m name namespace value_file chart_path runtime_name s
  ]

  -- setupMasterInternal
  unfoldable pub setup_master_internal : Step S
  setup_master_internal s = elim (get_runtime s) [
    | err e ↦ (some e, s)
    | ok runtime_name ↦ (elim generate_alluxio_value_file [
      | err e ↦ (some e, s)
      | ok value_file ↦ install_unless value_file runtime_name (check_release m name namespace s)
    ])
  ]

-- The calls of a shutdown, with those of Helm.
abbrev pub as_result : {S : Type 0} → Checked × S → Result Bool × S
as_result (c, s) = (elim c.error [ none ↦ ok c.ready | some e ↦ err e ], s)

abbrev pub with_helm : {S : Type 0} → Machine S → Text → Text → ShutdownApi S → ShutdownApi S
with_helm m name namespace api = record api {
  check_release = λ s. as_result (check_release m name namespace s);
  delete_release = delete_release m name namespace;
}

module _ {S : Type 0} {m : Machine S} {installed : Text → Text → S → Bool}
    (laws : HelmLaws m installed) (get_runtime : S → Result Text) (name namespace : Text) where
  setup_of_runtime :
      (s : S) (r : Text)
      → get_runtime s ≡ ok r
      → setup_master_internal m get_runtime name namespace s ≡ (
          if installed name namespace s
          then (none, s)
          else install_release m name namespace (codes "") chart_path r s)
  unfolding setup_master_internal
  setup_of_runtime s r h = ground (arith, check_release_lem laws name namespace s)

  -- Where Helm keeps its promises, a set-up of the master that returns no error has installed the
  -- release; and as long as the runtime can be read, a second set-up returns no error and changes
  -- nothing.
  pub setup_master_internal-installed :
      (s s1 : S) (r r1 : Text)
      → get_runtime s ≡ ok r
      → get_runtime s1 ≡ ok r1
      → setup_master_internal m get_runtime name namespace s ≡ (none, s1)
      → (installed name namespace s1 ≡ true)
        × (setup_master_internal m get_runtime name namespace s1 ≡ (none, s1))
  setup_master_internal-installed s s1 r r1 h k e = ground (
    arith,
    setup_of_runtime s r,
    setup_of_runtime s1 r1,
    install_release-installed laws name namespace (codes "") chart_path r s {s1 = s1},
  )

-- destroyMaster does with the release what DeleteReleaseIfExists does.
destroy_master-delete_release_if_exists :
    {S : Type 0} (m : Machine S) (name namespace : Text) (api : ShutdownApi S) (s : S)
    → destroy_master (with_helm m name namespace api) s
      ≡ delete_release_if_exists m name namespace s
unfolding destroy_master delete_release_if_exists
destroy_master-delete_release_if_exists m name namespace api s = ground arith

-- Where Helm keeps its promises, destroyMaster that returns no error has removed the release,
-- whether or not it was there, and after that a second destroyMaster returns no error and changes
-- nothing.
pub destroy_master-installed :
    {S : Type 0} {m : Machine S} {installed : Text → Text → S → Bool} (laws : HelmLaws m installed)
    (name namespace : Text) (api : ShutdownApi S) (s s1 : S)
    → destroy_master (with_helm m name namespace api) s ≡ (none, s1)
    → (installed name namespace s1 ≡ false)
      × (destroy_master (with_helm m name namespace api) s1 ≡ (none, s1))
destroy_master-installed {m = m} laws name namespace api s s1 h =
    rw (destroy_master-delete_release_if_exists m name namespace api s1) (
      delete_release_if_exists-installed laws name namespace s s1
        (rw (← destroy_master-delete_release_if_exists m name namespace api s) h))

-- The engine of a runtime with the set-up of its master by Helm, and the names that it takes.
abbrev pub with_install :
    {S : Type 0} → Machine S → (S → Result Text) → Text → Text → Text → Engine S → Engine S
with_install m get_runtime name namespace runtime_type e = record e {
  setup_master_internal = setup_master_internal m get_runtime name namespace;
  configmap_name = get_configmap_name name runtime_type;
}

-- Where Helm keeps its promises and the stateful set of the master is missing, a SetupMaster that
-- returns no error has installed the release, and leaves the status of the runtime to a later call.
pub setup_master-installed :
    {S : Type 0} {m : Machine S} {installed : Text → Text → S → Bool} (laws : HelmLaws m installed)
    (get_runtime : S → Result Text) (name namespace runtime_type : Text) (e : Engine S)
    (s s0 s1 : S) (x : Error)
    → e.cluster.get_master s ≡ (err x, s0)
    → is_not_found x ≡ true
    → setup_master (with_install m get_runtime name namespace runtime_type e) s ≡ (none, s1)
    → installed name namespace s1 ≡ true
unfolding setup_master
setup_master-installed {m = m} laws get_runtime name namespace runtime_type e s s0 s1 x h n k =
    elim (Result-cases (get_runtime s0)) [
      | inl (r, g) ↦ ground (
        arith,
        setup_of_runtime laws get_runtime name namespace s0 r,
        install_release-installed laws name namespace (codes "") chart_path r s0 {s1 = s1},
      )
      | inr (y, g) ↦ unfold setup_master_internal in ground arith
    ]
