-- ===== src/Runtime/Engines.antt =====
-- The engines of the Alluxio controller: pkg/ddc/factory.go, and GetOrCreateEngine, RemoveEngine and
-- Reconcile of pkg/controllers/v1alpha1/alluxio.
pub mod Ids
pub mod Reach
use fluid_data_table.Base.{List, ◌∷◌, ◌++◌, Option, none, some, if◌then◌else◌}
use fluid_data_table.Base.Text.{Text, codes, str_eq}
use fluid_data_table.Base.Dict.{Dict, lookup, insert, erase}
use fluid_data_table.Base.Result.{Error, Result, ok, err, message, is_not_found}
use fluid_data_table.Datatable.Reconcile.{Requeue, no_requeue}

-- What ReconcileRequestContext says of the runtime.
pub record Request : Type 0 where
  pub namespace : Text
  pub name : Text
  pub runtime_type : Text

-- GenerateEngineID
unfoldable pub generate_engine_id : Request → Text
generate_engine_id request = request.namespace ++ (codes "-" ++ request.name)

-- RemoveEngine
unfoldable pub remove_engine {ℓ} : {E : Type ℓ} → Request → Dict E → Dict E
remove_engine request engines = erase (generate_engine_id request) engines

-- Engines of a type, and the state of the cluster.
module _ {E S : Type 0} (build : Text → Request → S → Result E × S) where
  -- CreateEngine: `build` is alluxio.Build, and there is no other runtime type.
  unfoldable pub create_engine : Text → Request → S → Result E × S
  create_engine id request s =
      if str_eq request.runtime_type (codes "alluxio") then build id request s else (
        err (
            message (
              codes "failed to build the engine due to the type "
              ++ (request.namespace ++ (codes "/" ++ (request.name ++ codes " is not found"))))),
        s,
      )

  -- GetOrCreateEngine, under the lock of the map
  unfoldable pub get_or_create_engine : Request → Dict E × S → Result E × (Dict E × S)
  get_or_create_engine request (engines, s) =
      let id = generate_engine_id request in
      elim (lookup id engines) [
        | some engine ↦ (ok engine, (engines, s))
        | none ↦
            (let (r, s1) = create_engine id request s in
              elim r [
                | err e ↦ (err e, (engines, s1))
                | ok engine ↦ (ok engine, (insert id engine engines, s1))
              ])
      ]

-- Reconcile of the Alluxio controller: `internal` is ReconcileInternal of the runtime that is read.
unfoldable pub reconcile_alluxio :
    {S R : Type 0} → (S → Result R) → (R → S → Result Requeue × S) → S → Result Requeue × S
reconcile_alluxio get_runtime internal s = elim (get_runtime s) [
  | err e ↦ if is_not_found e then (ok no_requeue, s) else (err e, s)
  | ok runtime ↦ internal runtime s
]
