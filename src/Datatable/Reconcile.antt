-- ===== src/Datatable/Reconcile.antt =====
-- pkg/controllers/v1alpha1/datatable/datatable_controller.go: one reconciliation of a DataTable.
pub mod Finalizer
use fluid_data_table.Base.{
  ℕ, Bool, true, false, not, ◌&&◌, ◌==◌, Option, none, some, List, [], ◌∷◌, ◌++◌, if◌then◌else◌,
  is_empty, any, keep,
}
use fluid_data_table.Base.Text.{Text, codes, str_eq}
use fluid_data_table.Base.Dict.{Dict, insert}
use fluid_data_table.Base.Result.{Error, Result, ok, err, message, is_not_found}
use fluid_data_table.Datatable.World.{
  Env, State, Outcome, returned, failed, panicked, Prog, pure, fail, attempt, lift, PodRef,
  update_finalizers, record_event, check, ◌>>=◌, ◌>>◌,
}
use fluid_data_table.Datatable.Exec.{master_pod}
use fluid_data_table.Datatable.Hive.{Table, Schema}
use fluid_data_table.Datatable.Schema.{
  change_schema_url_for_cache, change_schema_url_for_recover, write_labels, same_labels,
}
use fluid_data_table.Datatable.Admission.{admit_schemas}

-- The fields of a DataTable that the controller reads; `deleting` says that it has a deletion
-- timestamp, and `status_schemas` how many schemas its status lists.
pub record DataTable : Type 0 where
  pub schemas : List Schema
  pub intelligent_cache : Bool
  pub labels : Dict Text
  pub finalizers : List Text
  pub generation : ℕ
  pub deleting : Bool
  pub status_schemas : ℕ

-- ctrl.Result
pub record Requeue : Type 0 where
  pub requeue : Bool
  -- in seconds
  pub requeue_after : ℕ

-- NoRequeue, RequeueImmediately and RequeueAfterInterval of pkg/utils/crtl_utils.go
abbrev pub no_requeue : Requeue
no_requeue = record { requeue = false; requeue_after = 0 }

abbrev pub requeue_immediately : Requeue
requeue_immediately = record { requeue = true; requeue_after = 0 }

abbrev pub requeue_after_interval : ℕ → Requeue
requeue_after_interval seconds = record { requeue = false; requeue_after = seconds }

-- RequeueImmediatelyUnlessGenerationChanged
unfoldable pub requeue_immediately_unless_generation_changed : ℕ → ℕ → Requeue
requeue_immediately_unless_generation_changed previous current =
    if previous == current then requeue_immediately else no_requeue

-- ContainsString and RemoveString
unfoldable pub contains_string : List Text → Text → Bool
contains_string [] s = false
contains_string (item ∷ slice) s = if str_eq item s then true else contains_string slice s

unfoldable pub remove_string : List Text → Text → List Text
remove_string [] s = []
remove_string (item ∷ slice) s =
    let rest = remove_string slice s in if str_eq item s then rest else item ∷ rest

abbrev pub finalizer_name : Text
finalizer_name = codes "datatable-controller-finalizer"

module _ (env : Env) (retry_on_conflict : Prog (Unit {0}) → Prog (Unit {0})) where
  -- The update of the finalizers.
  unfoldable pub write_finalizers : List Text → Prog (Unit {0})
  write_finalizers finalizers s =
      check (env.update_datatable s.history) (record_event (update_finalizers finalizers) s)

  -- AddFinalizerAndRequeue
  unfoldable pub add_finalizer_and_requeue : DataTable → Prog Requeue
  add_finalizer_and_requeue datatable = do
    write_finalizers (datatable.finalizers ++ (finalizer_name ∷ []))
    λ s. (
      returned (
          requeue_immediately_unless_generation_changed datatable.generation
            (env.generation s.history)),
      s,
    )

  -- ReconcileDatatableDeletion
  unfoldable pub reconcile_datatable_deletion : DataTable → Prog Requeue
  reconcile_datatable_deletion datatable = do
    change_schema_url_for_recover env retry_on_conflict datatable.labels
    (if datatable.deleting
        then write_finalizers (remove_string datatable.finalizers finalizer_name)
        else pure tt)
    pure no_requeue

  -- The loop over the schemas: the labels of all tables.
  unfoldable pub cache_schemas : List Text → List Schema → Prog (List Text)
  cache_schemas labels [] = pure labels
  cache_schemas labels (schema ∷ schemas) = do
    new ← change_schema_url_for_cache env schema
    cache_schemas (labels ++ new) schemas

  abbrev pub label_all : List Text → Dict Text → Dict Text
  label_all [] m = m
  label_all (label ∷ labels) m = label_all labels (insert label (codes "true") m)

  -- The first write: the labels replace what the DataTable had, and the status gets the schemas. A
  -- DataTable without labels has a nil map, which differs from the empty one.
  unfoldable pub first_labels : List Text → Prog (Unit {0})
  first_labels labels s = elim (env.get_labels s.history) [
    | err e ↦ (failed e, s)
    | ok fresh ↦
        write_labels env
          (env.same_schemas s.history
            && (not (is_empty fresh) && same_labels env fresh (label_all labels [])))
          (label_all labels []) s
  ]

  -- The location changes of a DataTable that stays, and the labels of a new one.
  unfoldable pub cache_datatable : DataTable → Prog Requeue
  cache_datatable datatable = do
    labels ← cache_schemas [] datatable.schemas
    elim (datatable.status_schemas == 0) [
      | true ↦ (do retry_on_conflict (first_labels labels); pure no_requeue)
      | false ↦ pure no_requeue
    ]

  abbrev pub admit_if : Bool → PodRef → List Schema → Prog (Unit {0})
  admit_if true pod schemas = admit_schemas env pod schemas
  admit_if false pod schemas = pure tt

  -- What follows the admission.
  unfoldable pub reconcile_admitted : DataTable → Prog Requeue
  reconcile_admitted datatable =
      if datatable.deleting
      then reconcile_datatable_deletion datatable
      else if not (contains_string datatable.finalizers finalizer_name)
      then add_finalizer_and_requeue datatable
      else cache_datatable datatable

  abbrev pub first_pod : Result (List (Text × Text)) → Result PodRef
  first_pod (err e) = err e
  first_pod (ok []) = err (message (codes "fail to get the alluxio runtime"))
  first_pod (ok ((name, ns) ∷ _)) = ok (master_pod name ns)

  -- The answer of Connect. After an error the connection is closed, although there is none.
  unfoldable pub connected : Option Error → Prog (Unit {0})
  connected none s = (returned tt, s)
  connected (some e) s = if env.close_panics s.history then (panicked, s) else (failed e, s)

  -- reconcileDataTable
  unfoldable pub reconcile_datatable : DataTable → Prog Requeue
  reconcile_datatable datatable = do
    pod ← λ s. lift (first_pod (env.list_runtimes s.history)) s
    λ s. connected (env.connect s.history) s
    admit_if datatable.intelligent_cache pod datatable.schemas
    reconcile_admitted datatable

  -- Reconcile: a DataTable that is not found is left alone.
  unfoldable pub reconcile : Result DataTable → Prog Requeue
  reconcile (ok datatable) = reconcile_datatable datatable
  reconcile (err e) = if is_not_found e then pure no_requeue else fail e
