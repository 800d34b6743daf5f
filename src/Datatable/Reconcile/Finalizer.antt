-- ===== src/Datatable/Reconcile/Finalizer.antt =====
-- The finalizer of a DataTable in pkg/controllers/v1alpha1/datatable/datatable_controller.go, and
-- the string helpers of pkg/utils/crtl_utils.go that it uses.
use fluid_data_table.Base.{
  true, false, List, [], ◌∷◌, ◌++◌, ◌≡◌, refl, arith, ◌⊎◌, inl, inr, if◌then◌else◌, not, ◌&&◌,
  Option-cases, Bool-cases,
}
use fluid_data_table.Base.Text.{Text, str_eq, str_eq_iff, str_eq_refl}
use fluid_data_table.Base.Result.{Error, Result-cases}
use fluid_data_table.Datatable.World.{
  Env, State, update_finalizers, check, returned, failed, panicked, Prog, continue, ◌>>=◌,
}
use fluid_data_table.Datatable.World.Laws.{outcome-cases}
use fluid_data_table.Datatable.Schema.{change_schema_url_for_recover}
use fluid_data_table.Datatable.Reconcile.{
  DataTable, contains_string, remove_string, finalizer_name, write_finalizers,
  add_finalizer_and_requeue, reconcile_datatable_deletion, reconcile_datatable, reconcile_admitted,
  first_pod, admit_if, connected,
}

-- RemoveString takes out every occurrence of a string and keeps all others.
pub contains_string-remove_string :
    (slice : List Text) (s t : Text)
    → contains_string (remove_string slice s) t ≡ (not (str_eq s t) && contains_string slice t)
unfolding contains_string remove_string
contains_string-remove_string [] s t = ground arith
contains_string-remove_string (item ∷ slice) s t = ground (
  arith,
  contains_string-remove_string slice s t,
  str_eq_iff item s,
  str_eq_iff s t,
  str_eq_iff item t,
)

contains_string-append :
    (slice : List Text) (s : Text) → contains_string (slice ++ (s ∷ [])) s ≡ true
unfolding contains_string
contains_string-append [] s = ground (arith, str_eq_refl s)
contains_string-append (item ∷ slice) s = ground (arith, contains_string-append slice s)

removed : (slice : List Text) (s : Text) → contains_string (remove_string slice s) s ≡ false
removed slice s = ground (arith, contains_string-remove_string slice s s, str_eq_refl s)

module _ (env : Env) (retry_on_conflict : Prog (Unit {0}) → Prog (Unit {0})) where
  add_finalizer_history :
      (datatable : DataTable) (s : State)
      → (add_finalizer_and_requeue env retry_on_conflict datatable s).1.history
        ≡ update_finalizers (datatable.finalizers ++ (finalizer_name ∷ [])) ∷ s.history
  unfolding add_finalizer_and_requeue write_finalizers ◌>>=◌
  add_finalizer_history datatable s = ground arith

  -- A new DataTable is not cached before it has the finalizer: where it is not being deleted, is not
  -- admitted by score and has no finalizer, whatever the reconciliation comes to, it makes no call
  -- but the update of the finalizers, and the updated list has the finalizer.
  pub reconcile_datatable_unfinalized :
      (datatable : DataTable) (s : State)
      → datatable.deleting ≡ false
      → datatable.intelligent_cache ≡ false
      → contains_string datatable.finalizers finalizer_name ≡ false
      → (((reconcile_datatable env retry_on_conflict datatable s).1 ≡ s)
          ⊎ (finalizers : List Text) × (contains_string finalizers finalizer_name ≡ true)
            × ((reconcile_datatable env retry_on_conflict datatable s).1.history
                ≡ update_finalizers finalizers ∷ s.history))
  unfolding reconcile_datatable reconcile_admitted ◌>>=◌ add_finalizer_and_requeue connected
  reconcile_datatable_unfinalized datatable s h1 h2 h3 =
      elim (Result-cases (first_pod env retry_on_conflict (env.list_runtimes s.history))) [
        | inr (e, k) ↦ inl (rw (k, first_pod) refl)
        | inl (pod, k) ↦ (elim (Option-cases (env.connect s.history)) [
          | inr (e, j) ↦ inl (
              rw (k, first_pod)
                (rw (j, connected)
                  (elim (Bool-cases (env.close_panics s.history)) [
                    | inl p ↦ rw (p, if◌then◌else◌) refl
                    | inr p ↦ rw (p, if◌then◌else◌) refl
                  ])))
          | inl j ↦ inr (
            datatable.finalizers ++ (finalizer_name ∷ []),
            contains_string-append datatable.finalizers finalizer_name,
            rw (k, first_pod)
                (rw (j, connected)
                  (rw (h2, admit_if)
                    (rw (h1, if◌then◌else◌) (rw (h3, not) (add_finalizer_history datatable s))))),
          )
        ])
      ]

  abbrev removal : DataTable → List Text
  removal datatable = remove_string datatable.finalizers finalizer_name

  deletion_recovered :
      (datatable : DataTable) (s s1 : State)
      → datatable.deleting ≡ true
      → change_schema_url_for_recover env retry_on_conflict datatable.labels s ≡ (returned tt, s1)
      → (reconcile_datatable_deletion env retry_on_conflict datatable s).1.history
        ≡ update_finalizers (removal datatable) ∷ s1.history
  unfolding reconcile_datatable_deletion write_finalizers ◌>>=◌
  deletion_recovered datatable s s1 h1 h2 =
      rw (h2, continue)
        (rw (h1, if◌then◌else◌)
          (elim (Option-cases (env.update_datatable s1.history)) [
            | inr (e, j) ↦ rw (j, check) refl
            | inl j ↦ rw (j, check) refl
          ]))

  -- A DataTable that is deleted keeps its finalizer until the recovery of its tables has returned. If
  -- the recovery returns, then the one call that the deletion makes after it is the update that takes
  -- the finalizer out, whatever that update answers; if the recovery fails or panics, then so does
  -- the deletion, in the same state: no call follows.
  pub reconcile_datatable_deletion_recovers :
      (datatable : DataTable) (s : State)
      → datatable.deleting ≡ true
      → (((s1 : State) × (change_schema_url_for_recover env retry_on_conflict datatable.labels s
              ≡ (returned tt, s1))
            × ((reconcile_datatable_deletion env retry_on_conflict datatable s).1.history
                ≡ update_finalizers (remove_string datatable.finalizers finalizer_name)
                  ∷ s1.history)
            × (contains_string (remove_string datatable.finalizers finalizer_name) finalizer_name
                ≡ false))
          ⊎ (((e : Error) × (s1 : State) × (change_schema_url_for_recover env retry_on_conflict
                    datatable.labels s
                  ≡ (failed e, s1))
                × (reconcile_datatable_deletion env retry_on_conflict datatable s ≡ (failed e, s1)))
              ⊎ ((s1 : State) × (change_schema_url_for_recover env retry_on_conflict
                      datatable.labels s
                    ≡ (panicked, s1))
                  × (reconcile_datatable_deletion env retry_on_conflict datatable s
                      ≡ (panicked, s1)))))
  unfolding reconcile_datatable_deletion ◌>>=◌
  reconcile_datatable_deletion_recovers datatable s h =
      elim (outcome-cases
        (change_schema_url_for_recover env retry_on_conflict datatable.labels s)) [
          | inl (_, s1, k) ↦ inl (
            s1,
            k,
            deletion_recovered datatable s s1 h k,
            removed datatable.finalizers finalizer_name,
          )
          | inr (inl (e, s1, k)) ↦ inr (inl (e, s1, k, rw (k, continue) refl))
          | inr (inr (s1, k)) ↦ inr (inr (s1, k, rw (k, continue) refl))
        ]
