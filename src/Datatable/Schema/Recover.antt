-- ===== src/Datatable/Schema/Recover.antt =====
-- ChangeSchemaURLForRecover of pkg/utils/hive/hiveClient.go: which tables are moved back, and what
-- becomes of errors; and the loop over partitions of ChangeSchemaURLForCache.
use fluid_data_table.Base.{true, List, [], ◌∷◌, ◌++◌, ◌≡◌, refl, inl, inr}
use fluid_data_table.Base.Text.{Text}
use fluid_data_table.Base.Dict.{Dict}
use fluid_data_table.Base.Result.{Error, Result, ok, err}
use fluid_data_table.Datatable.World.{Env, State, returned, failed, Prog, attempt, ◌>>=◌, ◌>>◌}
use fluid_data_table.Datatable.World.Laws.{outcome-cases}
use fluid_data_table.Datatable.Hive.{change_partition_table_url}
use fluid_data_table.Datatable.Schema.{
  recover_labels, change_schema_url_for_recover, clear_labels, cache_partitions,
}

module _ (env : Env) where
  -- An error of the loop over the labels is returned, and ends the recovery where it stands: the
  -- labels are not touched before every table is back.
  pub change_schema_url_for_recover_fails :
      (retry_on_conflict : Prog (Unit {0}) → Prog (Unit {0})) (labels : Dict Text) (s s1 : State)
      (e : Error)
      → recover_labels env labels s ≡ (failed e, s1)
      → change_schema_url_for_recover env retry_on_conflict labels s ≡ (failed e, s1)
  unfolding change_schema_url_for_recover ◌>>=◌
  change_schema_url_for_recover_fails retry_on_conflict labels s s1 e h = rw h refl

  -- An error of the write of the labels is not returned: once every table is back, the recovery
  -- returns even if the labels could not be cleared.
  pub change_schema_url_for_recover_drops_error :
      (retry_on_conflict : Prog (Unit {0}) → Prog (Unit {0})) (labels : Dict Text) (s s1 s2 : State)
      (e : Error)
      → recover_labels env labels s ≡ (returned tt, s1)
      → retry_on_conflict (clear_labels env labels) s1 ≡ (failed e, s2)
      → change_schema_url_for_recover env retry_on_conflict labels s ≡ (returned tt, s2)
  unfolding change_schema_url_for_recover ◌>>=◌
  change_schema_url_for_recover_drops_error retry_on_conflict labels s s1 s2 e h k =
      rw h (rw k refl)

  -- Of the partitions of a table only the error of the last one counts: with one more partition at
  -- the end, the loop has the result of that one, whatever came before it, unless the code panics.
  pub cache_partitions-append :
      (schema_name table_name : Text) (last : Result (Unit {0})) (urls : List Text) (url : Text)
      (s : State)
      → cache_partitions env schema_name table_name last (urls ++ (url ∷ [])) s
        ≡ (cache_partitions env schema_name table_name last urls
              >> attempt (change_partition_table_url env schema_name table_name url true))
            s
  unfolding cache_partitions ◌>>=◌
  cache_partitions-append schema_name table_name last [] url s =
      elim (outcome-cases (change_partition_table_url env schema_name table_name url true s)) [
        | inl (a, s1, e) ↦ rw e refl
        | inr (inl (a, s1, e)) ↦ rw e refl
        | inr (inr (s1, e)) ↦ rw e refl
      ]
  cache_partitions-append schema_name table_name last (u ∷ urls) url s =
      elim (outcome-cases (change_partition_table_url env schema_name table_name u true s)) [
        | inl (a, s1, e) ↦ rw e (cache_partitions-append schema_name table_name (ok a) urls url s1)
        | inr (inl (a, s1, e)) ↦
            rw e (cache_partitions-append schema_name table_name (err a) urls url s1)
        | inr (inr (s1, e)) ↦ rw e refl
      ]
