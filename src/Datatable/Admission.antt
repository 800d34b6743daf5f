-- ===== src/Datatable/Admission.antt =====
-- The admission of tables to the cache in reconcileDataTable of
-- pkg/controllers/v1alpha1/datatable/datatable_controller.go: which cached tables make room.
pub mod Eviction
pub mod Space
use fluid_data_table.Base.{
  ℕ, Bool, true, false, not, Option, none, some, List, [], ◌∷◌, ◌++◌, if◌then◌else◌,
}
use fluid_data_table.Base.Text.{Text, codes, str_eq, split}
use fluid_data_table.Base.Int.{ℤ, ltb_ℤ, add64}
use fluid_data_table.Base.Result.{Error, Result, ok, err}
use fluid_data_table.Datatable.World.{
  Env, PodRef, State, Outcome, returned, panicked, Prog, pure, panic, attempt, ◌>>=◌, ◌>>◌,
}
use fluid_data_table.Datatable.Exec.{Sized, exec_alluxio_free_size, exec_alluxio_table_unmount}
use fluid_data_table.Datatable.Redis.{is_in_zset, get_value, is_exist_in_alluxio, get_size}
use fluid_data_table.Datatable.Hive.{Table, Schema, redis_key, get_table_size}

-- The loop over the tables by ascending score: what it frees, from what it has already chosen. It
-- only reads, so what Redis holds is the same in all its rounds.
unfoldable pub eviction_loop :
    Text → (Text → Bool) → (Text → ℤ) → ℤ → List Text → ℤ → List Text → List Text
eviction_loop own cached size table_size [] free chosen = chosen
eviction_loop own cached size table_size (t ∷ ts) free chosen =
    let take =
      eviction_loop own cached size table_size ts (add64 free (size t)) (chosen ++ (t ∷ [])) in
    let skip = eviction_loop own cached size table_size ts free chosen in
    if str_eq t own
    then []
    else if cached t
    then (if ltb_ℤ (add64 free (size t)) table_size then take else chosen ++ (t ∷ []))
    else skip

module _ (env : Env) where
  -- The unmount of `schema_table`, split at each underscore; without one an index is out of range.
  unfoldable pub unmount_split : PodRef → List Text → Prog (Unit {0})
  unmount_split pod [] = panic
  unmount_split pod (schema_name ∷ []) = panic
  unmount_split pod (schema_name ∷ table_name ∷ _) = do
    attempt (exec_alluxio_table_unmount env pod schema_name table_name)
    pure tt

  unfoldable pub unmount_all : PodRef → List Text → Prog (Unit {0})
  unmount_all pod [] = pure tt
  unmount_all pod (name ∷ names) = do unmount_split pod (split b'_' name); unmount_all pod names

  -- The tables to free for a table of a size, with so much space left.
  unfoldable pub tables_to_free : Text → ℤ → ℤ → State → List Text
  tables_to_free own table_size free s =
      if ltb_ℤ table_size free
      then []
      else eviction_loop own (λ t. is_exist_in_alluxio env t s) (λ t. get_size env t s) table_size
          (get_value env s) free []

  -- What is done for a table with a history that is not cached.
  unfoldable pub make_room : PodRef → Text → Text → Prog (Unit {0})
  make_room pod schema_name table_name = do
    table ← get_table_size env schema_name table_name
    free ← exec_alluxio_free_size env pod
    victims ← λ s.
        (returned (tables_to_free (redis_key env schema_name table_name) table.size free.size s), s)
    unmount_all pod victims

  -- One round of the loop over the tables of the DataTable.
  unfoldable pub admit : PodRef → Text → Table → Prog (Unit {0})
  admit pod schema_name table s =
      let key : Text = redis_key env schema_name table.table_name in
      if is_in_zset env key s
      then (if is_exist_in_alluxio env key s
          then (returned tt, s)
          else make_room pod schema_name table.table_name s)
      else (returned tt, s)

  unfoldable pub admit_tables : PodRef → Text → List Table → Prog (Unit {0})
  admit_tables pod schema_name [] = pure tt
  admit_tables pod schema_name (table ∷ tables) = do
    admit pod schema_name table
    admit_tables pod schema_name tables

  unfoldable pub admit_schemas : PodRef → List Schema → Prog (Unit {0})
  admit_schemas pod [] = pure tt
  admit_schemas pod (schema ∷ schemas) = do
    admit_tables pod schema.schema_name schema.tables
    admit_schemas pod schemas
