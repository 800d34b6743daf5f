-- ===== src/Datatable/Admission/Space.antt =====
-- When the admission of reconcileDataTable evicts a table at all
-- (pkg/controllers/v1alpha1/datatable/datatable_controller.go, pkg/utils/hive/hiveClient.go).
use fluid_data_table.Base.{ℕ, ◌+◌, List, [], ◌∷◌, if◌then◌else◌, ◌≡◌, refl, arith, lt→ltb}
use fluid_data_table.Base.Text.{Text}
use fluid_data_table.Base.Result.{Result, ok, err}
use fluid_data_table.Base.Int.{pos, negsuc, ltb_ℤ}
use fluid_data_table.Datatable.World.{Env, State, PodRef, returned, run_query, ◌>>=◌}
use fluid_data_table.Datatable.Exec.{Sized, exec_alluxio_free_size}
use fluid_data_table.Datatable.Hive.{get_table_size, read_rows}
use fluid_data_table.Datatable.Admission.{tables_to_free, make_room, unmount_all}

module _ (env : Env) where
  read_rows_size : (rows : List (Result Text)) → (read_rows env rows).size ≡ negsuc 0
  unfolding read_rows
  read_rows_size [] = refl
  read_rows_size (ok r ∷ rows) = read_rows_size rows
  read_rows_size (err e ∷ rows) = refl

  pub get_table_size_size :
      (schema_name table_name : Text) (d : Sized) (s s' : State)
      → get_table_size env schema_name table_name s ≡ (returned d, s')
      → d.size ≡ negsuc 0
  unfolding get_table_size ◌>>=◌ run_query
  get_table_size_size schema_name table_name d s s' h = grind (arith, read_rows_size)

  make_room_of :
      (pod : PodRef) (schema_name table_name : Text) (s s1 s2 : State) (table free : Sized) (f : ℕ)
      → table.size ≡ negsuc 0
      → get_table_size env schema_name table_name s ≡ (returned table, s1)
      → exec_alluxio_free_size env pod s1 ≡ (returned free, s2)
      → free.size ≡ pos f
      → make_room env pod schema_name table_name s ≡ (returned tt, s2)
  unfolding make_room ◌>>=◌ tables_to_free unmount_all
  make_room_of pod schema_name table_name s s1 s2 table free f e h1 h2 h3 = rw h1 (
      rw h2
        (rw (e, ltb_ℤ) (rw (h3, ltb_ℤ) (rw (lt→ltb 0 (f + 1) (omega arith), if◌then◌else◌) refl))))

  -- Hive's answer gives no table a size, so where Alluxio reports a free size that is not negative,
  -- making room for a table ends after the two sizes are read: nothing is unmounted.
  pub make_room_never_evicts :
      (pod : PodRef) (schema_name table_name : Text) (s s1 s2 : State) (table free : Sized) (f : ℕ)
      → get_table_size env schema_name table_name s ≡ (returned table, s1)
      → exec_alluxio_free_size env pod s1 ≡ (returned free, s2)
      → free.size ≡ pos f
      → make_room env pod schema_name table_name s ≡ (returned tt, s2)
  make_room_never_evicts pod schema_name table_name s s1 s2 table free f h1 h2 h3 =
      make_room_of pod schema_name table_name s s1 s2 table free f
        (get_table_size_size schema_name table_name table s s1 h1) h1 h2 h3
