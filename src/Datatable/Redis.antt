-- ===== src/Datatable/Redis.antt =====
-- pkg/utils/redisUtil/redisClient.go: the scores of the tables, and the sizes of the cached ones.
use fluid_data_table.Base.{Bool, List, ◌==◌}
use fluid_data_table.Base.Text.{Text}
use fluid_data_table.Base.Int.{ℤ}
use fluid_data_table.Base.Strconv.{parse_int_value}
use fluid_data_table.Datatable.World.{Env, State, Prog, check, redis_set, redis_del, record_event}

module _ (env : Env) where
  -- IsinZset
  abbrev pub is_in_zset : Text → State → Bool
  is_in_zset member s = env.zrank s.history member

  -- GetValue: all members, by ascending score.
  abbrev pub get_value : State → List Text
  get_value s = env.zrange s.history

  -- IsExistInALluxio
  abbrev pub is_exist_in_alluxio : Text → State → Bool
  is_exist_in_alluxio table_name s = env.exists_key s.history table_name == 1

  -- GetSize: the error of ParseInt is dropped, so a value that is no number reads as 0, and one out
  -- of range as the nearest int64.
  abbrev pub get_size : Text → State → ℤ
  get_size table_name s = parse_int_value (env.get_key s.history table_name)

  -- AddKV
  unfoldable pub add_kv : Text → Text → Prog (Unit {0})
  add_kv key value s =
      check (env.set_key s.history key value) (record_event (redis_set key value) s)

  -- RemoveKV
  unfoldable pub remove_kv : Text → Prog (Unit {0})
  remove_kv key s = check (env.del_key s.history key) (record_event (redis_del key) s)
