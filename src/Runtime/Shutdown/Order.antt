-- ===== src/Runtime/Shutdown/Order.antt =====
-- The order of Shutdown and the number of workers that destroyWorkers leaves
-- (pkg/ddc/alluxio/shutdown.go).
use fluid_data_table.Base.{◌+◌, ◌<◌, none, some, ◌≡◌, arith}
use fluid_data_table.Base.Text.{codes}
use fluid_data_table.Base.Result.{message}
use fluid_data_table.Datatable.World.{failed}
use fluid_data_table.Schedule.Node.{Node}
use fluid_data_table.Runtime.Shutdown.{EngineState, ShutdownApi, cleanup_cache, shutdown}

module _ {S : Type 0} (api : ShutdownApi S) where
  cleaned :
      (c c' : S)
      → api.invoke_clean_cache c ≡ (none, c')
      → cleanup_cache api c
        ≡ (some (message (codes "the remaining cached is not cleaned up, check again")), c')
  unfolding cleanup_cache
  cleaned c c' e = ground arith

  -- A shutdown does not get past the cache before its retries are used up: where Alluxio cleans its
  -- cache without an error, the shutdown fails, counts the try, and touches nothing else.
  pub shutdown_of_cleaned_cache :
      (s : EngineState S) (c : S)
      → s.retry_shutdown < api.graceful_shutdown_limits
      → api.invoke_clean_cache s.cluster ≡ (none, c)
      → shutdown api s ≡ (
        failed (message (codes "the remaining cached is not cleaned up, check again")),
        record s { retry_shutdown = s.retry_shutdown + 1; cluster = c },
      )
  unfolding shutdown
  shutdown_of_cleaned_cache s c h e = let k = cleaned s.cluster c e in ground arith
