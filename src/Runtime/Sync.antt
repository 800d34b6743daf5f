-- ===== src/Runtime/Sync.antt =====
-- pkg/ddc/base/syncs.go: Sync of the template engine, over the interface of engine.go.
use fluid_data_table.Base.{true, Option, none, some, ◌≡◌, arith}
use fluid_data_table.Base.Result.{Error}
use fluid_data_table.Runtime.Types.{Step, Check}
use fluid_data_table.Runtime.Template.{Implement, answer}
use fluid_data_table.Runtime.Status.{
  Engine, should_setup_master, setup_master, check_master_ready, check_and_update_runtime_status,
}
use fluid_data_table.Runtime.Status.Workers.{
  should_setup_workers, setup_workers, check_workers_ready,
}

-- What Sync calls beside the set-up's interface.
pub record SyncImplement (S : Type 0) : Type 0 where
  pub base : Implement S
  pub sync_metadata : Step S
  pub check_runtime_healthy : Step S
  pub sync_replicas : Step S
  pub sync_schedule_info_to_cache_nodes : Step S

-- A check of which the flag is dropped.
abbrev pub error_only : {S : Type 0} → Check S → Step S
error_only check s = let (c, s1) = check s in (c.error, s1)

abbrev pub then_step : {S : Type 0} → Option Error × S → Step S → Option Error × S
then_step (some e, s) next = (some e, s)
then_step (none, s) next = next s

-- Sync
unfoldable pub sync : {S : Type 0} → SyncImplement S → Step S
sync t s = then_step (t.sync_metadata s) λ s1.
    then_step (error_only t.base.check_and_update_runtime_status s1) λ s2.
      then_step (t.check_runtime_healthy s2) λ s3. then_step (t.sync_replicas s3) λ s4.
        then_step (error_only t.base.check_and_update_runtime_status s4)
          t.sync_schedule_info_to_cache_nodes

-- The stages that are empty in pkg/ddc/alluxio, as their bodies are commented out: SyncMetadata of
-- metadata.go, CheckRuntimeHealthy of health_check.go, SyncReplicas of replicas.go,
-- SyncScheduleInfoToCacheNodes of node.go and PrepareUFS of ufs.go.
abbrev pub sync_metadata : {S : Type 0} → Step S
sync_metadata s = (none, s)

abbrev pub check_runtime_healthy : {S : Type 0} → Step S
check_runtime_healthy s = (none, s)

abbrev pub sync_replicas : {S : Type 0} → Step S
sync_replicas s = (none, s)

abbrev pub sync_schedule_info_to_cache_nodes : {S : Type 0} → Step S
sync_schedule_info_to_cache_nodes s = (none, s)

abbrev pub prepare_ufs : {S : Type 0} → Step S
prepare_ufs s = (none, s)

-- ShouldCheckUFS
abbrev pub should_check_ufs : {S : Type 0} → Check S
should_check_ufs s = (answer true none, s)

module _ {S : Type 0} (e : Engine S) where
  -- AlluxioEngine as an Implement.
  unfoldable pub alluxio_implement : Implement S
  alluxio_implement = record {
    should_setup_master = should_setup_master e;
    setup_master = setup_master e;
    check_master_ready = check_master_ready e;
    should_setup_workers = should_setup_workers e;
    setup_workers = setup_workers e;
    check_workers_ready = check_workers_ready e;
    check_and_update_runtime_status = check_and_update_runtime_status e;
  }

  unfoldable pub alluxio_sync_implement : SyncImplement S
  alluxio_sync_implement = record {
    base = alluxio_implement;
    sync_metadata = sync_metadata;
    check_runtime_healthy = check_runtime_healthy;
    sync_replicas = sync_replicas;
    sync_schedule_info_to_cache_nodes = sync_schedule_info_to_cache_nodes;
  }

  -- Sync of an Alluxio engine comes to two updates of the status, of which the second is made only
  -- if the first has no error: it looks at no health and no replicas.
  pub sync-alluxio_sync_implement :
      (s : S)
      → sync alluxio_sync_implement s
        ≡ then_step
            (error_only (check_and_update_runtime_status e) s)
            (error_only (check_and_update_runtime_status e))
  unfolding sync alluxio_sync_implement alluxio_implement
  sync-alluxio_sync_implement s = ground arith
