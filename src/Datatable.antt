-- ===== src/Datatable.antt =====
-- The table side of the controller: pkg/utils/datatable, pkg/utils/hive, pkg/utils/exec,
-- pkg/utils/redisUtil and pkg/controllers/v1alpha1/datatable.
pub mod Tests
pub mod Label
pub mod World
pub mod Exec
pub mod Redis
pub mod Hive
pub mod Schema
pub mod Admission
pub mod Reconcile
