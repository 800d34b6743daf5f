-- ===== src/Runtime.antt =====
-- The Alluxio runtime: its status, the set-up and the shutdown of its engine, and its controller.
pub mod Tests
pub mod Types
pub mod Conditions
pub mod Template
pub mod Status
pub mod Health
pub mod Labels
pub mod Shutdown
pub mod Controller
pub mod Engines
pub mod Install
pub mod Sync
pub mod Build
pub mod Values
