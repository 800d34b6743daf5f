-- ===== src/Alluxio.antt =====
-- The client of Alluxio: the commands that run in the master's pod (pkg/ddc/alluxio/operations), what
-- is read from their output, and the images of its containers.
pub mod Shell
pub mod Operations
pub mod Output
pub mod Capacity
pub mod Metrics
pub mod Names
pub mod Images
mod Tests
