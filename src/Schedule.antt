-- ===== src/Schedule.antt =====
-- The placement of cache workers on nodes: pkg/utils/lifecycle, pkg/utils/label.go,
-- pkg/common/label.go and the readers of nodes and pods in pkg/utils/kubeclient.
pub mod Tests
pub mod Node
pub mod Sort
pub mod Info
pub mod Tiers
pub mod Assign
