-- ===== src/Operator.antt =====
-- pkg/operator/daemonset.go: the DaemonSet that runs Fluent Bit, and the objects
-- that give its pods access to the API.
pub mod Rbac
pub mod Access
pub mod DaemonSet
pub mod Volumes
