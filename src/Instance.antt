-- ===== src/Instance.antt =====
-- internal/master/instance.go.
pub mod Snapshot
pub mod Lifecycle
