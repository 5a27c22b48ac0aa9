-- ===== src/State.antt =====
-- internal/master/state.go.
pub mod Save
pub mod Atomic
pub mod Load
