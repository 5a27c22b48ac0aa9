-- ===== src/Telemetry.antt =====
-- internal/master/runtime.go: telemetry of the processes.
pub mod Counter
pub mod Apply
pub mod Frame
pub mod Registry
pub mod Session
pub mod Discover
pub mod Unix
pub mod Windows
