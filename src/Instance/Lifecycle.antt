-- ===== src/Instance/Lifecycle.antt =====
-- internal/master/instance.go: how instances are started, watched, stopped and restarted.
-- `lifecycleMu` is held by each of these operations throughout, so each is one function; what other
-- goroutines do while `stopInstanceLocked` waits is an argument of it. A section between `mu.Lock`
-- and `mu.Unlock` is not interrupted.
pub mod Start
pub mod Stop
pub mod Monitor
pub mod Cases
pub mod Consistent
pub mod Exit
pub mod Ending
