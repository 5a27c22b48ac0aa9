-- ===== src/Tests.antt =====
-- The theorems at concrete inputs.
mod Data
mod Logs
mod Events
mod Traffic
mod Lifecycle
mod Requests
mod Files
mod Telemetry
mod Shutdown
mod System
mod Pipes
mod Proc
mod Serve
