-- ===== src/Rest.antt =====
-- internal/master/rest.go: the HTTP handlers.
pub mod Common
pub mod Cases
pub mod Patch
pub mod Modify
pub mod Refusal
pub mod Info
pub mod Ping
pub mod Consistent
