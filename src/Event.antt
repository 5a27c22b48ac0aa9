-- ===== src/Event.antt =====
-- internal/master/event.go.
pub mod Subscriber
pub mod Publish
pub mod Stream
pub mod Opening
