-- ===== src/Script.antt =====
-- The test scripts that drive the pins (cores/epoxy/epoxy_test/Script).
pub mod Parser
pub mod Event
