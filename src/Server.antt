-- ===== src/Server.antt =====
-- The HTTP server's guards (crates/thingd-server/src): what a request passes before a handler runs.
pub mod RateLimit
pub mod Auth
