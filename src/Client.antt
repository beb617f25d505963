-- ===== src/Client.antt =====
-- crates/geserdesk-client: the side of the connection that is controlled.
pub mod Inject
pub mod Clip
pub mod Reconnect
