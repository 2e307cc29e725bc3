-- ===== src/Export.antt =====
-- src/export: the side of the bridge that dials the backends.
pub mod Specs
pub mod Outcome
pub mod Relay
pub mod Clients
pub mod Serve
pub mod Task
mod Tests
