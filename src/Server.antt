-- ===== src/Server.antt =====
-- src/server/server.cpp: the accept loop's accounting, the choice of an event loop, and the
-- plugins.
pub mod Configuration
pub mod Connections
mod Tests
pub mod Plugins
pub mod Service
pub mod Sessions
