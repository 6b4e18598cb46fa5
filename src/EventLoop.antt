-- ===== src/EventLoop.antt =====
-- src/server/sessionseventloop.cpp: the sessions of an event loop, the order in which it handles
-- events, and its timeouts. Sessions are numbered.
pub mod Order
pub mod Sessions
mod Tests
pub mod Timeout
