-- ===== src/Streams.antt =====
-- src/server/streams.cpp: the sessions' streams.
pub mod IoLoop
pub mod OStream
pub mod Read
pub mod Write
mod Tests
pub mod Chunked
