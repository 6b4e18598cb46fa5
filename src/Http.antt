-- ===== src/Http.antt =====
-- include/dracon/http.h: responses, requests and the status table.
pub mod Response
mod Tests
pub mod Status
pub mod Message
pub mod Request
