-- ===== src/Restful.antt =====
-- include/dracon/restful.h: routes, and the router that dispatches a URL to a handler.
pub mod Route
mod Tests
pub mod Router
