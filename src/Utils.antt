-- ===== src/Utils.antt =====
-- include/dracon/utils.h: the helpers that the server and its plugins share.
pub mod Url
mod Tests
pub mod Split
pub mod Buffer
pub mod LruCache
