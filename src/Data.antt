-- ===== src/Data.antt =====
-- internal/data: the caches.
pub mod MemCache
