-- ===== src/Cache.antt =====
-- components/prophet/util/cache: the caches of the scheduler.
pub mod Lru
pub mod TwoQueue
mod Tests
