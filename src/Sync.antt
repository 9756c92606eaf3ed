-- ===== src/Sync.antt =====
-- Mutexes and queues for fibers, ext/um/um_sync.c.
pub mod Mutex
pub mod Queue
pub mod Tests
