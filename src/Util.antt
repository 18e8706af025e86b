-- ===== src/Util.antt =====
-- src/Util: the synchronisation primitives.
pub mod Semaphore
