-- ===== src/Lock.antt =====
-- src/Lock: the locks on objects, one for each object, and their manager.
pub mod SingleLock
pub mod Manager
