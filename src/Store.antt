-- ===== src/Store.antt =====
-- src/Store: the object store of the database.
pub mod Page
pub mod FreeMap
pub mod Map
