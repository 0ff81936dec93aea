-- ===== src/IndexedDb.antt =====
-- src/indexeddb.ts: the storage that keeps a database as chunks in IndexedDB.
pub mod Batch
pub mod Merge
pub mod Persistence
pub mod Commits
pub mod Trace
pub mod Invariant
pub mod Durability
pub mod Load
pub mod LoadReads
pub mod Loading
mod Tests
mod LoadTests
