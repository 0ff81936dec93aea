-- ===== src/Snapshots.antt =====
-- src/snapshots.ts: databases on immutable snapshots.
pub mod Types
pub mod Runs
pub mod Tiling
pub mod Layers
pub mod LayerReads
pub mod Content
pub mod ContentRuns
pub mod ContentReads
pub mod Blocks
pub mod BlockCache
pub mod BlockReads
pub mod NewSnapshot
pub mod PageRuns
pub mod Partition
pub mod ComposeBlob
pub mod Tables
pub mod BlobContent
pub mod Composing
pub mod IdbStore
pub mod DeltaBlob
pub mod IdbSaving
pub mod Keys
pub mod KeyNames
pub mod Directory
pub mod DirectoryContent
pub mod DirectoryRuns
pub mod DirectorySaving
pub mod DirectoryDelta
pub mod MemoryStore
pub mod StoreInvariant
pub mod Resolve
pub mod Compose
pub mod SavedContent
pub mod Saving
pub mod Listing
pub mod Retain
pub mod Retention
pub mod Removal
pub mod Heads
mod Tests
mod RetainTests
mod StoreTests
