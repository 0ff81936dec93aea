-- ===== src/Opfs.antt =====
-- src/opfs.ts: databases in files, which a Wasm module reads and writes through its VFS.
pub mod Files
pub mod Handles
pub mod OpenAt
pub mod Adding
pub mod Opening
pub mod Reads
pub mod Vfs
pub mod Persistence
mod Tests
