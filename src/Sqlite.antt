-- ===== src/Sqlite.antt =====
-- The classes Database, Statement and SQLiteError, over the Wasm module of SQLite.
pub mod Codes
pub mod Wasm
pub mod Actions
pub mod Text
pub mod Binding
pub mod Statement
pub mod Moves
pub mod Methods
pub mod Memory
pub mod Errors
pub mod Decoding
pub mod Machine
pub mod Database
pub mod Files
pub mod Table
pub mod Opening
pub mod Preparing
pub mod Hooks
pub mod Functions
pub mod Closing
pub mod Callback
pub mod Results
mod Tests
