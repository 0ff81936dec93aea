-- ===== src/Lib.antt =====
-- A verification library for sqlite-wasm, a SQLite for JavaScript with storages that keep databases in
-- IndexedDB, in OPFS and as immutable snapshots. The TypeScript under src/ is modelled; the C code
-- that it is compiled with is not.
--
-- The program. `Database` (src/Database.ts) runs SQLite in a Wasm module, over an overlay that holds
-- changed pages in memory. A storage gets each commit as the chunks that it changed. The IndexedDB
-- storage (src/indexeddb.ts) merges commits into a batch and writes each batch in one transaction.
-- The snapshot storage (src/snapshots.ts) saves a database as a new snapshot, in full or as a delta:
-- the changed pages over the snapshot that the database was opened on. A snapshot is read through
-- its chain of deltas, as a read-only file.
--
-- The model.
--   Prelude      byte arrays as lists of numbers, Boolean tests, lists, and an equality class. An
--                exception of a typed array is the `none` of `Option`.
--   JsMap        JavaScript's `Map`, as the list of its entries in insertion order.
--   IndexedDb    src/indexeddb.ts. Batch has the batches and the transaction that writes one,
--                Persistence the class IndexedDBPersistence, a function for each part of a method up
--                to its `await`. Trace has the steps between them in any order, with the file that
--                the commits make; Invariant and Durability are about its runs. The overlay's commits
--                are a parameter: IsCommit states what Database.ts says of them. Load has `loadInto`
--                with its checks, and `load` of src/Database.ts over a Wasm module that is a parameter;
--                LoadReads and Loading are about it.
--   Snapshots    src/snapshots.ts. Runs, Layers and Content are the reads of a layer (`runs`,
--                `layerFile`, `layerContent`), Blocks the read of `readOnlyFile` over a Blob with its
--                block cache, NewSnapshot the function `newSnapshot`, MemoryStore the store
--                `memorySnapshotStore`, Resolve, Listing and Retain the methods `resolve`, `list`,
--                `head` and `retain` of SnapshotStorage over that store; a lock is a test of whether it
--                is granted. PageRuns and ComposeBlob write the content of a new snapshot, and
--                IdbStore is `indexedDBSnapshotStore` with them, one step for each transaction. Keys
--                has the names of files (`encodeKey`) and Directory is `directorySnapshotStore`, where
--                what JSON makes of metadata is a parameter.
--                The other files are about these: Tiling, LayerReads, ContentRuns, ContentReads,
--                BlockCache, BlockReads, StoreInvariant, Compose, SavedContent, Saving, Retention,
--                Removal, Heads, Partition, Tables, BlobContent, Composing, DeltaBlob, IdbSaving,
--                KeyNames, DirectoryContent, DirectoryRuns, DirectorySaving and DirectoryDelta.
--   Opfs         src/opfs.ts. Files has the class `Files`, which keeps files while SQLite has handles
--                on them, Reads its `read` and Vfs its other calls, over file objects that are a
--                parameter; Handles, OpenAt, Adding and
--                Opening are about open handles. Persistence has `FilePersistence`.
--   Sqlite       The classes of src/Database.ts, src/Statement.ts and src/SQLiteError.ts over the Wasm
--                module, which is a parameter: Wasm has the calls of its exports, and an Engine with
--                what it answers, a function of all the calls so far, so that what it does with a
--                database stays open. Actions has code with a state and exceptions. Codes has the
--                result codes, Binding the values that are bound, Statement the methods, Text
--                `decodeText`, Machine the state of a database, Database its methods, Files how it
--                is opened and what it is read from. Moves are the steps of a statement that its methods
--                are made of, as Methods shows; Memory and Errors are about all sequences of calls,
--                Decoding about `decodeText`.
--                Table counts the functions in the Wasm table; Preparing, Hooks and Functions
--                follow each method, Opening how a new database is replaced by its file, and
--                Closing is about `close`. Callback has the callback of `create_function`, and
--                Results is about its memory.
--
-- Bounds and fuel. Numbers are natural numbers: file sizes and offsets stay below 2^53, where those
-- of JavaScript are exact. Times are whole microseconds. The loops of `runs` get as many rounds as
-- the range has bytes, since each round passes a byte; `resolve` stops by its own limit of 64;
-- loading gets as many rounds as the file has bytes, and each passes one at least; following parents in
-- `retain` gets a round more than there are snapshots, as each round adds one; `pageRuns` gets a
-- round for each page, and each passes one at least.
--
-- Not modelled: the C overlay and VFS, the Wasm module and its loading; `exec`, `each` and `fork` of
-- Database; names of user functions that objects of JavaScript
-- inherit, such as `toString`; opening and closing of file storages, sessions, and the locks between Workers.
pub mod Prelude
pub mod JsMap
pub mod IndexedDb
pub mod Opfs
pub mod Snapshots
pub mod Sqlite
