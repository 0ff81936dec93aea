-- ===== src/Snapshots/Types.antt =====
-- The records of snapshots.ts: `SnapshotInfo`, `DeltaLayout`, `StoredSnapshot` and `Layer`. A source
-- is its bytes, also where the code keeps them as a Blob.
use sqlite_wasm.Prelude.{ℕ, String, Option, List, Bytes}

module _ (M : Type 0) where
  -- The meta of a snapshot is any value that survives structured cloning. Times are whole numbers of
  -- microseconds.
  pub record SnapshotInfo : Type 0 where
    pub key : String
    pub branch : String
    pub meta : M
    pub created_at : ℕ
    pub size : ℕ
    pub parent : Option String

pub record DeltaLayout : Type 0 where
  pub parent : String
  pub parent_created_at : ℕ
  pub chunk_size : ℕ
  pub visible : ℕ
  pub pages : List ℕ
  pub depth : ℕ
  pub chain_bytes : ℕ

pub record StoredSnapshot (M : Type 0) : Type 0 where
  pub info : SnapshotInfo M
  pub source : Bytes
  pub delta : Option DeltaLayout

-- A snapshot whose `below` is undefined, and one with the layer below it.
pub data Layer (M : Type 0) : Type 0 where
  bottom : StoredSnapshot M → Layer M
  lying : StoredSnapshot M → Layer M → Layer M
