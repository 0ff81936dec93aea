-- ===== src/IndexedDb/Batch.antt =====
-- `Commit` of Database.ts, and of indexeddb.ts `Meta`, `Batch`, `emptyBatch`, `merge`, `writeBatch`,
-- with what the object stores hold.
use sqlite_wasm.Prelude.{
  ℕ, Bool, true, false, Option, none, some, [], ◌∷◌, ltb, leb, ◌==◌, if◌then◌else◌, Bytes, nat_eq,
}
use sqlite_wasm.JsMap
use sqlite_wasm.JsMap.{JsMap, IsDistinct}

-- A number of JavaScript that may be `Infinity`.
pub data Extended : Type 0 where
  fin : ℕ → Extended
  infinity : Extended

unfoldable pub lt_ext : Extended → Extended → Bool
lt_ext (fin a) (fin b) = ltb a b
lt_ext (fin a) infinity = true
lt_ext infinity b = false

-- `index >= bound`
unfoldable pub at_or_past : ℕ → Extended → Bool
at_or_past index (fin b) = leb b index
at_or_past index infinity = false

pub record Meta : Type 0 where
  pub size : ℕ
  pub chunk_size : ℕ

pub record Commit : Type 0 where
  pub chunk_size : ℕ
  pub size : ℕ
  pub min_size : ℕ
  pub chunks : JsMap ℕ Bytes

pub record Batch : Type 0 where
  pub truncate : Extended
  pub chunks : JsMap ℕ Bytes
  pub meta : Option Meta

unfoldable pub empty_batch : Batch
empty_batch = record { truncate = infinity; chunks = []; meta = none }

-- `for (const index of into.chunks.keys()) if (index >= batch.truncate) into.chunks.delete(index)`
unfoldable pub delete_past : Extended → JsMap ℕ Bytes → JsMap ℕ Bytes
delete_past bound [] = []
delete_past bound ((index, chunk) ∷ chunks) =
    let rest = delete_past bound chunks in
    if at_or_past index bound then rest else (index, chunk) ∷ rest

-- `for (const [index, chunk] of batch.chunks) into.chunks.set(index, chunk)`
unfoldable pub set_all : JsMap ℕ Bytes → JsMap ℕ Bytes → JsMap ℕ Bytes
set_all into [] = into
set_all into ((index, chunk) ∷ chunks) = set_all (JsMap.set into index chunk) chunks

-- `a ?? b`
abbrev pub or_else {ℓ} : {A : Type ℓ} → Option A → Option A → Option A
or_else (some a) b = some a
or_else none b = b

unfoldable pub merge : Batch → Batch → Batch
unfolding delete_past set_all lt_ext at_or_past
merge into batch =
    let truncate = if lt_ext batch.truncate into.truncate then batch.truncate else into.truncate in
    let left =
      if lt_ext batch.truncate infinity
      then delete_past batch.truncate into.chunks
      else into.chunks in
    record {
      truncate = truncate;
      chunks = set_all left batch.chunks;
      meta = or_else batch.meta into.meta;
    }

-- The object stores `chunks` and `meta`.
pub record Stored : Type 0 where
  pub chunks : ℕ → Option Bytes
  pub meta : Option Meta

-- `chunks.delete(KeyRange.lowerBound(batch.truncate))`, if it is finite
unfoldable pub delete_range : Extended → (ℕ → Option Bytes) → ℕ → Option Bytes
delete_range bound chunks index = if at_or_past index bound then none else chunks index

-- `for (const [index, chunk] of batch.chunks) chunks.put(chunk, index)`
unfoldable pub put_all : (ℕ → Option Bytes) → JsMap ℕ Bytes → ℕ → Option Bytes
put_all chunks [] = chunks
put_all chunks ((index, chunk) ∷ rest) =
    put_all (λ i. if index == i then some chunk else chunks i) rest

-- The transaction of `writeBatch`, where it completes; where it aborts, nothing changes.
unfoldable pub write_batch : Batch → Stored → Stored
unfolding delete_range put_all at_or_past lt_ext
write_batch batch stored =
    let left =
      if lt_ext batch.truncate infinity
      then delete_range batch.truncate stored.chunks
      else stored.chunks in
    record { chunks = put_all left batch.chunks; meta = batch.meta }
