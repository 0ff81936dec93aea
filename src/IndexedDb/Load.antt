-- ===== src/IndexedDb/Load.antt =====
-- `loadInto` of indexeddb.ts with its checks, and `load` of Database.ts.
use Prim.Native.Nat.{bit_and}
use sqlite_wasm.Prelude.{
  ℕ, zero, suc, ◌+◌, ◌-◌, ◌*◌, ◌/◌, min, max, Option, none, some, [], ◌∷◌, ltb, leb, eqb, ◌&&◌, not,
  if◌then◌else◌, Bool, true, Bytes, byte_at, length, slice, write_at, zeros, ◌>>=◌,
}
use sqlite_wasm.IndexedDb.Batch.{Meta, Stored}
use sqlite_wasm.IndexedDb.Persistence.{ceil_div, is_some}

-- For whole numbers; `n - 1` is not negative for an `n` that passes the first test.
unfoldable pub is_power_of_two : ℕ → ℕ → ℕ → Bool
is_power_of_two n least most = leb least n && (leb n most && eqb (bit_and n (n - 1)) 0)

-- `checkMeta`; false is its error. Sizes are numbers that are not negative.
unfoldable pub check_meta : Meta → Bool
unfolding is_power_of_two
check_meta meta = is_power_of_two meta.chunk_size 512 65536

-- MAGIC: "SQLite format 3" and a zero
abbrev pub magic : Bytes
magic = 83 ∷ 81 ∷ 76 ∷ 105 ∷ 116 ∷ 101 ∷ 32 ∷ 102 ∷ 111 ∷ 114 ∷ 109 ∷ 97 ∷ 116 ∷ 32 ∷ 51 ∷ 0 ∷ []

-- `for (let i = 0; i < MAGIC.length; i++) if (header[i] !== MAGIC.charCodeAt(i))`
unfoldable pub starts_with : Bytes → ℕ → Bytes → Bool
starts_with header i [] = true
starts_with header i (code ∷ codes) =
    eqb (byte_at header i) code && starts_with header (i + 1) codes

-- `view.getUint16(i)` and `view.getUint32(i)`
unfoldable pub get_uint16 : Bytes → ℕ → ℕ
get_uint16 header i = byte_at header i * 256 + byte_at header (i + 1)

unfoldable pub get_uint32 : Bytes → ℕ → ℕ
unfolding get_uint16
get_uint32 header i = get_uint16 header i * 65536 + get_uint16 header (i + 2)

unfoldable pub page_size_of : Bytes → ℕ
unfolding get_uint16
page_size_of header = let field = get_uint16 header 16 in if eqb field 1 then 65536 else field

-- `checkHeader`; false is its error.
unfoldable pub check_header : Bytes → ℕ → Bool
unfolding starts_with page_size_of get_uint32 is_power_of_two ceil_div
check_header header size =
    let page_size = page_size_of header in
    let page_count = get_uint32 header 28 in
    let stored = ceil_div size page_size in
    leb 512 size
    && (starts_with header 0 magic
        && (is_power_of_two page_size 512 65536
            && not (eqb (get_uint32 header 92) (get_uint32 header 24) && ltb stored page_count)))

-- The loop that puts the chunks of one read into `part`. `i` is `keys[i] - first` of the chunk with
-- that key; chunks that were never written have no key.
unfoldable pub put_chunk : ℕ → ℕ → Option Bytes → Bytes → Option Bytes
put_chunk cs i none part = some part
put_chunk cs i (some chunk) part = write_at part (slice chunk 0 (length part - i * cs)) (i * cs)

unfoldable pub put_chunks : (ℕ → Option Bytes) → ℕ → ℕ → ℕ → ℕ → Bytes → Option Bytes
unfolding put_chunk
put_chunks chunks cs first i zero part = some part
put_chunks chunks cs first i (suc count) part =
    let rest = (do
      p ← put_chunk cs i (chunks (first + i)) part
      put_chunks chunks cs first (i + 1) count p) in
    if is_some (chunks (first + i)) && leb (length part) (i * cs) then some part else rest

-- READ_BYTES and LOAD_CHUNK_SIZE
abbrev pub read_bytes : ℕ
read_bytes = 4194304

abbrev pub load_chunk_size : ℕ
load_chunk_size = 1048576

-- A database of the Wasm module, with `alinea_malloc`, where false is NULL, and `alinea_load`, where
-- `none` is any result but OK.
pub record Loader (S : Type 0) : Type 0 where
  pub malloc : ℕ → S → Bool
  pub alinea_load : S → Bytes → ℕ → ℕ → ℕ → Option S

module _ {S : Type 0} (w : Loader S) where
  -- The loop of `load`, over pieces of `piece` bytes
  unfoldable pub load_pieces : ℕ → ℕ → Bytes → ℕ → ℕ → ℕ → ℕ → S → Option S
  load_pieces zero piece bytes offset total cs done db = some db
  load_pieces (suc fuel) piece bytes offset total cs done db =
      let next = (do
        t ← w.alinea_load db (slice bytes done (done + piece)) (offset + done) total cs
        load_pieces fuel piece bytes offset total cs (done + piece) t) in
      if ltb done (length bytes) then next else some db

  -- `load`; `none` is its error.
  unfoldable pub load : Bytes → ℕ → ℕ → ℕ → S → Option S
  unfolding load_pieces
  load bytes offset total cs db =
      let piece = min (length bytes) load_chunk_size in
      let loaded = load_pieces (length bytes) piece bytes offset total cs 0 db in
      if w.malloc piece db then loaded else none

  -- The loop of `loadInto`. `start / chunkSize` is a whole number.
  unfoldable pub load_parts : ℕ → (ℕ → Option Bytes) → ℕ → ℕ → ℕ → ℕ → S → Option S
  unfolding put_chunks check_header load
  load_parts zero chunks size cs per_read start db = some db
  load_parts (suc fuel) chunks size cs per_read start db =
      let next = (do
        part ←
            put_chunks chunks cs (start / cs) 0 per_read
              (zeros (min (per_read * cs) (size - start)))
        t ←
            (if eqb start 0 && not (check_header part size)
              then none
              else load part start size cs db)
        load_parts fuel chunks size cs per_read (start + per_read * cs) t) in
      if ltb start size then next else some db

  unfoldable pub load_meta : Stored → Meta → S → Option (Option ℕ × S)
  unfolding check_meta load_parts
  load_meta stored meta db =
      let per_read = max 1 (read_bytes / meta.chunk_size) in
      let loaded = load_parts meta.size stored.chunks meta.size meta.chunk_size per_read 0 db in
      if check_meta meta then (do t ← loaded; some (some meta.size, t)) else none

  -- `loadInto`: the size of the file, or none where nothing is stored, with the database after it.
  -- `none` is an error.
  unfoldable pub load_into : Stored → S → Option (Option ℕ × S)
  unfolding load_meta
  load_into stored db = elim stored.meta [
    | none ↦ some (none, db)
    | some meta ↦ load_meta stored meta db
  ]
