-- ===== src/Snapshots/Blocks.antt =====
-- `readOnlyFile` of snapshots.ts over a Blob: reads through a cache of whole blocks.
use sqlite_wasm.Prelude.{
  ◌>>=◌, ℕ, zero, suc, ◌+◌, ◌-◌, ◌*◌, ◌/◌, min, max, Option, none, some, Bool, true, ◌&&◌,
  if◌then◌else◌, ltb, leb, Bytes, length, slice, write_at, nat_eq,
}
use sqlite_wasm.JsMap
use sqlite_wasm.JsMap.{JsMap}

-- The closure of one file: the blocks by index, least recently used first, and where the previous
-- read ended, plus one, so that the initial -1 is 0.
pub record BlobState : Type 0 where
  pub cached : JsMap ℕ Bytes
  pub previous_end : ℕ

unfoldable pub fresh : JsMap ℕ Bytes → BlobState
fresh cache = record { cached = cache; previous_end = 0 }

module _ (source : Bytes) (block_size capacity : ℕ) where
  -- `readRange(start, end)`, as `FileReaderSync` reads `source.slice(start, end)`
  unfoldable pub read_range : ℕ → ℕ → Bytes
  read_range start end = slice source start end

  -- The cache after `block(index)` took `index` out of it, or else made room for it.
  unfoldable pub make_room : JsMap ℕ Bytes → ℕ → JsMap ℕ Bytes
  make_room cached index =
      if JsMap.has cached index
      then JsMap.delete cached index
      else if leb capacity (length cached) && ltb 0 capacity
      then JsMap.delete_oldest cached
      else cached

  unfoldable pub block_data : JsMap ℕ Bytes → ℕ → Bytes
  unfolding read_range
  block_data cached index = elim (JsMap.get cached index) [
    | some kept ↦ kept
    | none ↦
        let start = index * block_size in
        read_range start (min (start + block_size) (length source))
  ]

  -- `block(index)`: the block, and the cache after it.
  unfoldable pub block : JsMap ℕ Bytes → ℕ → Bytes × JsMap ℕ Bytes
  unfolding make_room block_data
  block cached index =
      let found = block_data cached index in
      let room = make_room cached index in
      (found, if ltb 0 capacity then JsMap.set room index found else room)

  -- `for (let i = first; i <= last; i++) if (!cached.has(i)) whole = false`
  unfoldable pub all_cached : JsMap ℕ Bytes → ℕ → ℕ → Bool
  all_cached cached i zero = true
  all_cached cached i (suc count) = JsMap.has cached i && all_cached cached (i + 1) count

  -- One round of the loop that copies the parts of blocks.
  unfoldable pub copy_part : ℕ → ℕ → ℕ → Bytes → Bytes → Option Bytes
  copy_part at end i found buffer =
      let start = i * block_size in
      let from = max at start in
      let to = min end (start + length found) in
      write_at buffer (slice found (from - start) (to - start)) (from - at)

  -- That loop, over the `count` blocks from `i` on.
  unfoldable pub read_blocks :
      ℕ → ℕ → ℕ → ℕ → JsMap ℕ Bytes → Bytes → Option (Bytes × JsMap ℕ Bytes)
  unfolding block copy_part
  read_blocks at end i zero cached buffer = some (buffer, cached)
  read_blocks at end i (suc count) cached buffer = do
    let (found, kept) = block cached i
    b ← copy_part at end i found buffer
    read_blocks at end (i + 1) count kept b

  -- Whether the read goes by whole blocks.
  unfoldable pub reads_whole : BlobState → ℕ → ℕ → ℕ → Bool
  unfolding all_cached
  reads_whole s at first last =
      if ltb 0 capacity
        && (leb s.previous_end (at + 1) && ltb (at + 1) (s.previous_end + block_size))
      then true
      else all_cached s.cached first (last + 1 - first)

  -- `read(buffer, at)`: the buffer and the count, and the state after it.
  unfoldable pub read_blob : BlobState → Bytes → ℕ → Option ((Bytes × ℕ) × BlobState)
  unfolding read_blocks reads_whole read_range
  read_blob s buffer at =
      let end = min (at + length buffer) (length source) in
      let first = at / block_size in
      let last = (end - 1) / block_size in
      if leb end at
      then some ((buffer, 0), s)
      else if reads_whole s at first last
      then (do
        (b, cached) ← read_blocks at end first (last + 1 - first) s.cached buffer
        some ((b, end - at), record { cached = cached; previous_end = end + 1 }))
      else (do
        b ← write_at buffer (read_range at end) 0
        some ((b, end - at), record s { previous_end = end + 1 }))
