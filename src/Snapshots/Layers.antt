-- ===== src/Snapshots/Layers.antt =====
-- `layerFile` of snapshots.ts, and the read of `readOnlyFile` over bytes that it rests on.
use sqlite_wasm.Prelude.{
  ◌>>=◌, ℕ, ◌+◌, ◌-◌, min, max, Option, none, some, List, [], ◌∷◌, ltb, leb, if◌then◌else◌, Bytes,
  length, slice, write_at, fill_zero,
}
use sqlite_wasm.Snapshots.Types.{DeltaLayout, StoredSnapshot, Layer, bottom, lying}
use sqlite_wasm.Snapshots.Runs.{Run, own, below, zero_run, runs}

-- `file.read(buffer, {at})`: the buffer after it, and the number of bytes read.
abbrev pub Reader : Type 0
Reader = Bytes → ℕ → Option (Bytes × ℕ)

-- `read` of `readOnlyFile`, where the source is a Uint8Array
unfoldable pub read_bytes : Bytes → Reader
read_bytes source buffer at = do
  let part = slice source at (at + length buffer)
  b ← write_at buffer part 0
  some (b, length part)

-- `fill` in `layerFile`: `buffer.subarray(offset, offset + length)` shares its bytes with `buffer`.
unfoldable pub fill : Reader → Bytes → ℕ → ℕ → ℕ → Option Bytes
fill file buffer offset count at = do
  (part, read) ← file (slice buffer offset (offset + count)) at
  write_at buffer (if ltb read count then fill_zero part (max 0 read) (length part) else part)
      offset

-- The loop over the runs of `read`, in a file over `source` and the file `under`.
unfoldable pub read_runs : Bytes → Reader → ℕ → List Run → Bytes → Option Bytes
unfolding read_bytes fill
read_runs source under at [] buffer = some buffer
read_runs source under at (own from to place ∷ rest) buffer = do
  b ← fill (read_bytes source) buffer (from - at) (to - from) place
  read_runs source under at rest b
read_runs source under at (below from to ∷ rest) buffer = do
  b ← fill under buffer (from - at) (to - from) from
  read_runs source under at rest b
read_runs source under at (zero_run from to ∷ rest) buffer =
    read_runs source under at rest (fill_zero buffer (from - at) (from - at + (to - from)))

module _ {M : Type 0} where
  -- `read` of the file over a delta
  unfoldable pub read_delta : StoredSnapshot M → DeltaLayout → Reader → Reader
  unfolding read_runs
  read_delta s delta under buffer at =
      let end = min (at + length buffer) s.info.size in
      if leb end at
      then some (buffer, 0)
      else do b ← read_runs s.source under at (runs delta at end) buffer; some (b, end - at)

  -- `if (!delta || !below) return own`, else the file over the delta
  unfoldable pub read_over : StoredSnapshot M → Reader → Option DeltaLayout → Reader
  read_over s under none = read_bytes s.source
  read_over s under (some delta) = read_delta s delta under

  -- `layerFile(layer).read`
  unfoldable pub layer_read : Layer M → Reader
  unfolding read_bytes read_delta read_over
  layer_read (bottom s) = read_bytes s.source
  layer_read (lying s under) = read_over s (layer_read under) s.delta

  -- `layerFile(layer).getSize()`
  unfoldable pub size_over : StoredSnapshot M → Option DeltaLayout → ℕ
  size_over s none = length s.source
  size_over s (some delta) = s.info.size

  unfoldable pub layer_size : Layer M → ℕ
  unfolding size_over
  layer_size (bottom s) = length s.source
  layer_size (lying s under) = size_over s s.delta
