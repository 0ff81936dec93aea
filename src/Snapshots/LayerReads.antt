-- ===== src/Snapshots/LayerReads.antt =====
-- Reading a layer reads the database that it holds, whatever runs and layers the bytes come from.
use sqlite_wasm.Prelude.{
  ◌>>=◌, ℕ, ◌+◌, ◌-◌, ◌≤◌, ◌<◌, min, max, ◌≡◌, refl, ap, ◌∙◌, Option, none, some, List, [], ◌∷◌,
  ltb, leb, if◌then◌else◌, Bytes, byte_at, length, slice, fill_zero, arith, write_at_lem,
  length-slice, byte_at-slice, length-fill_zero, byte_at-fill_zero, get_or-past, Bool-cases, inl,
  inr,
}
use sqlite_wasm.Snapshots.Types.{DeltaLayout, StoredSnapshot, Layer, bottom, lying}
use sqlite_wasm.Snapshots.Runs.{Run, own, below, zero_run, runs}
use sqlite_wasm.Snapshots.Tiling.{
  Origin, own_byte, below_byte, zero_byte, origin, Tiles, runs-Tiles,
}
use sqlite_wasm.Snapshots.Layers.{
  Reader, read_bytes, fill, read_runs, read_delta, read_over, layer_read, size_over, layer_size,
}

-- Reading `file` fills the buffer from its start with bytes of `content`, up to the end of the file,
-- and leaves the rest of the buffer.
pub record Reads (file : Reader) (content : ℕ → ℕ) (size : ℕ) : Type 0 where
  pub past_end : (i : ℕ) → size ≤ i → content i ≡ 0
  pub read :
      (buffer : Bytes) (at : ℕ)
      → (b : Bytes) × (file buffer at ≡ some (b, min (length buffer) (size - at)))
        × (length b ≡ length buffer)
        × ((i : ℕ)
            → byte_at b i ≡ (
                if ltb i (min (length buffer) (size - at))
                then content (at + i)
                else byte_at buffer i))

pub read_bytes-Reads : (source : Bytes) → Reads (read_bytes source) (byte_at source) (length source)
unfolding read_bytes
read_bytes-Reads source = record {
  past_end = λ i le. get_or-past source i 0 le;
  read = λ buffer at.
      let part = slice source at (at + length buffer) in
      let (b, done, len, bytes) =
        write_at_lem buffer part 0 (omega (arith, length-slice source at (at + length buffer))) in
      (
        b,
        ground (arith, done, length-slice source at (at + length buffer)),
        len,
        λ i. ground (
          arith,
          bytes i,
          byte_at-slice source at (at + length buffer) i,
          length-slice source at (at + length buffer),
        ),
      );
}

-- The part of the buffer that `fill` reads into, with zeros past the end of the file.
filled :
    {content : ℕ → ℕ} {size count : ℕ} (at : ℕ) (part p : Bytes)
    → length part ≡ count
    → length p ≡ count
    → ((i : ℕ) → size ≤ i → content i ≡ 0)
    → ((i : ℕ)
        → byte_at p i
          ≡ (if ltb i (min count (size - at)) then content (at + i) else byte_at part i))
    → let read = min count (size - at) in
      let f = (if ltb read count then fill_zero p (max 0 read) (length p) else p) in
      (length f ≡ count) × ((i : ℕ) → i < count → byte_at f i ≡ content (at + i))
filled {content} {size} {count} at part p part_length p_length past bytes =
    let read = min count (size - at) in
    (
      ground (arith, length-fill_zero p (max 0 read) (length p)),
      λ i lt. ground (arith, byte_at-fill_zero p (max 0 read) (length p) i, bytes i, past (at + i)),
    )

pub fill_lem :
    {file : Reader} {content : ℕ → ℕ} {size : ℕ} (r : Reads file content size) (buffer : Bytes)
    (offset count at : ℕ)
    → offset + count ≤ length buffer
    → (b : Bytes) × (fill file buffer offset count at ≡ some b)
      × (length b ≡ length buffer)
      × ((i : ℕ)
          → byte_at b i ≡ (
              if ltb i offset
              then byte_at buffer i
              else if ltb i (offset + count)
              then content (at + (i - offset))
              else byte_at buffer i))
unfolding fill
fill_lem {file} {content} {size} r buffer offset count at fits =
    let part = slice buffer offset (offset + count) in
    let part_length : length part ≡ count =
      omega (arith, length-slice buffer offset (offset + count)) in
    let (p, read, p_length, p_bytes) = r.read part at in
    let read' : file part at ≡ some (p, min count (size - at)) =
      read ∙ ap (λ k. some (p, min k (size - at))) part_length in
    let f =
      (if ltb (min count (size - at)) count
        then fill_zero p (max 0 (min count (size - at))) (length p)
        else p) in
    let (f_length, f_bytes) = filled at part p part_length (p_length ∙ part_length) r.past_end (λ i.
      p_bytes i
      ∙ ap (λ k. if ltb i (min k (size - at)) then content (at + i) else byte_at part i)
          part_length) in
    let (b, done, b_length, b_bytes) = write_at_lem buffer f offset (omega (arith, f_length)) in
    (
      b,
      rw (read', ◌>>=◌) done,
      b_length,
      λ i. ground (arith, b_bytes i, f_length, f_bytes (i - offset)),
    )

-- The byte with an origin, of a delta over `under`.
abbrev pub byte_from : Bytes → (ℕ → ℕ) → Origin → ℕ → ℕ
byte_from source under (own_byte place) q = byte_at source place
byte_from source under below_byte q = under q
byte_from source under zero_byte q = 0

read_runs_lem :
    (source : Bytes) {under : Reader} {content : ℕ → ℕ} {size : ℕ}
    → Reads under content size
    → (delta : DeltaLayout) (at p end : ℕ) (rs : List Run) (buffer : Bytes) → Tiles delta p end rs
    → at ≤ p
    → p ≤ end
    → end - at ≤ length buffer
    → (b : Bytes) × (read_runs source under at rs buffer ≡ some b)
      × (length b ≡ length buffer)
      × ((i : ℕ)
          → byte_at b i ≡ (
              if ltb i (p - at)
              then byte_at buffer i
              else if ltb i (end - at)
              then byte_from source content (origin delta (at + i)) (at + i)
              else byte_at buffer i))
unfolding read_runs
read_runs_lem source u delta at p end [] buffer t h le fits =
    (buffer, refl, refl, λ i. ground arith)
read_runs_lem source u delta at p end (own from to place ∷ rs) buffer t h le fits =
    let (b, done, b_length, b_bytes) =
      fill_lem (read_bytes-Reads source) buffer (from - at) (to - from) place (omega arith) in
    let (c, rest, c_length, c_bytes) =
      read_runs_lem source u delta at to end rs b t.4 (omega arith) t.2 (omega arith) in
    (
      c,
      rw (done, ◌>>=◌) rest,
      c_length ∙ b_length,
      λ i. ground (arith, c_bytes i, b_bytes i, t.3 (at + i)),
    )
read_runs_lem source {content = content} u delta at p end (below from to ∷ rs) buffer t h le fits =
    let (b, done, b_length, b_bytes) =
      fill_lem u buffer (from - at) (to - from) from (omega arith) in
    let (c, rest, c_length, c_bytes) =
      read_runs_lem source u delta at to end rs b t.4 (omega arith) t.2 (omega arith) in
    (
      c,
      rw (done, ◌>>=◌) rest,
      c_length ∙ b_length,
      λ i. ground (arith, c_bytes i, b_bytes i, t.3 (at + i)),
    )
read_runs_lem source u delta at p end (zero_run from to ∷ rs) buffer t h le fits =
    let b = fill_zero buffer (from - at) (from - at + (to - from)) in
    let b_length = length-fill_zero buffer (from - at) (from - at + (to - from)) in
    let (c, rest, c_length, c_bytes) =
      read_runs_lem source u delta at to end rs b t.4 (omega arith) t.2 (omega arith) in
    (
      c,
      rest,
      c_length ∙ b_length,
      λ i. ground (
        arith,
        c_bytes i,
        byte_at-fill_zero buffer (from - at) (from - at + (to - from)) i,
        t.3 (at + i),
      ),
    )

module _ {M : Type 0} where
  -- The bytes of the database that a layer holds.
  unfoldable pub byte_over : StoredSnapshot M → (ℕ → ℕ) → Option DeltaLayout → ℕ → ℕ
  byte_over s under none i = byte_at s.source i
  byte_over s under (some delta) i =
      if ltb i s.info.size then byte_from s.source under (origin delta i) i else 0

  unfoldable pub layer_byte : Layer M → ℕ → ℕ
  unfolding byte_over
  layer_byte (bottom s) = byte_at s.source
  layer_byte (lying s under) = byte_over s (layer_byte under) s.delta

  -- Pages have a size.
  abbrev pub HasPages : Layer M → Type 0
  HasPages (bottom s) = Unit
  HasPages (lying s under) =
      ((d : DeltaLayout) → s.delta ≡ some d → 0 < d.chunk_size) × HasPages under

  read_delta-Reads :
      (s : StoredSnapshot M) (delta : DeltaLayout) {under : Reader} {content : ℕ → ℕ} {size : ℕ}
      → 0 < delta.chunk_size
      → Reads under content size
      → Reads
          (read_delta s delta under)
          (λ i. if ltb i s.info.size then byte_from s.source content (origin delta i) i else 0)
          s.info.size
  unfolding read_delta
  read_delta-Reads s delta {under} {content} {size} cs_pos u = record {
    past_end = λ i le. ground arith;
    read = λ buffer at.
        let end = min (at + length buffer) s.info.size in
        elim (Bool-cases (leb end at)) [
          | inl past ↦ (buffer, ground arith, refl, λ i. ground arith)
          | inr within ↦
              let (b, done, b_length, b_bytes) =
                read_runs_lem s.source u delta at at end (runs delta at end) buffer
                  (runs-Tiles delta cs_pos at end (ground arith)) (omega arith) (ground arith)
                  (omega arith) in
              (
                b,
                rw (within, done, ◌>>=◌) (ap (λ k. some (b, k)) (ground arith)),
                b_length,
                λ i. ground (arith, b_bytes i),
              )
        ];
  }

  read_over-Reads :
      (s : StoredSnapshot M) (d : Option DeltaLayout) {under : Reader} {content : ℕ → ℕ} {size : ℕ}
      → ((delta : DeltaLayout) → d ≡ some delta → 0 < delta.chunk_size)
      → Reads under content size
      → Reads (read_over s under d) (byte_over s content d) (size_over s d)
  unfolding read_over byte_over size_over
  read_over-Reads s none w u = read_bytes-Reads s.source
  read_over-Reads s (some delta) w u = read_delta-Reads s delta (w delta refl) u

  -- Reading the file of a layer, whose deltas have chunks of a size that is not 0, gives the bytes
  -- of its database, up to its size, through all the deltas that lie over one another, and never
  -- fails.
  pub layer_read-Reads :
      (layer : Layer M)
      → HasPages layer
      → Reads (layer_read layer) (layer_byte layer) (layer_size layer)
  unfolding layer_read layer_byte layer_size
  layer_read-Reads (bottom s) w = read_bytes-Reads s.source
  layer_read-Reads (lying s under) w = read_over-Reads s s.delta w.0 (layer_read-Reads under w.1)
