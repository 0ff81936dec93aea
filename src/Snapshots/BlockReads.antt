-- ===== src/Snapshots/BlockReads.antt =====
-- Reading through the blocks gives what reading the source gives, whatever was read before.
use sqlite_wasm.Prelude.{
  ◌>>=◌, ℕ, ◌+◌, ◌-◌, ◌*◌, ◌/◌, ◌≤◌, ◌<◌, min, ◌≡◌, refl, sym, ◌∙◌, Option, some, if◌then◌else◌,
  ltb, leb, Bytes, byte_at, length, slice, write_at_lem, nat_eq, arith, length-slice, byte_at-slice,
  eq_of_get_or, if_elim,
}
use native.Mathlib.Nat.{div-add-mod', mod-lt}
use sqlite_wasm.Snapshots.Layers.{read_bytes}
use sqlite_wasm.Snapshots.LayerReads.{read_bytes-Reads}
use sqlite_wasm.Snapshots.Blocks.{BlobState, read_range, reads_whole, read_blob}
use sqlite_wasm.Snapshots.BlockCache.{IsCache, read_blocks_lem}

-- The blocks of a range that is not empty: the first begins at or before it, and the last one ends
-- at or past its end.
block_range :
    (at end size : ℕ)
    → 0 < size
    → at < end
    → let first = at / size in
      let last = (end - 1) / size in
      (first * size ≤ at)
      × (at < (first + 1) * size)
      × ((first + (last + 1 - first)) * size < end + size)
      × (end ≤ (first + (last + 1 - first)) * size)
block_range at end size h lt =
    let first = at / size in
    let last = (end - 1) / size in
    let le : first ≤ last =
      grind (
        arith,
        div-add-mod' at size,
        div-add-mod' (end - 1) size,
        mod-lt at h,
        mod-lt (end - 1) h,
      ) in
    let e : first + (last + 1 - first) ≡ last + 1 = omega arith in
    rw e (
      omega (arith, div-add-mod' at size),
      omega (arith, div-add-mod' at size, mod-lt at h),
      omega (arith, div-add-mod' (end - 1) size),
      omega (arith, div-add-mod' (end - 1) size, mod-lt (end - 1) h),
    )

-- What a read of the source gives is known by its bytes.
read_bytes_of :
    (source buffer b : Bytes) (at n : ℕ)
    → n ≡ min (length buffer) (length source - at)
    → length b ≡ length buffer
    → ((j : ℕ)
        → j < length buffer
        → byte_at b j ≡ (if ltb j n then byte_at source (at + j) else byte_at buffer j))
    → read_bytes source buffer at ≡ some (b, n)
read_bytes_of source buffer b at n n_eq b_length b_bytes =
    let (c, done, c_length, c_bytes) = (read_bytes-Reads source).read buffer at in
    let same : c ≡ b =
      eq_of_get_or c b 0 (c_length ∙ sym b_length) (λ j lt. ground (arith, c_bytes j, b_bytes j)) in
    done ∙ cc (same, n_eq)

module _ (source : Bytes) (block_size capacity : ℕ) (size_pos : 0 < block_size) where
  abbrev pub ReadsAs : BlobState → Bytes → ℕ → Option ((Bytes × ℕ) × BlobState) → Type 0
  ReadsAs s buffer at result =
      (r : Bytes × ℕ) × (t : BlobState) × (result ≡ some (r, t))
      × (read_bytes source buffer at ≡ some r)
      × IsCache source block_size capacity size_pos t.cached

  -- For blocks of a size that is not 0, any number of them kept, and a cache that is right:
  -- whatever was read before, a read of the file gives what a read of its source gives, and what is
  -- kept stays right and bounded.
  pub read_blob-read_bytes :
      (s : BlobState) (buffer : Bytes) (at : ℕ)
      → IsCache source block_size capacity size_pos s.cached
      → ReadsAs s buffer at (read_blob source block_size capacity s buffer at)
  unfolding read_blob read_range
  read_blob-read_bytes s buffer at c =
      let end = min (at + length buffer) (length source) in
      let first = at / block_size in
      let last = (end - 1) / block_size in
      if_elim (ReadsAs s buffer at) (leb end at)
        (λ past. (
          (buffer, 0),
          s,
          refl,
          read_bytes_of source buffer buffer at 0 (ground arith) refl (λ j lt. ground arith),
          c,
        ))
        (λ within.
          if_elim (ReadsAs s buffer at) (reads_whole source block_size capacity s at first last)
            (λ whole.
              let (le, lt, before, after) = block_range at end block_size size_pos (ground arith) in
              let (b, kept, done, kept_valid, b_length, b_bytes) =
                read_blocks_lem source block_size capacity size_pos at end first (last + 1 - first)
                  s.cached buffer c (omega arith) (ground arith) (omega arith) before lt in
              (
                (b, end - at),
                record { cached = kept; previous_end = end + 1 },
                rw (done, ◌>>=◌),
                read_bytes_of source buffer b at (end - at) (omega arith) b_length
                    (λ j j_lt. ground (arith, b_bytes j)),
                kept_valid,
              ))
            (λ direct.
              let part = slice source at end in
              let part_length = length-slice source at end in
              let (b, done, b_length, b_bytes) =
                write_at_lem buffer part 0 (omega (arith, part_length)) in
              (
                (b, end - at),
                record s { previous_end = end + 1 },
                rw (done, ◌>>=◌),
                read_bytes_of source buffer b at (end - at) (omega arith) b_length (λ j j_lt.
                    ground (arith, b_bytes j, part_length, byte_at-slice source at end j)),
                c,
              )))
