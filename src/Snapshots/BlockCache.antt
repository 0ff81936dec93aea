-- ===== src/Snapshots/BlockCache.antt =====
-- The block cache of `readOnlyFile` of snapshots.ts, through the calls of `block`.
use sqlite_wasm.Prelude.{
  ◌>>=◌, ℕ, zero, suc, ◌+◌, ◌-◌, ◌*◌, ◌≤◌, ◌<◌, min, max, ◌≡◌, refl, ap, sym, ◌∙◌, subst, some,
  if◌then◌else◌, ltb, Bytes, byte_at, length, slice, write_at, write_at_lem, nat_eq, arith,
  length-slice, byte_at-slice, Option-cases, inl, inr, if_elim,
}
use sqlite_wasm.JsMap
use sqlite_wasm.JsMap.{
  JsMap, get-set, get-delete, get-has, get-delete_oldest, length-set-le, length-delete-lt,
  length-delete_oldest,
}
use sqlite_wasm.Snapshots.Blocks.{read_range, make_room, block_data, block, copy_part, read_blocks}

-- A byte of the buffer after one part is copied into it.
one_part :
    (at end start next from to count j x y : ℕ) {b z : ℕ}
    → from ≡ max at start
    → to ≡ min end next
    → count ≡ to - from
    → from ≤ to
    → (from - at ≤ j → j - (from - at) < to - from → z ≡ y)
    → b ≡ (if ltb j (from - at) then x else if ltb j (from - at + count) then z else x)
    → b ≡ (if ltb j (start - at) then x else if ltb j (min end next - at) then y else x)
one_part at end start next from to count j x y f t c le p h = ground arith

-- A byte of the buffer after one part and then the parts after it.
two_parts :
    (at end start next last last' j x y : ℕ) {b d : ℕ}
    → start ≤ next
    → next ≤ last
    → last ≡ last'
    → b ≡ (if ltb j (start - at) then x else if ltb j (min end next - at) then y else x)
    → d ≡ (if ltb j (next - at) then b else if ltb j (min end last - at) then y else b)
    → d ≡ (if ltb j (start - at) then x else if ltb j (min end last' - at) then y else x)
two_parts at end start next last last' j x y h k e p q = ground arith

-- The part of a block that a read copies.
part_lem :
    (source : Bytes) (start size at end : ℕ)
    → start < end
    → end ≤ length source
    → at < end
    → at < start + size
    → let found = slice source start (min (start + size) (length source)) in
      let from = max at start in
      let to = min end (start + length found) in
      (to ≡ min end (start + size))
      × (length (slice found (from - start) (to - start)) ≡ to - from)
      × ((k : ℕ)
          → k < to - from
          → byte_at (slice found (from - start) (to - start)) k ≡ byte_at source (from + k))
part_lem source start size at end h e lt first =
    let found = slice source start (min (start + size) (length source)) in
    let found_length = length-slice source start (min (start + size) (length source)) in
    let from = max at start in
    let to = min end (start + length found) in
    (
      omega (arith, found_length),
      omega (arith, found_length, length-slice found (from - start) (to - start)),
      λ k k_lt. ground (
        arith,
        found_length,
        byte_at-slice found (from - start) (to - start) k,
        byte_at-slice source start (min (start + size) (length source)) (from - start + k),
      ),
    )

module _ (source : Bytes) (block_size capacity : ℕ) (size_pos : 0 < block_size) where
  -- What block `i` holds.
  abbrev block_of : ℕ → Bytes
  block_of i = slice source (i * block_size) (min (i * block_size + block_size) (length source))

  -- Every block that is kept holds its part of the source, and no more are kept than may be.
  pub record IsCache (cached : JsMap ℕ Bytes) : Type 0 where
    pub right : (i : ℕ) (found : Bytes) → JsMap.get cached i ≡ some found → found ≡ block_of i
    pub bounded : length cached ≤ capacity

  block_data_lem :
      (cached : JsMap ℕ Bytes) (i : ℕ)
      → IsCache cached
      → block_data source block_size capacity cached i ≡ block_of i
  unfolding block_data read_range
  block_data_lem cached i c = elim (Option-cases (JsMap.get cached i)) [
    | inl gone ↦ rw (gone, block_data)
    | inr (found, at) ↦ rw (at, block_data) (c.right i found at)
  ]

  make_room-right :
      (cached : JsMap ℕ Bytes) (i j : ℕ) (found : Bytes)
      → IsCache cached
      → JsMap.get (make_room source block_size capacity cached i) j ≡ some found
      → found ≡ block_of j
  unfolding make_room
  make_room-right cached i j found c h =
      c.right j found (ground (arith, get-delete cached i j, get-delete_oldest cached j found))

  length-make_room :
      (cached : JsMap ℕ Bytes) (i : ℕ)
      → IsCache cached
      → 0 < capacity
      → length (make_room source block_size capacity cached i) + 1 ≤ capacity
  unfolding make_room
  length-make_room cached i c h =
      ground (arith, length-delete-lt cached i, length-delete_oldest cached, c.bounded)

  length-make_room-le :
      (cached : JsMap ℕ Bytes) (i : ℕ)
      → IsCache cached
      → length (make_room source block_size capacity cached i) ≤ capacity
  unfolding make_room
  length-make_room-le cached i c =
      ground (arith, length-delete-lt cached i, length-delete_oldest cached, c.bounded)

  block-IsCache :
      (cached : JsMap ℕ Bytes) (i : ℕ)
      → IsCache cached
      → IsCache (block source block_size capacity cached i).1
  unfolding block
  block-IsCache cached i c =
      let room = make_room source block_size capacity cached i in
      let found = block_data source block_size capacity cached i in
      if_elim IsCache (ltb 0 capacity)
        (λ some'. record {
          right = λ j f h. ground (
            arith,
            get-set room i j found,
            block_data_lem cached i c,
            make_room-right cached i j f c,
          );
          bounded = ground (arith, length-set-le room i found, length-make_room cached i c);
        })
        (λ none'. record {
          right = λ j f h. make_room-right cached i j f c h;
          bounded = length-make_room-le cached i c;
        })

  -- What copying the part of one block changes.
  copy_part_lem :
      (at end i : ℕ) (found buffer : Bytes)
      → found ≡ block_of i
      → i * block_size < end
      → end ≤ length source
      → at < end
      → end - at ≤ length buffer
      → at < (i + 1) * block_size
      → (b : Bytes) × (copy_part source block_size capacity at end i found buffer ≡ some b)
        × (length b ≡ length buffer)
        × ((j : ℕ)
            → byte_at b j ≡ (
                if ltb j (i * block_size - at)
                then byte_at buffer j
                else if ltb j (min end ((i + 1) * block_size) - at)
                then byte_at source (at + j)
                else byte_at buffer j))
  unfolding copy_part
  copy_part_lem at end i found buffer is_block h e lt fits first =
      let start = i * block_size in
      let (to_eq, part_length, part_bytes) =
        part_lem source start block_size at end h e lt (omega arith) in
      let from = max at start in
      let to = min end (start + length (block_of i)) in
      let part = slice (block_of i) (from - start) (to - start) in
      let (b, done, b_length, b_bytes) =
        write_at_lem buffer part (from - at) (omega (arith, part_length)) in
      (
        b,
        subst
            (λ f.
              write_at buffer (slice f (from - start) (min end (start + length f) - start))
                (from - at)
              ≡ some b)
            (sym is_block) done,
        b_length,
        λ j.
            one_part at end start ((i + 1) * block_size) from to (length part) j (byte_at buffer j)
              (byte_at source (at + j)) refl (to_eq ∙ ap (min end) (omega arith)) part_length
              (omega arith)
              (λ p k. part_bytes (j - (from - at)) k ∙ ap (byte_at source) (omega arith))
              (b_bytes j),
      )

  -- The blocks from `i` on fill the buffer from where the blocks before left off.
  pub read_blocks_lem :
      (at end i count : ℕ) (cached : JsMap ℕ Bytes) (buffer : Bytes)
      → IsCache cached
      → end ≤ length source
      → at < end
      → end - at ≤ length buffer
      → (i + count) * block_size < end + block_size
      → at < (i + 1) * block_size
      → (b : Bytes) × (c : JsMap ℕ Bytes) × (read_blocks source block_size capacity at end i count
            cached buffer
          ≡ some (b, c))
        × IsCache c
        × (length b ≡ length buffer)
        × ((j : ℕ)
            → byte_at b j ≡ (
                if ltb j (i * block_size - at)
                then byte_at buffer j
                else if ltb j (min end ((i + count) * block_size) - at)
                then byte_at source (at + j)
                else byte_at buffer j))
  unfolding read_blocks
  read_blocks_lem at end i zero cached buffer w e lt fits last first =
      (buffer, cached, refl, w, refl, λ j. ground arith)
  read_blocks_lem at end i (suc count) cached buffer w e lt fits last first =
      let (found, kept) = block source block_size capacity cached i in
      let (b, done, b_length, b_bytes) =
        copy_part_lem at end i found buffer (unfold block in block_data_lem cached i w)
          (omega arith) e lt fits first in
      let (d, c, rest, c_valid, d_length, d_bytes) =
        read_blocks_lem at end (i + 1) count kept b (block-IsCache cached i w) e lt
          (omega (arith, b_length)) (omega arith) (omega arith) in
      (
        d,
        c,
        rw (done, ◌>>=◌) rest,
        c_valid,
        d_length ∙ b_length,
        λ j.
            two_parts at end (i * block_size) ((i + 1) * block_size) ((i + 1 + count) * block_size)
              ((i + suc count) * block_size) j (byte_at buffer j) (byte_at source (at + j))
              (omega arith) (omega arith) (omega arith) (b_bytes j) (d_bytes j),
      )
