-- ===== src/IndexedDb/LoadReads.antt =====
-- Loading a stored file, of indexeddb.ts and Database.ts, gives its bytes to the database.
use native.Mathlib.Nat.{
  mod-lt, div-add-mod', mul-le-mul_right, div-lt_iff_lt-mul, add-mul-div_right,
  add-mul-mod_self_right,
}
use sqlite_wasm.Prelude.{
  ℕ, zero, suc, ◌+◌, ◌-◌, ◌*◌, ◌/◌, ◌%◌, ◌≤◌, ◌<◌, min, ◌≡◌, refl, sym, ap, ◌∙◌, Option, none, some,
  ltb, leb, eqb, ◌&&◌, if◌then◌else◌, Bool, false, Bytes, byte_at, length, slice, zeros, ◌>>=◌,
  arith, Bool-cases, inl, inr, write_at_lem, length-slice, byte_at-slice, page_written,
  length-replicate, get_or-replicate, eqb_iff,
}
use sqlite_wasm.IndexedDb.Persistence.{is_some}
use sqlite_wasm.IndexedDb.Load.{put_chunk, put_chunks}

-- Byte `k` of a chunk, which is zero where the chunk was never written
abbrev pub chunk_byte : Option Bytes → ℕ → ℕ
chunk_byte none k = 0
chunk_byte (some b) k = byte_at b k

-- Every stored chunk is a whole one.
abbrev pub AreWhole : (ℕ → Option Bytes) → ℕ → Type 0
AreWhole chunks cs = (i : ℕ) (b : Bytes) → chunks i ≡ some b → length b ≡ cs

put_chunk_lem :
    (cs i : ℕ) (o : Option Bytes) (part : Bytes)
    → ((b : Bytes) → o ≡ some b → length b ≡ cs)
    → (is_some o && leb (length part) (i * cs)) ≡ false
    → (after : Bytes) × (put_chunk cs i o part ≡ some after)
      × (length after ≡ length part)
      × ((j k : ℕ)
          → k < cs
          → j * cs + k < length part
          → byte_at after (j * cs + k)
            ≡ (if eqb j i && is_some o then chunk_byte o k else byte_at part (j * cs + k)))
unfolding put_chunk
put_chunk_lem cs i none part whole starts = (part, refl, refl, λ j k lt in'. ground arith)
put_chunk_lem cs i (some chunk) part whole starts =
    let full : length chunk ≡ cs = whole chunk refl in
    let piece = slice chunk 0 (length part - i * cs) in
    let piece_length : length piece ≡ min (length part - i * cs) cs =
      omega (arith, length-slice chunk 0 (length part - i * cs), full) in
    let within : i * cs < length part = ground (arith, starts) in
    let (c, done, c_length, c_bytes) =
      write_at_lem part piece (i * cs) (omega (arith, piece_length, within)) in
    (
      c,
      done,
      c_length,
      λ j k lt in'.
          let w =
            page_written (byte_at part) (byte_at piece) (byte_at c (j * cs + k)) i cs j k
              (length piece) lt (omega (arith, piece_length)) (c_bytes (j * cs + k)) in
          elim (Bool-cases (eqb j i)) [
            | inl same ↦
                let is : j ≡ i = (eqb_iff j i).0 same in
                let row : j * cs ≡ i * cs = ap (λ m. m * cs) is in
                ground (
                  arith,
                  w,
                  same,
                  row,
                  piece_length,
                  byte_at-slice chunk 0 (length part - i * cs) k,
                )
            | inr other ↦ ground (arith, w, other)
          ],
    )

widen :
    (i j count : ℕ) (there : Bool) (x : ℕ) {new old older : ℕ}
    → eqb j i ≡ false
    → new ≡ (if (leb (i + 1) j && ltb j (i + 1 + count)) && there then x else old)
    → old ≡ older
    → new ≡ (if (leb i j && ltb j (i + suc count)) && there then x else older)
widen i j count there x other h o = ground (arith, other, h, o)

put_chunks_lem :
    (chunks : ℕ → Option Bytes) (cs first i count : ℕ) (part : Bytes)
    → AreWhole chunks cs
    → (after : Bytes) × (put_chunks chunks cs first i count part ≡ some after)
      × (length after ≡ length part)
      × ((j k : ℕ)
          → k < cs
          → j * cs + k < length part
          → byte_at after (j * cs + k) ≡ (
              if (leb i j && ltb j (i + count)) && is_some (chunks (first + j))
              then chunk_byte (chunks (first + j)) k
              else byte_at part (j * cs + k)))
unfolding put_chunks
put_chunks_lem chunks cs first i zero part whole = (part, refl, refl, λ j k lt in'. ground arith)
put_chunks_lem chunks cs first i (suc count) part whole =
    elim (Bool-cases (is_some (chunks (first + i)) && leb (length part) (i * cs))) [
      | inl past ↦ (
        part,
        rw past refl,
        refl,
        λ j k lt in'. elim (Bool-cases (ltb j i)) [
          | inl before ↦ ground (arith, before)
          | inr after ↦
              let le : i ≤ j = ground (arith, after) in
              absurd (ground (arith, past, mul-le-mul_right cs le, in'))
        ],
      )
      | inr starts ↦
          let (b, done, b_length, b_bytes) =
            put_chunk_lem cs i (chunks (first + i)) part (whole (first + i)) starts in
          let (c, rest, c_length, c_bytes) = put_chunks_lem chunks cs first (i + 1) count b whole in
          (
            c,
            rw (starts, done, ◌>>=◌) rest,
            c_length ∙ b_length,
            λ j k lt in'. elim (Bool-cases (eqb j i)) [
              | inl same ↦
                  let is : j ≡ i = (eqb_iff j i).0 same in
                  let chunk : chunks (first + j) ≡ chunks (first + i) =
                    ap (λ m. chunks (first + m)) is in
                  rw chunk (
                    ground (
                      arith,
                      c_bytes j k lt (omega (arith, in', b_length)),
                      b_bytes j k lt in',
                      same,
                    ))
              | inr other ↦
                  let old : byte_at b (j * cs + k) ≡ byte_at part (j * cs + k) =
                    ground (arith, b_bytes j k lt in', other) in
                  widen i j count (is_some (chunks (first + j))) (chunk_byte (chunks (first + j)) k)
                    other (c_bytes j k lt (omega (arith, in', b_length))) old
            ],
          )
    ]

-- Byte `q` of the stored file
abbrev pub stored_byte : (ℕ → Option Bytes) → ℕ → ℕ → ℕ
stored_byte chunks cs q = chunk_byte (chunks (q / cs)) (q % cs)

chunk_or_zero :
    (o : Option Bytes) (k old : ℕ)
    → old ≡ 0
    → (if is_some o then chunk_byte o k else old) ≡ chunk_byte o k
chunk_or_zero none k old h = h
chunk_or_zero (some b) k old h = refl

-- A part of the file, read from its chunks.
pub part_lem :
    (chunks : ℕ → Option Bytes) (cs first count len : ℕ)
    → 0 < cs
    → AreWhole chunks cs
    → len ≤ count * cs
    → (part : Bytes) × (put_chunks chunks cs first 0 count (zeros len) ≡ some part)
      × (length part ≡ len)
      × ((q : ℕ) → q < len → byte_at part q ≡ stored_byte chunks cs (first * cs + q))
part_lem chunks cs first count len cs_pos whole le =
    let (part, done, part_length, bytes) =
      put_chunks_lem chunks cs first 0 count (zeros len) whole in
    let size : length (zeros len) ≡ len = length-replicate {A = ℕ} len 0 in
    (
      part,
      done,
      part_length ∙ size,
      λ q lt.
          let place : q / cs * cs + q % cs ≡ q = div-add-mod' q cs in
          let row : q / cs < count = (div-lt_iff_lt-mul cs_pos).1 (omega (arith, lt, le)) in
          let at : byte_at part (q / cs * cs + q % cs) ≡ (
              if is_some (chunks (first + q / cs))
              then chunk_byte (chunks (first + q / cs)) (q % cs)
              else byte_at (zeros len) (q / cs * cs + q % cs)) =
            ground (
              arith,
              bytes (q / cs) (q % cs) (mod-lt q cs_pos) (omega (arith, place, lt, size)),
              row,
            ) in
          let quotient : (first * cs + q) / cs ≡ first + q / cs =
            ap (λ m. m / cs) (omega arith) ∙ add-mul-div_right q first cs_pos ∙ omega arith in
          let remainder : (first * cs + q) % cs ≡ q % cs =
            ap (λ m. m % cs) (omega arith) ∙ add-mul-mod_self_right q first cs in
          let zero_there : byte_at (zeros len) (q / cs * cs + q % cs) ≡ 0 =
            get_or-replicate len (q / cs * cs + q % cs) 0 in
          ap (byte_at part) (sym place)
          ∙ at
          ∙ chunk_or_zero (chunks (first + q / cs)) (q % cs) _ zero_there
          ∙ sym (rw (quotient, remainder) refl),
    )
