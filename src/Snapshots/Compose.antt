-- ===== src/Snapshots/Compose.antt =====
-- The bytes that `memorySnapshotStore` writes for a snapshot.
use sqlite_wasm.Prelude.{
  rows_apart, page_written, ◌>>=◌, ℕ, suc, ◌+◌, ◌-◌, ◌*◌, ◌≤◌, ◌<◌, min, ◌≡◌, refl, ap, ◌∙◌, Option,
  none, some, List, [], ◌∷◌, ltb, eqb, ◌&&◌, if◌then◌else◌, Bytes, byte_at, length, slice,
  write_at_lem, arith, length-slice, byte_at-slice, get_or-past, Bool-cases, inl, inr, nat_eq,
  eqb_iff, All, leb,
}
use sqlite_wasm.JsMap
use sqlite_wasm.JsMap.{JsMap, get-set}
use sqlite_wasm.Snapshots.Runs.{slots_from}
use sqlite_wasm.Snapshots.MemoryStore.{put_in_order, put_in_place, put_base}

-- Pages that are written in order, from the `i`th on, stand there one after the other.
pub put_in_order_lem :
    (page : ℕ → Bytes) (cs i : ℕ) (pages : List ℕ) (b : Bytes)
    → ((m : ℕ) → m < i + length pages → length (page m) ≡ cs)
    → (i + length pages) * cs ≤ length b
    → (after : Bytes) × (put_in_order page cs i pages b ≡ some after)
      × (length after ≡ length b)
      × ((j k : ℕ)
          → k < cs
          → byte_at after (j * cs + k) ≡ (
              if leb i j && ltb j (i + length pages)
              then byte_at (page j) k
              else byte_at b (j * cs + k)))
unfolding put_in_order
put_in_order_lem page cs i [] b full fits = (b, refl, refl, λ j k lt. ground arith)
put_in_order_lem page cs i (index ∷ pages) b full fits =
    let own : length (page i) ≡ cs = full i (omega arith) in
    let same_end : (i + 1 + length pages) * cs ≡ (i + suc (length pages)) * cs =
      ap (λ m. m * cs) (omega arith) in
    let (c, done, c_length, c_bytes) =
      write_at_lem b (page i) (i * cs)
        (omega (arith, own, rows_apart i (i + length (index ∷ pages)) cs (omega arith), fits)) in
    let (d, rest, d_length, d_bytes) =
      put_in_order_lem page cs (i + 1) pages c (λ m lt. full m (omega (arith, lt)))
        (omega (arith, same_end, fits, c_length)) in
    (
      d,
      rw (done, ◌>>=◌) rest,
      d_length ∙ c_length,
      λ j k lt.
          let w =
            page_written (byte_at b) (byte_at (page i)) (byte_at c (j * cs + k)) i cs j k
              (length (page i)) lt (omega (arith, own)) (c_bytes (j * cs + k)) in
          ground (arith, d_bytes j k lt, w, own),
    )

-- What is shown of byte `k` of page `j`: of the page that a slot holds, else what was there
abbrev pub picked : (ℕ → Bytes) → Option ℕ → ℕ → ℕ → ℕ
picked page none k old = old
picked page (some slot) k old = byte_at (page slot) k

picked-set :
    (page : ℕ → Bytes) (cs size i index : ℕ) (slots : JsMap ℕ ℕ) (j k x before old len : ℕ)
    → k < cs
    → j * cs + k < size
    → len ≡ min (size - index * cs) cs
    → x ≡ (
        if eqb j index && ltb k len
        then byte_at (slice (page i) 0 (size - index * cs)) k
        else before)
    → before ≡ picked page (JsMap.get slots j) k old
    → x ≡ picked page (JsMap.get (JsMap.set slots index i) j) k old
picked-set page cs size i index slots j k x before old len lt in' is_len h was =
    elim (Bool-cases (eqb j index)) [
      | inl same ↦
          let is : j ≡ index = (eqb_iff j index).0 same in
          let row : j * cs ≡ index * cs = ap (λ m. m * cs) is in
          let now : JsMap.get (JsMap.set slots index i) j ≡ some i =
            ground (arith, get-set slots index j i, is) in
          rw now
            (ground (arith, h, same, row, is_len, byte_at-slice (page i) 0 (size - index * cs) k))
      | inr other ↦
          let now : JsMap.get (JsMap.set slots index i) j ≡ JsMap.get slots j =
            ground (arith, get-set slots index j i, other) in
          rw now (ground (arith, h, other, was))
    ]

-- Pages that are written in place cover what lay there, each the bytes of its chunk.
pub put_in_place_lem :
    (page : ℕ → Bytes) (cs size i : ℕ) (pages : List ℕ) (b : Bytes) (slots : JsMap ℕ ℕ)
    (old : ℕ → ℕ)
    → ((m : ℕ) → m < i + length pages → length (page m) ≡ cs)
    → length b ≡ size
    → All (λ index. index * cs < size) pages
    → ((j k : ℕ)
        → k < cs
        → j * cs + k < size
        → byte_at b (j * cs + k) ≡ picked page (JsMap.get slots j) k (old (j * cs + k)))
    → (after : Bytes) × (put_in_place page cs size i pages b ≡ some after)
      × (length after ≡ size)
      × ((j k : ℕ)
          → k < cs
          → j * cs + k < size
          → byte_at after (j * cs + k)
            ≡ picked page (JsMap.get (slots_from i pages slots) j) k (old (j * cs + k)))
unfolding put_in_place slots_from
put_in_place_lem page cs size i [] b slots old full len within h = (b, refl, len, h)
put_in_place_lem page cs size i (index ∷ pages) b slots old full len within h =
    let own : length (page i) ≡ cs = full i (omega arith) in
    let part = slice (page i) 0 (size - index * cs) in
    let part_length : length part ≡ min (size - index * cs) cs =
      omega (arith, length-slice (page i) 0 (size - index * cs), own) in
    let (c, done, c_length, c_bytes) =
      write_at_lem b part (index * cs) (omega (arith, part_length, within.0, len)) in
    let (d, rest, d_length, d_bytes) =
      put_in_place_lem page cs size (i + 1) pages c (JsMap.set slots index i) old
        (λ m lt. full m (omega (arith, lt))) (omega (arith, c_length, len)) within.1
        (λ j k lt in'.
          picked-set page cs size i index slots j k (byte_at c (j * cs + k))
            (byte_at b (j * cs + k)) (old (j * cs + k)) (length part) lt in' part_length
            (page_written (byte_at b) (byte_at part) (byte_at c (j * cs + k)) index cs j k
              (length part) lt (omega (arith, part_length)) (c_bytes (j * cs + k)))
            (h j k lt in')) in
    (d, rw (done, ◌>>=◌) rest, d_length, d_bytes)

-- A byte of `base`, which is zero where there is none
abbrev pub base_byte : Option Bytes → ℕ → ℕ
base_byte none i = 0
base_byte (some base) i = byte_at base i

-- The old content that stays, zero past its end
pub put_base_lem :
    (base : Option Bytes) (kept : ℕ) (b : Bytes)
    → kept ≤ length b
    → ((i : ℕ) → byte_at b i ≡ 0)
    → (under : ℕ → ℕ) → ((i : ℕ) → i < kept → base_byte base i ≡ under i)
    → (after : Bytes) × (put_base base kept b ≡ some after)
      × (length after ≡ length b)
      × ((i : ℕ) → byte_at after i ≡ (if ltb i kept then under i else 0))
unfolding put_base
put_base_lem none kept b fits empty under h = (b, refl, refl, λ i. ground (arith, empty i, h i))
put_base_lem (some base) kept b fits empty under h = elim (Bool-cases (ltb 0 kept)) [
  | inl more ↦
      let part = slice base 0 kept in
      let (c, done, c_length, c_bytes) =
        write_at_lem b part 0 (omega (arith, fits, length-slice base 0 kept)) in
      (
        c,
        rw more done,
        c_length,
        λ i. ground (
          arith,
          c_bytes i,
          length-slice base 0 kept,
          byte_at-slice base 0 kept i,
          empty i,
          h i,
          get_or-past base i 0,
        ),
      )
  | inr nothing ↦ (b, ground arith, refl, λ i. ground (arith, empty i))
]
