-- ===== src/Snapshots/DirectoryContent.antt =====
-- What the files of `directorySnapshotStore` of snapshots.ts hold.
use sqlite_wasm.Prelude.{
  ℕ, ◌+◌, ◌-◌, ◌*◌, ◌≤◌, ◌<◌, min, ◌≡◌, ap, ◌∙◌, false, Option, none, some, List, [], ◌∷◌, ◌++◌,
  ltb, leb, ◌&&◌, if◌then◌else◌, length, Bytes, byte_at, zeros, take, drop, arith, nat_eq, All,
  Bool-cases, inl, inr, length-replicate, get_or-replicate, length-slice, byte_at-slice,
  length-append, get_or-append, get_or-take, get_or-drop, get_or-past, length-take, if_elim, ltb→lt,
}
use sqlite_wasm.Snapshots.NewSnapshot.{NewSnapshot}
use sqlite_wasm.Snapshots.Compose.{base_byte}
use sqlite_wasm.Snapshots.SavedContent.{IsWhole}
use sqlite_wasm.Snapshots.Tables.{IsAscending}
use sqlite_wasm.Snapshots.BlobContent.{base_length, mul_mono}
use sqlite_wasm.Snapshots.Directory.{write_over, truncate_to, base_range, keep_to, keep_pages}

drop_past : (file : Bytes) (n i q : ℕ) → n + i ≡ q → byte_at (drop n file) i ≡ byte_at file q
drop_past file n i q h = get_or-drop n file i 0 ∙ ap (byte_at file) h

pub byte_at-write_over :
    (file part : Bytes) (at q : ℕ)
    → byte_at (write_over file part at) q ≡ (
        if ltb q at
        then byte_at file q
        else if ltb q (at + length part)
        then byte_at part (q - at)
        else byte_at file q)
unfolding write_over
byte_at-write_over file part at q =
    let padded = file ++ zeros (at - length file) in
    let head : length (take at padded) ≡ at = omega (
      arith,
      length-take at padded,
      length-append file (zeros (at - length file)),
      length-replicate {A = ℕ} (at - length file) 0,
    ) in
    ground (
      arith,
      head,
      get_or-append (take at padded) (part ++ drop (at + length part) file) q 0,
      get_or-take at padded q 0,
      get_or-append file (zeros (at - length file)) q 0,
      get_or-replicate {A = ℕ} (at - length file) (q - length file) 0,
      get_or-past file q 0,
      get_or-append part (drop (at + length part) file) (q - at) 0,
      drop_past file (at + length part) (q - at - length part) q,
    )

pub byte_at-truncate_to :
    (file : Bytes) (size q : ℕ)
    → byte_at (truncate_to file size) q ≡ (if ltb q size then byte_at file q else 0)
unfolding truncate_to
byte_at-truncate_to file size q = ground (
  arith,
  get_or-take size (file ++ zeros (size - length file)) q 0,
  get_or-append file (zeros (size - length file)) q 0,
  get_or-replicate {A = ℕ} (size - length file) (q - length file) 0,
  get_or-past file q 0,
)

pub length-truncate_to : (file : Bytes) (size : ℕ) → length (truncate_to file size) ≡ size
unfolding truncate_to
length-truncate_to file size = omega (
  arith,
  length-take size (file ++ zeros (size - length file)),
  length-append file (zeros (size - length file)),
  length-replicate {A = ℕ} (size - length file) 0,
)

drop_place : (at q : ℕ) → at ≤ q → at + (q - at) ≡ q
drop_place at q h = omega arith

length-base_range :
    (base : Option Bytes) (at to : ℕ)
    → at < to
    → to ≤ base_length base
    → length (base_range base at to) ≡ to - at
unfolding base_range
length-base_range none at to h k = absurd (omega arith)
length-base_range (some base) at to h k = omega (arith, length-slice base at to)

byte_at-base_range :
    (base : Option Bytes) (at to q : ℕ) (f : ℕ → ℕ)
    → to ≤ base_length base
    → (q < to → base_byte base q ≡ f q)
    → at ≤ q
    → q < to
    → byte_at (base_range base at to) (q - at) ≡ f q
unfolding base_range
byte_at-base_range none at to q f k h l r = absurd (omega arith)
byte_at-base_range (some base) at to q f k h l r = ground (
  arith,
  byte_at-slice base at to (q - at),
  h r,
  drop_place at q l,
  ap (byte_at base) (drop_place at q l),
)

module _ {M : Type 0} (n : NewSnapshot M) (under : ℕ → ℕ) (w : IsWhole n under)
    (long : min n.visible n.size ≤ base_length n.base) where
  -- A `keep` writes the old content from `at` to `end`.
  byte_at-keep_to :
      (at end : ℕ) (file : Bytes) (q : ℕ)
      → byte_at (keep_to n at end file) q
        ≡ (if leb at q && ltb q (min end (min n.visible n.size)) then under q else byte_at file q)
  unfolding keep_to
  byte_at-keep_to at end file q =
      let to = min end (min n.visible n.size) in
      if_elim
        (λ (r : Bytes). byte_at r q ≡ (if leb at q && ltb q to then under q else byte_at file q))
        (ltb at to)
        (λ some'.
          let len = length-base_range n.base at to (ltb→lt at to some') (omega (arith, long)) in
          let old =
            byte_at-base_range n.base at to q under (omega (arith, long))
              (λ l. w.base_is q (omega (arith, l))) in
          ground (arith, byte_at-write_over file (base_range n.base at to) at q, len, old))
        (λ none'. ground (arith, none'))

  -- No chunk of the pages holds byte `q`.
  abbrev pub Uncovered : List ℕ → ℕ → Type 0
  Uncovered pages q =
      All (λ p. (leb (p * n.chunk_size) q && ltb q ((p + 1) * n.chunk_size)) ≡ false) pages

  later-Ahead :
      (p : ℕ) (ps : List ℕ)
      → All (λ q. p < q) ps
      → All (λ q. (p + 1) * n.chunk_size ≤ q * n.chunk_size) ps
  later-Ahead p [] h = tt
  later-Ahead p (q ∷ qs) h =
      (mul_mono (p + 1) q n.chunk_size (omega (arith, h.0)), later-Ahead p qs h.1)

  -- Before it is reached, the loop of `keep` leaves a byte; then it writes what no page covers.
  keep_pages-before :
      (pages : List ℕ) (at : ℕ) (file : Bytes) (q : ℕ)
      → IsAscending pages
      → All (λ p. at ≤ p * n.chunk_size) pages
      → q < at
      → byte_at (keep_pages n pages at file) q ≡ byte_at file q
  unfolding keep_pages
  keep_pages-before [] at file q asc ahead h = ground (arith, byte_at-keep_to at n.size file q)
  keep_pages-before (p ∷ ps) at file q asc ahead h =
      let next : p * n.chunk_size ≤ (p + 1) * n.chunk_size =
        mul_mono p (p + 1) n.chunk_size (omega arith) in
      keep_pages-before ps ((p + 1) * n.chunk_size) (keep_to n at (p * n.chunk_size) file) q asc.1
        (later-Ahead p ps asc.0) (omega (arith, h, ahead.0, next))
      ∙ ground (arith, byte_at-keep_to at (p * n.chunk_size) file q)

  pub keep_pages-after :
      (pages : List ℕ) (at : ℕ) (file : Bytes) (q : ℕ)
      → IsAscending pages
      → All (λ p. at ≤ p * n.chunk_size) pages
      → at ≤ q
      → byte_at file q ≡ 0
      → Uncovered pages q
      → byte_at (keep_pages n pages at file) q
        ≡ (if ltb q (min n.visible n.size) then under q else 0)
  unfolding keep_pages
  keep_pages-after [] at file q asc ahead h e out =
      ground (arith, byte_at-keep_to at n.size file q, e)
  keep_pages-after (p ∷ ps) at file q asc ahead h e out =
      elim (Bool-cases (ltb q (p * n.chunk_size))) [
        | inl here ↦
            let next : p * n.chunk_size ≤ (p + 1) * n.chunk_size =
              mul_mono p (p + 1) n.chunk_size (omega arith) in
            keep_pages-before ps ((p + 1) * n.chunk_size) (keep_to n at (p * n.chunk_size) file) q
              asc.1 (later-Ahead p ps asc.0) (ground (arith, here, next))
            ∙ ground (arith, byte_at-keep_to at (p * n.chunk_size) file q, here, h, e)
        | inr past ↦
            keep_pages-after ps ((p + 1) * n.chunk_size) (keep_to n at (p * n.chunk_size) file) q
              asc.1 (later-Ahead p ps asc.0) (ground (arith, past, out.0))
              (ground (arith, byte_at-keep_to at (p * n.chunk_size) file q, past, e)) out.1
      ]
