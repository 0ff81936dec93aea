-- ===== src/Snapshots/BlobContent.antt =====
-- What `composeBlob` of snapshots.ts makes is the database of a full snapshot.
use native.Mathlib.Nat.{mod-lt, div-add-mod', mul-le-mul_right, add-mul}
use sqlite_wasm.Prelude.{
  ◌>>=◌, ℕ, zero, suc, ◌+◌, ◌-◌, ◌*◌, ◌/◌, ◌%◌, ◌≤◌, ◌<◌, min, max, ◌≡◌, refl, sym, ap, ◌∙◌, true,
  Option, none, some, List, [], ◌∷◌, ◌++◌, ltb, if◌then◌else◌, length, get_or, Bytes, byte_at,
  slice, zeros, replicate, arith, nat_eq, Bool-cases, Option-cases, inl, inr, length-replicate,
  get_or-replicate, length-slice, byte_at-slice, append_assoc, fun_ext, write_at, append-nil,
  ltb→lt, ltb→ge,
}
use sqlite_wasm.JsMap
use sqlite_wasm.JsMap.{JsMap}
use sqlite_wasm.Snapshots.Runs.{slots_from}
use sqlite_wasm.Snapshots.Tiling.{lt_next_chunk, div_mul-le, div-lt_of}
use sqlite_wasm.Snapshots.NewSnapshot.{NewSnapshot}
use sqlite_wasm.Snapshots.MemoryStore.{put_in_order}
use sqlite_wasm.Snapshots.Compose.{put_in_order_lem, base_byte}
use sqlite_wasm.Snapshots.SavedContent.{held_byte, IsWhole}
use sqlite_wasm.Snapshots.PageRuns.{put_run, page_run}
use sqlite_wasm.Snapshots.Partition.{follows}
use sqlite_wasm.Snapshots.ComposeBlob.{base_part, zero_part, blob_of, fill_to}
use sqlite_wasm.Snapshots.Tables.{
  tabulate, is-tabulate, tabulate-append, IsAscending, slot_holds, page_slot,
}

pub div_at : (a k cs : ℕ) → k < cs → (a * cs + k) / cs ≡ a
div_at a k cs h =
    let pos : 0 < cs = omega (arith, h) in
    grind (arith, div-add-mod' (a * cs + k) cs, mod-lt (a * cs + k) pos)

pub mod_at : (a k cs : ℕ) → k < cs → (a * cs + k) % cs ≡ k
mod_at a k cs h =
    let same : (a * cs + k) / cs * cs ≡ a * cs = ap (λ m. m * cs) (div_at a k cs h) in
    omega (arith, div-add-mod' (a * cs + k) cs, same)

put_run-put_in_order :
    (page : ℕ → Bytes) (cs i k count : ℕ) (run : Bytes)
    → put_run page cs i k count run
      ≡ put_in_order (λ j. page (i + j)) cs k (replicate {A = ℕ} count 0) run
unfolding put_run put_in_order
put_run-put_in_order page cs i k zero run = refl
put_run-put_in_order page cs i k (suc count) run =
    ap (λ f. write_at run (page (i + k)) (k * cs) >>= f)
      (fun_ext (λ r. put_run-put_in_order page cs i (k + 1) count r))

-- A run has the bytes of its pages.
pub page_run_lem :
    (page : ℕ → Bytes) (cs i end : ℕ)
    → ((j : ℕ) → j < end → length (page j) ≡ cs)
    → (run : Bytes) × (page_run page cs i end ≡ some run)
      × (length run ≡ (end - i) * cs)
      × ((j k : ℕ) → k < cs → j < end - i → byte_at run (j * cs + k) ≡ byte_at (page (i + j)) k)
unfolding page_run
page_run_lem page cs i end full =
    let count = length-replicate {A = ℕ} (end - i) 0 in
    let size = length-replicate {A = ℕ} ((end - i) * cs) 0 in
    let rows : (0 + length (replicate {A = ℕ} (end - i) 0)) * cs ≡ (end - i) * cs =
      ap (λ m. m * cs) (omega (arith, count)) in
    let (run, done, len, bytes) =
      put_in_order_lem (λ j. page (i + j)) cs 0 (replicate {A = ℕ} (end - i) 0)
        (zeros ((end - i) * cs)) (λ m lt. full (i + m) (omega (arith, lt, count)))
        (omega (arith, rows, size)) in
    (
      run,
      put_run-put_in_order page cs i 0 (end - i) (zeros ((end - i) * cs)) ∙ done,
      len ∙ size,
      λ j k lt l. ground (arith, bytes j k lt, count, l),
    )

-- The pages of a run whose pages follow each other
pub run_pages :
    (pages : List ℕ) (i end j : ℕ)
    → ((m : ℕ) → i < m → m < end → follows pages true m ≡ true)
    → i + j < end
    → get_or pages (i + j) 0 ≡ get_or pages i 0 + j
unfolding follows
run_pages pages i end zero h k =
    let first : i + 0 ≡ i = omega arith in
    let same = ap (λ m. get_or pages m 0) first in omega (arith, same)
run_pages pages i end (suc j) h k =
    let before = run_pages pages i end j h (omega (arith, k)) in
    let there = h (i + suc j) (omega arith) k in
    let prev : i + suc j - 1 ≡ i + j = omega arith in
    let same = ap (λ m. get_or pages m 0) prev in ground (arith, there, before, same)

-- The bytes of the old content, or none
abbrev pub base_length : Option Bytes → ℕ
base_length none = 0
base_length (some base) = length base

pub blob_of-append : (xs ys : List Bytes) → blob_of (xs ++ ys) ≡ blob_of xs ++ blob_of ys
unfolding blob_of
blob_of-append [] ys = refl
blob_of-append (x ∷ xs) ys =
    ap (λ zs. x ++ zs) (blob_of-append xs ys) ∙ sym (append_assoc x (blob_of xs) (blob_of ys))

base_part-tabulate :
    (base : Option Bytes) (at keep : ℕ) (f : ℕ → ℕ)
    → keep ≤ base_length base
    → ((q : ℕ) → at ≤ q → q < keep → base_byte base q ≡ f q)
    → blob_of (base_part base at keep) ≡ tabulate at (keep - at) f
unfolding blob_of base_part
base_part-tabulate none at keep f h k =
    is-tabulate [] at (keep - at) f (omega arith) (λ i l. absurd (omega arith))
base_part-tabulate (some base) at keep f h k = elim (Bool-cases (ltb at keep)) [
  | inl more ↦ rw more (
      append-nil (slice base at keep)
      ∙ is-tabulate (slice base at keep) at (keep - at) f
          (omega (arith, length-slice base at keep, h))
          (λ i l. ground (arith, byte_at-slice base at keep i, k (at + i), l)))
  | inr done ↦ rw done (
      is-tabulate [] at (keep - at) f (ground (arith, done))
        (λ i l. absurd (ground (arith, done, l))))
]

zero_part-tabulate :
    (from end : ℕ) (f : ℕ → ℕ)
    → ((q : ℕ) → from ≤ q → q < end → f q ≡ 0)
    → blob_of (zero_part from end) ≡ tabulate from (end - from) f
unfolding blob_of zero_part
zero_part-tabulate from end f h = elim (Bool-cases (ltb from end)) [
  | inl more ↦ rw more (
      append-nil (zeros (end - from))
      ∙ is-tabulate (zeros (end - from)) from (end - from) f
          (length-replicate {A = ℕ} (end - from) 0)
          (λ i l.
            get_or-replicate (end - from) i 0
            ∙ sym (h (from + i) (omega arith) (omega (arith, l)))))
  | inr done ↦ rw done (
      is-tabulate [] from (end - from) f (ground (arith, done))
        (λ i l. absurd (ground (arith, done, l))))
]

pub mul_mono : (a b cs : ℕ) → a ≤ b → a * cs ≤ b * cs
mul_mono a b cs h = mul-le-mul_right cs h

module _ {M : Type 0} (n : NewSnapshot M) (under : ℕ → ℕ) (w : IsWhole n under)
    (asc : IsAscending n.pages) (long : min n.visible n.size ≤ base_length n.base) where
  abbrev pub slot_at : ℕ → Option ℕ
  slot_at chunk = JsMap.get (slots_from 0 n.pages []) chunk

  pub held_none :
      (q : ℕ)
      → q < n.size
      → slot_at (q / n.chunk_size) ≡ none
      → held_byte n under q ≡ (if ltb q n.visible then under q else 0)
  held_none q h e = rw e (ground (arith, h))

  pub held_page :
      (j k : ℕ)
      → j < length n.pages
      → k < n.chunk_size
      → get_or n.pages j 0 * n.chunk_size + k < n.size
      → held_byte n under (get_or n.pages j 0 * n.chunk_size + k) ≡ byte_at (n.page j) k
  held_page j k h l in' =
      let p = get_or n.pages j 0 in
      let there : slot_at p ≡ some j = page_slot 0 n.pages [] j asc h ∙ ap some (omega arith) in
      rw (div_at p k n.chunk_size l, mod_at p k n.chunk_size l, there) (ground (arith, in'))

  pub fill_to-tabulate :
      (at end : ℕ)
      → at ≤ end
      → end ≤ n.size
      → ((q : ℕ) → at ≤ q → q < end → slot_at (q / n.chunk_size) ≡ none)
      → blob_of (fill_to n at end) ≡ tabulate at (end - at) (held_byte n under)
  unfolding fill_to
  fill_to-tabulate at end h k gap =
      let keep = min end n.visible in
      let f = held_byte n under in
      let old = base_part-tabulate n.base at keep f (omega (arith, long, k)) (λ q l r.
        w.base_is q (omega (arith, r, k))
        ∙ sym
            (held_none q (omega (arith, r, k)) (gap q l (omega (arith, r))) ∙ ground (arith, r))) in
      let new = zero_part-tabulate (max at keep) end f (λ q l r.
        held_none q (omega (arith, r, k)) (gap q (omega (arith, l)) r) ∙ ground (arith, l, r)) in
      let from : max at keep ≡ at + (keep - at) = omega arith in
      let left : end - max at keep ≡ end - (at + (keep - at)) = omega arith in
      let whole : keep - at + (end - (at + (keep - at))) ≡ end - at = omega (arith, h) in
      blob_of-append (base_part n.base at keep) (zero_part (max at keep) end)
      ∙ (cc (old, new)
          ∙ (ap (λ a. tabulate at (keep - at) f ++ tabulate a (end - max at keep) f) from
              ∙ (ap (λ m. tabulate at (keep - at) f ++ tabulate (at + (keep - at)) m f) left
                  ∙ (tabulate-append at (keep - at) (end - (at + (keep - at))) f
                      ∙ ap (λ m. tabulate at m f) whole))))

  -- The part that a run adds
  pub run_part :
      (i end : ℕ) (run : Bytes)
      → i < end
      → end ≤ length n.pages
      → ((m : ℕ) → i < m → m < end → follows n.pages true m ≡ true)
      → length run ≡ (end - i) * n.chunk_size
      → ((j k : ℕ)
          → k < n.chunk_size
          → j < end - i
          → byte_at run (j * n.chunk_size + k) ≡ byte_at (n.page (i + j)) k)
      → let start = get_or n.pages i 0 * n.chunk_size in
        let count = min ((end - i) * n.chunk_size) (n.size - start) in
        slice run 0 count ≡ tabulate start count (held_byte n under)
  run_part i end run lt le consecutive len bytes =
      let cs = n.chunk_size in
      let first = get_or n.pages i 0 in
      let start = first * cs in
      let count = min ((end - i) * cs) (n.size - start) in
      is-tabulate (slice run 0 count) start count (held_byte n under)
        (omega (arith, length-slice run 0 count, len))
        (λ x h.
          let j = x / cs in
          let k = x % cs in
          let small : k < cs = mod-lt x w.cs_pos in
          let in_run : j < end - i = div-lt_of x (end - i) cs w.cs_pos (omega (arith, h)) in
          let at_x : j * cs + k ≡ x = div-add-mod' x cs in
          let page = run_pages n.pages i end j consecutive (omega (arith, in_run)) in
          let row : get_or n.pages (i + j) 0 * cs ≡ start + j * cs =
            ap (λ m. m * cs) page ∙ add-mul first j cs in
          let place : get_or n.pages (i + j) 0 * cs + k ≡ start + x = omega (arith, row, at_x) in
          let own =
            held_page (i + j) k (omega (arith, in_run, le)) small (omega (arith, place, h)) in
          byte_at-slice run 0 count x
          ∙ (ground (arith, h)
              ∙ (ap (byte_at run) (sym at_x)
                  ∙ (bytes j k small in_run ∙ (sym own ∙ ap (held_byte n under) place)))))

  -- What was written when `at` is reached, with the pages from the `i`th to come
  abbrev pub IsAt : ℕ → ℕ → Type 0
  IsAt i at =
      ((m : ℕ)
        → m < i
        → m < length n.pages
        → min ((get_or n.pages m 0 + 1) * n.chunk_size) n.size ≤ at)
      × ((m : ℕ) → i ≤ m → m < length n.pages → at ≤ get_or n.pages m 0 * n.chunk_size)

  -- No page covers what is filled before the `i`th page, or after the last.
  pub no_page :
      (i at q : ℕ)
      → IsAt i at
      → at ≤ q
      → q < n.size
      → ((m : ℕ) → i ≤ m → m < length n.pages → q < get_or n.pages m 0 * n.chunk_size)
      → slot_at (q / n.chunk_size) ≡ none
  no_page i at q here ge in' before = elim (Option-cases (slot_at (q / n.chunk_size))) [
    | inl e ↦ e
    | inr (slot, e) ↦ elim (slot_holds 0 n.pages [] (q / n.chunk_size) slot e) [
      | inl old ↦ absurd (unfold JsMap.get in ground (arith, old))
      | inr (low, (lt, page)) ↦
          let cs = n.chunk_size in
          let same : slot - 0 ≡ slot = omega arith in
          let is : get_or n.pages slot 0 ≡ q / cs =
            ap (λ m. get_or n.pages m 0) (sym same) ∙ page in
          let row : get_or n.pages slot 0 * cs ≡ q / cs * cs = ap (λ m. m * cs) is in
          let next : (get_or n.pages slot 0 + 1) * cs ≡ (q / cs + 1) * cs =
            ap (λ m. (m + 1) * cs) is in
          let inside = lt_next_chunk q (q / cs + 1) cs w.cs_pos (omega arith) in
          elim (Bool-cases (ltb slot i)) [
            | inl earlier ↦
                let past = here.0 slot (ltb→lt slot i earlier) (omega (arith, lt)) in
                absurd (omega (arith, past, next, inside, ge, in'))
            | inr later ↦
                let ahead = before slot (ltb→ge slot i later) (omega (arith, lt)) in
                absurd (omega (arith, ahead, row, div_mul-le q cs))
          ]
    ]
  ]
