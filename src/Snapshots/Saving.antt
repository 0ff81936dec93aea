-- ===== src/Snapshots/Saving.antt =====
-- Saving a database, of snapshots.ts: what `newSnapshot` makes of its pages and base, written.
use sqlite_wasm.Prelude.{
  fun_ext, ℕ, zero, suc, ◌*◌, ◌≤◌, ◌<◌, ◌≡◌, String, some, List, [], ◌∷◌, map, ltb, ◌∙◌, ap, Bytes,
  length, get_or, arith, Bool-cases, inl, inr, All, subst, ◌+◌, ◌/◌, ◌%◌, eqb, eqb_iff, refl, false,
  if◌then◌else◌, byte_at, ltb→lt, ltb→ge, nat_eq,
}
use native.Mathlib.Nat.{div-add-mod'}
use sqlite_wasm.JsMap
use sqlite_wasm.JsMap.{JsMap, get-set}
use sqlite_wasm.Snapshots.Runs.{slots_from}
use sqlite_wasm.Snapshots.Compose.{picked}
use sqlite_wasm.Snapshots.Types.{Layer}
use sqlite_wasm.Snapshots.Content.{top}
use sqlite_wasm.Snapshots.Layers.{layer_size}
use sqlite_wasm.Snapshots.LayerReads.{layer_byte}
use sqlite_wasm.Snapshots.ContentReads.{IsSound, info_size, layer_content-layer_byte}
use sqlite_wasm.Snapshots.NewSnapshot.{NewSnapshot, Pages, live_pages, snapshot_on, new_snapshot}
use sqlite_wasm.Snapshots.MemoryStore.{MemoryStore, write}
use sqlite_wasm.Snapshots.SavedContent.{held_byte, IsWhole, IsSaved, write-IsWritten}

live_pages-All :
    (cs size : ℕ) (pages : List (ℕ × Bytes))
    → All (λ i. i * cs < size) (map (λ p. p.0) (live_pages cs size pages))
unfolding live_pages
live_pages-All cs size [] = tt
live_pages-All cs size ((i, c) ∷ pages) = elim (Bool-cases (ltb (i * cs) size)) [
  | inl in' ↦ rw in' (ground arith, live_pages-All cs size pages)
  | inr out ↦ rw out (live_pages-All cs size pages)
]

cons_whole :
    (cs : ℕ) (p : ℕ × Bytes) (rest : List (ℕ × Bytes))
    → length p.1 ≡ cs
    → ((i : ℕ)
        → i < length (map (λ (p : ℕ × Bytes). p.0) rest)
        → length (get_or rest i (0, [])).1 ≡ cs)
    → (i : ℕ) → i < length (map (λ (p : ℕ × Bytes). p.0) (p ∷ rest))
    → length (get_or (p ∷ rest) i (0, [])).1 ≡ cs
cons_whole cs p rest h w zero lt = h
cons_whole cs p rest h w (suc i) lt = w i (omega (arith, lt))

live_pages-whole :
    (cs size : ℕ) (pages : List (ℕ × Bytes))
    → All (λ p. length p.1 ≡ cs) pages
    → (i : ℕ) → i < length (map (λ (p : ℕ × Bytes). p.0) (live_pages cs size pages))
    → length (get_or (live_pages cs size pages) i (0, [])).1 ≡ cs
unfolding live_pages
live_pages-whole cs size [] w = λ i lt. absurd (omega (arith, lt))
live_pages-whole cs size ((index, content) ∷ pages) w = elim (Bool-cases (ltb (index * cs) size)) [
  | inl in' ↦ rw in' (
      cons_whole cs (index, content) (live_pages cs size pages) w.0
        (live_pages-whole cs size pages w.1))
  | inr out ↦ rw out (live_pages-whole cs size pages w.1)
]

-- Byte `k` of chunk `chunk`: of the page that the database holds of it, else `old`
unfoldable pub page_byte : List (ℕ × Bytes) → ℕ → ℕ → ℕ → ℕ
page_byte [] chunk k old = old
page_byte ((index, content) ∷ pages) chunk k old =
    page_byte pages chunk k (if eqb index chunk then byte_at content k else old)

-- Byte `q` of the database: of the page that it holds there, else of its base below `visible`, else
-- zero
unfoldable pub database_byte : Pages → (ℕ → ℕ) → ℕ → ℕ
unfolding page_byte
database_byte held under q =
    if ltb q held.size
    then page_byte held.pages (q / held.chunk_size) (q % held.chunk_size)
        (if ltb q held.visible then under q else 0)
    else 0

picked_here :
    (page : ℕ → Bytes) (slot : ℕ) (content : Bytes) (slots : JsMap ℕ ℕ) (index chunk k old was : ℕ)
    → page slot ≡ content
    → picked page (JsMap.get slots chunk) k old ≡ was
    → picked page (JsMap.get (JsMap.set slots index slot) chunk) k old
      ≡ (if eqb index chunk then byte_at content k else was)
picked_here page slot content slots index chunk k old was h is =
    elim (Bool-cases (eqb index chunk)) [
      | inl same ↦ rw (get-set slots index chunk slot, same) (ap (λ c. byte_at c k) h)
      | inr other ↦ rw (get-set slots index chunk slot, other) is
    ]

not_here :
    (cs size index chunk : ℕ)
    → ltb (index * cs) size ≡ false
    → chunk * cs < size
    → eqb index chunk ≡ false
not_here cs size index chunk out h = elim (Bool-cases (eqb index chunk)) [
  | inr other ↦ other
  | inl same ↦
      let is : index * cs ≡ chunk * cs = ap (λ i. i * cs) ((eqb_iff index chunk).0 same) in
      absurd (omega (arith, is, h, ltb→ge (index * cs) size out))
]

-- The slots of the pages give the same.
picked-slots :
    (page : ℕ → Bytes) (slot : ℕ) (pages : List (ℕ × Bytes)) (slots : JsMap ℕ ℕ)
    (chunk k old was : ℕ)
    → ((j : ℕ) → j < length pages → page (slot + j) ≡ (get_or pages j (0, [])).1)
    → picked page (JsMap.get slots chunk) k old ≡ was
    → picked page (JsMap.get (slots_from slot (map (λ p. p.0) pages) slots) chunk) k old
      ≡ page_byte pages chunk k was
unfolding slots_from page_byte
picked-slots page slot [] slots chunk k old was h is = is
picked-slots page slot ((index, content) ∷ pages) slots chunk k old was h is =
    picked-slots page (slot + 1) pages (JsMap.set slots index slot) chunk k old
      (if eqb index chunk then byte_at content k else was)
      (λ j lt. ap page (omega arith) ∙ h (suc j) (omega (arith, lt)))
      (picked_here page slot content slots index chunk k old was
        (ap page (omega arith) ∙ h 0 (omega arith)) is)

-- Pages past the end cover no byte of the database.
page_byte-live :
    (cs size : ℕ) (pages : List (ℕ × Bytes)) (chunk k old : ℕ)
    → chunk * cs < size
    → page_byte (live_pages cs size pages) chunk k old ≡ page_byte pages chunk k old
unfolding page_byte live_pages
page_byte-live cs size [] chunk k old h = refl
page_byte-live cs size ((index, content) ∷ pages) chunk k old h =
    elim (Bool-cases (ltb (index * cs) size)) [
      | inl in' ↦ rw in' (
          page_byte-live cs size pages chunk k (if eqb index chunk then byte_at content k else old)
            h)
      | inr out ↦
          let other : eqb index chunk ≡ false = not_here cs size index chunk out h in
          rw (out, other) (page_byte-live cs size pages chunk k old h)
    ]

module _ {M : Type 0} where
  new_snapshot-some :
      (held : Pages) (layer : Layer M) (key branch : String) (meta : M) (max_depth : ℕ)
      {n : NewSnapshot M}
      → new_snapshot held (some layer) key branch meta max_depth ≡ some n
      → snapshot_on held (some layer) key branch meta max_depth ≡ n
  unfolding new_snapshot
  new_snapshot-some held layer key branch meta max_depth e = ground (arith, e)

  snapshot_on-IsWhole :
      (held : Pages) (layer : Layer M) (key branch : String) (meta : M) (max_depth : ℕ)
      → 0 < held.chunk_size
      → All (λ p. length p.1 ≡ held.chunk_size) held.pages
      → IsSound layer
      → held.visible ≤ layer_size layer
      → IsWhole (snapshot_on held (some layer) key branch meta max_depth) (layer_byte layer)
  unfolding snapshot_on
  snapshot_on-IsWhole held layer key branch meta max_depth cs_pos whole sound shown =
      let size : (top layer).info.size ≡ layer_size layer = info_size layer sound in
      let (bytes, content, len, same) =
        layer_content-layer_byte layer sound 0 (top layer).info.size (omega arith)
          (omega (arith, size)) in
      record {
        cs_pos = cs_pos;
        full = live_pages-whole held.chunk_size held.size held.pages whole;
        within = live_pages-All held.chunk_size held.size held.pages;
        base_is = λ i lt.
            rw content
              (same i (omega (arith, lt, shown, size)) ∙ ap (layer_byte layer) (omega arith));
      }

  -- The database that `newSnapshot` is given, byte by byte
  pub snapshot_on-byte :
      (held : Pages) (layer : Layer M) (key branch : String) (meta : M) (max_depth : ℕ)
      (under : ℕ → ℕ)
      → 0 < held.chunk_size
      → (q : ℕ)
      → held_byte (snapshot_on held (some layer) key branch meta max_depth) under q
        ≡ database_byte held under q
  unfolding snapshot_on database_byte
  snapshot_on-byte held layer key branch meta max_depth under cs_pos q =
      let cs = held.chunk_size in
      let live = live_pages cs held.size held.pages in
      let old = if ltb q held.visible then under q else 0 in
      elim (Bool-cases (ltb q held.size)) [
        | inr past ↦ rw past refl
        | inl inside ↦ rw inside (
            picked-slots (λ i. (get_or live i (0, [])).1) 0 live [] (q / cs) (q % cs) old old
              (λ j lt. ap (λ i. (get_or live i (0, [])).1) (omega arith)) (unfold JsMap.get in refl)
            ∙ page_byte-live cs held.size held.pages (q / cs) (q % cs) old
                (omega (arith, div-add-mod' q cs, ltb→lt q held.size inside)))
      ]

  -- A database that holds whole chunks of a size that is not 0 over a sound snapshot, and shows no
  -- more of that than there is, saves as itself: where the save stores a snapshot, full or delta,
  -- that has the size of the database, and reads as it: as the page that the database holds of a
  -- chunk, elsewhere as its base below `visible`, and else as zeros. Every other snapshot stays.
  -- Where it stores none, the key was taken or the snapshot that the delta lies over is gone, and the
  -- store does not change.
  pub save-IsSaved :
      (now : ℕ) (held : Pages) (layer : Layer M) (key branch : String) (meta : M) (max_depth : ℕ)
      (s : MemoryStore M) {n : NewSnapshot M}
      → 0 < held.chunk_size
      → All (λ p. length p.1 ≡ held.chunk_size) held.pages
      → IsSound layer
      → held.visible ≤ layer_size layer
      → new_snapshot held (some layer) key branch meta max_depth ≡ some n
      → IsSaved key held.size
          (database_byte held (layer_byte layer))
          (layer_byte layer)
          n.delta
          s
          (write now n s)
  save-IsSaved now held layer key branch meta max_depth s {n} cs_pos whole sound shown e =
      let under = layer_byte layer in
      let m = snapshot_on held (some layer) key branch meta max_depth in
      subst (λ n. IsSaved key held.size (database_byte held under) under n.delta s (write now n s))
        made
        (subst (λ byte. IsSaved key held.size byte under m.delta s (write now m s))
          (fun_ext (snapshot_on-byte held layer key branch meta max_depth under cs_pos))
          (unfold snapshot_on in
            write-IsWritten now m under s
              (snapshot_on-IsWhole held layer key branch meta max_depth cs_pos whole sound shown)))
    where
      made : snapshot_on held (some layer) key branch meta max_depth ≡ n
      made = new_snapshot-some held layer key branch meta max_depth e
