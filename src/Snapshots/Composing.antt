-- ===== src/Snapshots/Composing.antt =====
-- `composeBlob` of snapshots.ts, over all the runs of pages.
use native.Mathlib.Nat.{add-mul}
use sqlite_wasm.Prelude.{
  ◌>>=◌, ℕ, ◌+◌, ◌-◌, ◌*◌, ◌≤◌, ◌<◌, min, ◌≡◌, refl, sym, ap, ◌∙◌, true, some, List, [], ◌∷◌, ◌++◌,
  ltb, length, get_or, Bytes, byte_at, slice, arith, Bool-cases, inl, inr, ltb→lt, ltb→ge, subst,
  get_or-past,
}
use sqlite_wasm.Snapshots.NewSnapshot.{NewSnapshot}
use sqlite_wasm.Snapshots.SavedContent.{held_byte, IsWhole}
use sqlite_wasm.Snapshots.PageRuns.{per_run, page_runs}
use sqlite_wasm.Snapshots.Partition.{follows, IsPartition, page_runs-IsPartition}
use sqlite_wasm.Snapshots.ComposeBlob.{blob_of, fill_to, parts_from, compose_blob}
use sqlite_wasm.Snapshots.Tables.{
  tabulate, tabulate-append, length-tabulate, byte_at-tabulate, IsAscending, ascends, later-All,
}
use sqlite_wasm.Snapshots.BlobContent.{
  base_length, blob_of-append, mul_mono, page_run_lem, run_pages, IsAt, no_page, fill_to-tabulate,
  run_part,
}

module _ {M : Type 0} (n : NewSnapshot M) (under : ℕ → ℕ) (w : IsWhole n under)
    (asc : IsAscending n.pages) (long : min n.visible n.size ≤ base_length n.base) where
  -- Where a run starts and stops
  abbrev start_of : ℕ → ℕ
  start_of i = get_or n.pages i 0 * n.chunk_size

  abbrev count_of : ℕ → ℕ → ℕ
  count_of i end = min ((end - i) * n.chunk_size) (n.size - start_of i)

  starts_within : (i : ℕ) → i < length n.pages → start_of i < n.size
  starts_within i h = later-All (λ p. p * n.chunk_size < n.size) n.pages i w.within h

  after_run :
      (i end at : ℕ)
      → i < end
      → end ≤ length n.pages
      → ((m : ℕ) → i < m → m < end → follows n.pages true m ≡ true)
      → IsAt n under w asc long i at
      → IsAt n under w asc long end (start_of i + count_of i end)
  after_run i end at lt le consecutive here =
      let cs = n.chunk_size in
      let first = get_or n.pages i 0 in
      let ends : (first + (end - i)) * cs ≡ start_of i + (end - i) * cs =
        add-mul first (end - i) cs in
      (
        λ m before in'. elim (Bool-cases (ltb m i)) [
          | inl earlier ↦ omega (
            arith,
            here.0 m (ltb→lt m i earlier) in',
            here.1 i (omega arith) (omega (arith, lt, le)),
          )
          | inr later ↦
              let ge = ltb→ge m i later in
              let same : i + (m - i) ≡ m = omega (arith, ge) in
              let page = run_pages n.pages i end (m - i) consecutive (omega (arith, before, ge)) in
              let is : get_or n.pages m 0 ≡ first + (m - i) =
                ap (λ k. get_or n.pages k 0) (sym same) ∙ page in
              let mono : (get_or n.pages m 0 + 1) * cs ≤ (first + (end - i)) * cs =
                mul_mono (get_or n.pages m 0 + 1) (first + (end - i)) cs
                  (omega (arith, is, ge, before)) in
              omega (arith, mono, ends, starts_within i (omega (arith, lt, le)))
        ],
        λ m after in'.
            let last : i + (end - 1 - i) ≡ end - 1 = omega (arith, lt) in
            let page = run_pages n.pages i end (end - 1 - i) consecutive (omega (arith, lt)) in
            let is : get_or n.pages (end - 1) 0 ≡ first + (end - 1 - i) =
              ap (λ k. get_or n.pages k 0) (sym last) ∙ page in
            let more = ascends n.pages (end - 1) m asc (omega (arith, lt, after)) in' in
            let mono =
              mul_mono (first + (end - i)) (get_or n.pages m 0) cs (omega (arith, is, more, lt)) in
            omega (arith, mono, ends),
      )

  starts_ascend : (i m : ℕ) → i ≤ m → m < length n.pages → start_of i ≤ start_of m
  starts_ascend i m h lt = elim (Bool-cases (ltb i m)) [
    | inl less ↦
        let more = ascends n.pages i m asc (ltb→lt i m less) lt in
        mul_mono (get_or n.pages i 0) (get_or n.pages m 0) n.chunk_size (omega (arith, more))
    | inr same ↦
        let is : i ≡ m = omega (arith, h, ltb→ge i m same) in
        let at = ap start_of is in omega (arith, at)
  ]

  parts_from-tabulate :
      (runs : List (ℕ × ℕ)) (i at : ℕ)
      → IsPartition n.pages (per_run n.chunk_size) true i runs
      → at ≤ n.size
      → IsAt n under w asc long i at
      → (parts : List Bytes) × (parts_from n runs at ≡ some parts)
        × (blob_of parts ≡ tabulate at (n.size - at) (held_byte n under))
  unfolding parts_from IsPartition blob_of
  parts_from-tabulate [] i at done le here = (
    fill_to n at n.size,
    refl,
    fill_to-tabulate n under w asc long at n.size le (omega arith) (λ q ge in'.
        no_page n under w asc long i at q here ge in'
          (λ m later lt. absurd (omega (arith, later, lt, done)))),
  )
  parts_from-tabulate ((from, to) ∷ runs) i at (is, (lt, (fits, (_, (consecutive, rest))))) le
        here =
      let cs = n.chunk_size in
      let f = held_byte n under in
      let start = start_of from in
      let count = count_of from to in
      let before = subst (λ k. IsAt n under w asc long k at) (sym is) here in
      let inside = starts_within from (omega (arith, lt, fits)) in
      let reached = before.1 from (omega arith) (omega (arith, lt, fits)) in
      let (run, run_done, run_length, bytes) =
        page_run_lem n.page cs from to (λ j l. w.full j (omega (arith, l, fits))) in
      let (parts, done, tail) =
        parts_from-tabulate runs to (start + count) rest (omega (arith, inside))
          (after_run from to at lt fits consecutive before) in
      let filled =
        fill_to-tabulate n under w asc long at start reached (omega (arith, inside)) (λ q ge l.
          no_page n under w asc long from at q before ge (omega (arith, l, inside))
            (λ m later k. omega (arith, l, starts_ascend from m later k))) in
      let own = run_part n under w asc long from to run lt fits consecutive run_length bytes in
      let left : n.size - at ≡ start - at + (count + (n.size - (start + count))) =
        omega (arith, reached, inside) in
      let there : at + (start - at) ≡ start = omega (arith, reached) in
      (
        fill_to n at start ++ (slice run 0 count ∷ parts),
        rw (run_done, ◌>>=◌, done, ◌>>=◌) refl,
        blob_of-append (fill_to n at start) (slice run 0 count ∷ parts)
            ∙ (cc (filled, own, tail)
                ∙ (ap (λ xs. tabulate at (start - at) f ++ xs)
                      (tabulate-append start count (n.size - (start + count)) f)
                    ∙ (ap
                          (λ a.
                            tabulate at (start - at) f
                            ++ tabulate a (count + (n.size - (start + count))) f)
                          (sym there)
                        ∙ (tabulate-append at (start - at) (count + (n.size - (start + count))) f
                            ∙ ap (λ m. tabulate at m f) (sym left))))),
      )

  -- For a snapshot whose pages ascend, and with old content as long as what stays of it, the composed
  -- Blob is the database: it has its size, and each byte of a page, of the old content where no page
  -- covers it, or zero past that.
  pub compose_blob-held_byte :
      (blob : Bytes) × ((compose_blob n ≡ some blob)
        × ((length blob ≡ n.size) × ((q : ℕ) → byte_at blob q ≡ held_byte n under q)))
  unfolding compose_blob
  compose_blob-held_byte =
      let (parts, done, all) =
        parts_from-tabulate (page_runs n.pages n.chunk_size true) 0 0
          (page_runs-IsPartition n.pages n.chunk_size true) (omega arith)
          ((λ m h. absurd (omega arith)), (λ m h k. omega arith)) in
      let whole : n.size - 0 ≡ n.size = omega arith in
      let is = all ∙ ap (λ m. tabulate 0 m (held_byte n under)) whole in
      let len = ap (length {A = ℕ}) is ∙ length-tabulate 0 n.size (held_byte n under) in
      (
        blob_of parts,
        (
          rw (done, ◌>>=◌) refl,
          (
            len,
            λ q. elim (Bool-cases (ltb q n.size)) [
              | inl inside ↦
                  let here : 0 + q ≡ q = omega arith in
                  ap (λ xs. byte_at xs q) is
                  ∙ (byte_at-tabulate 0 n.size (held_byte n under) q (ltb→lt q n.size inside)
                      ∙ ap (held_byte n under) here)
              | inr past ↦
                  get_or-past (blob_of parts) q 0 (omega (arith, len, ltb→ge q n.size past))
                  ∙ rw past refl
            ],
          ),
        ),
      )
