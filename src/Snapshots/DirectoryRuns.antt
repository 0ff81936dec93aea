-- ===== src/Snapshots/DirectoryRuns.antt =====
-- The pages that `directorySnapshotStore` of snapshots.ts writes into the file of a full snapshot.
use native.Mathlib.Nat.{mod-lt, div-add-mod', add-mul}
use sqlite_wasm.Prelude.{
  ◌>>=◌, ℕ, suc, ◌+◌, ◌-◌, ◌*◌, ◌/◌, ◌%◌, ◌≤◌, ◌<◌, min, ◌≡◌, refl, sym, ap, ◌∙◌, Bool, true, false,
  none, some, List, [], ◌∷◌, ltb, leb, ◌&&◌, if◌then◌else◌, length, get_or, Bytes, byte_at, arith,
  nat_eq, All, Bool-cases, Option-cases, inl, inr, ltb→lt, ltb→ge,
}
use sqlite_wasm.JsMap
use sqlite_wasm.JsMap.{JsMap}
use sqlite_wasm.Snapshots.Runs.{slots_from}
use sqlite_wasm.Snapshots.Tiling.{div-lt_of}
use sqlite_wasm.Snapshots.NewSnapshot.{NewSnapshot}
use sqlite_wasm.Snapshots.Compose.{picked}
use sqlite_wasm.Snapshots.SavedContent.{held_byte, IsWhole}
use sqlite_wasm.Snapshots.PageRuns.{per_run, page_runs}
use sqlite_wasm.Snapshots.Partition.{follows, IsPartition, page_runs-IsPartition}
use sqlite_wasm.Snapshots.Tables.{IsAscending, ascends, slot_holds, page_slot}
use sqlite_wasm.Snapshots.BlobContent.{base_length, mul_mono, page_run_lem, run_pages, div_at}
use sqlite_wasm.Snapshots.Directory.{write_over, truncate_to, write_runs, keep_pages, full_file}
use sqlite_wasm.Snapshots.DirectoryContent.{
  byte_at-write_over, byte_at-truncate_to, length-truncate_to, keep_pages-after,
}

module _ (pages : List ℕ) (page : ℕ → Bytes) (cs : ℕ) (pos : 0 < cs) (asc : IsAscending pages)
    (full : (j : ℕ) → j < length pages → length (page j) ≡ cs) where
  abbrev is_in : ℕ → ℕ → Bool
  is_in p q = leb (p * cs) q && ltb q ((p + 1) * cs)

  abbrev position : ℕ → ℕ
  position i = get_or pages i 0 * cs

  -- A run that is written over a file, at the place of its first page
  one_run :
      (i to : ℕ) (run file : Bytes)
      → i < to
      → to ≤ length pages
      → ((m : ℕ) → i < m → m < to → follows pages true m ≡ true)
      → length run ≡ (to - i) * cs
      → ((j k : ℕ) → k < cs → j < to - i → byte_at run (j * cs + k) ≡ byte_at (page (i + j)) k)
      → ((j k : ℕ)
          → i ≤ j
          → j < to
          → k < cs
          → byte_at (write_over file run (position i)) (position j + k) ≡ byte_at (page j) k)
        × ((q : ℕ)
            → ((j : ℕ) → i ≤ j → j < to → is_in (get_or pages j 0) q ≡ false)
            → byte_at (write_over file run (position i)) q ≡ byte_at file q)
  one_run i to run file lt le consecutive len bytes =
      let first = get_or pages i 0 in
      (
        λ j k ge l small.
            let same : i + (j - i) ≡ j = omega (arith, ge) in
            let is : get_or pages j 0 ≡ first + (j - i) =
              ap (λ m. get_or pages m 0) (sym same)
              ∙ run_pages pages i to (j - i) consecutive (omega (arith, l, ge)) in
            let row : position j ≡ first * cs + (j - i) * cs =
              ap (λ m. m * cs) is ∙ add-mul first (j - i) cs in
            let inside : (j - i + 1) * cs ≤ (to - i) * cs =
              mul_mono (j - i + 1) (to - i) cs (omega (arith, l, ge)) in
            let next : (j - i + 1) * cs ≡ (j - i) * cs + 1 * cs = add-mul (j - i) 1 cs in
            let place : position j + k - position i ≡ (j - i) * cs + k = omega (arith, row) in
            let own = bytes (j - i) k small (omega (arith, l, ge)) in
            ground (
              arith,
              byte_at-write_over file run (position i) (position j + k),
              len,
              row,
              inside,
              next,
              small,
              own,
              ap (byte_at run) place,
              ap (λ m. byte_at (page m) k) same,
            ),
        λ q out. elim (Bool-cases (leb (position i) q && ltb q (position i + length run))) [
          | inl within ↦
              let x = q - position i in
              let ge : position i ≤ q = ground (arith, within) in
              let lt' : x < (to - i) * cs = ground (arith, within, len) in
              let j = x / cs in
              let in_run : j < to - i = div-lt_of x (to - i) cs pos lt' in
              let is = run_pages pages i to j consecutive (omega (arith, in_run)) in
              let row : position (i + j) ≡ first * cs + j * cs =
                ap (λ m. m * cs) is ∙ add-mul first j cs in
              let row' : (get_or pages (i + j) 0 + 1) * cs ≡ position (i + j) + 1 * cs =
                add-mul (get_or pages (i + j) 0) 1 cs in
              let at_x = div-add-mod' x cs in
              let small : x % cs < cs = mod-lt x pos in
              let no = out (i + j) (omega arith) (omega (arith, in_run)) in
              absurd (ground (arith, no, row, row', at_x, small, ge))
          | inr other ↦ ground (arith, byte_at-write_over file run (position i) q, other)
        ],
      )

  -- Byte `k` of a page is in no later page.
  not_later :
      (j m k : ℕ)
      → j < m
      → m < length pages
      → k < cs
      → is_in (get_or pages m 0) (position j + k) ≡ false
  not_later j m k lt le small =
      let more = ascends pages j m asc lt le in
      let mono : (get_or pages j 0 + 1) * cs ≤ position m =
        mul_mono (get_or pages j 0 + 1) (get_or pages m 0) cs (omega (arith, more)) in
      let next : (get_or pages j 0 + 1) * cs ≡ position j + 1 * cs =
        add-mul (get_or pages j 0) 1 cs in
      ground (arith, mono, next, small)

  -- The runs from the `i`th page write these pages, and leave every other byte.
  pub write_runs_lem :
      (runs : List (ℕ × ℕ)) (i per : ℕ) (file : Bytes)
      → IsPartition pages per true i runs
      → (out : Bytes) × ((write_runs page cs position runs file ≡ some out)
          × (((j k : ℕ)
                → i ≤ j
                → j < length pages
                → k < cs
                → byte_at out (position j + k) ≡ byte_at (page j) k)
              × ((q : ℕ)
                  → ((j : ℕ) → i ≤ j → j < length pages → is_in (get_or pages j 0) q ≡ false)
                  → byte_at out q ≡ byte_at file q)))
  unfolding write_runs IsPartition
  write_runs_lem [] i per file done =
      (file, (refl, ((λ j k ge lt small. absurd (omega (arith, ge, lt, done))), (λ q out. refl))))
  write_runs_lem ((from, to) ∷ runs) i per file (is, (lt, (fits, (_, (consecutive, rest))))) =
      let (run, run_done, run_length, bytes) =
        page_run_lem page cs from to (λ j l. full j (omega (arith, l, fits))) in
      let (wrote, kept) = one_run from to run file lt fits consecutive run_length bytes in
      let (out, (done, (pages_there, others))) =
        write_runs_lem runs to per (write_over file run (position from)) rest in
      (
        out,
        (
          rw (run_done, ◌>>=◌) done,
          (
            λ j k ge l small. elim (Bool-cases (ltb j to)) [
              | inl own ↦
                  others (position j + k) (λ m later in'.
                    not_later j m k (omega (arith, ltb→lt j to own, later)) in' small)
                  ∙ wrote j k (omega (arith, ge, is)) (ltb→lt j to own) small
              | inr later ↦ pages_there j k (ltb→ge j to later) l small
            ],
            λ q out'.
                others q (λ j ge l. out' j (omega (arith, ge, is, lt)) l)
                ∙ kept q (λ j ge l. out' j (omega (arith, ge, is)) (omega (arith, l, fits))),
          ),
        ),
      )

All-of : (P : ℕ → Type 0) (xs : List ℕ) → ((j : ℕ) → j < length xs → P (get_or xs j 0)) → All P xs
All-of P [] h = tt
All-of P (x ∷ xs) h = (h 0 (omega arith), All-of P xs (λ j l. h (suc j) (omega (arith, l))))

All-ahead : (xs : List ℕ) (cs : ℕ) → All (λ p. 0 ≤ p * cs) xs
All-ahead xs cs = All-of (λ p. 0 ≤ p * cs) xs (λ j l. omega arith)

module _ {M : Type 0} (n : NewSnapshot M) (under : ℕ → ℕ) (w : IsWhole n under)
    (asc : IsAscending n.pages) (long : min n.visible n.size ≤ base_length n.base) where
  outside :
      (q j : ℕ)
      → JsMap.get (slots_from 0 n.pages []) (q / n.chunk_size) ≡ none
      → j < length n.pages
      → (leb (get_or n.pages j 0 * n.chunk_size) q
          && ltb q ((get_or n.pages j 0 + 1) * n.chunk_size))
        ≡ false
  outside q j e lt =
      elim (Bool-cases (
        leb (get_or n.pages j 0 * n.chunk_size) q
        && ltb q ((get_or n.pages j 0 + 1) * n.chunk_size))) [
          | inr out ↦ out
          | inl in' ↦
              let cs = n.chunk_size in
              let p = get_or n.pages j 0 in
              let next : (p + 1) * cs ≡ p * cs + 1 * cs = add-mul p 1 cs in
              let small : q - p * cs < cs = ground (arith, in', next) in
              let there : p * cs + (q - p * cs) ≡ q = ground (arith, in') in
              let chunk : q / cs ≡ p =
                ap (λ x. x / cs) (sym there) ∙ div_at p (q - p * cs) cs small in
              let slot : JsMap.get (slots_from 0 n.pages []) p ≡ some (0 + j) =
                page_slot 0 n.pages [] j asc lt in
              absurd (cc (e, slot, chunk))
        ]

  -- A byte of the file once the pages are written
  written_byte :
      (out : Bytes)
      → ((j k : ℕ)
          → 0 ≤ j
          → j < length n.pages
          → k < n.chunk_size
          → byte_at out (get_or n.pages j 0 * n.chunk_size + k) ≡ byte_at (n.page j) k)
      → ((q : ℕ)
          → ((j : ℕ)
              → 0 ≤ j
              → j < length n.pages
              → (leb (get_or n.pages j 0 * n.chunk_size) q
                  && ltb q ((get_or n.pages j 0 + 1) * n.chunk_size))
                ≡ false)
          → byte_at out q ≡ byte_at (keep_pages n n.pages 0 []) q)
      → (q : ℕ) → q < n.size
      → byte_at out q
        ≡ picked n.page
            (JsMap.get (slots_from 0 n.pages []) (q / n.chunk_size))
            (q % n.chunk_size)
            (if ltb q n.visible then under q else 0)
  written_byte out pages_there others q inside =
      elim (Option-cases (JsMap.get (slots_from 0 n.pages []) (q / n.chunk_size))) [
        | inl e ↦ rw e (
            others q (λ j ge l. outside q j e l)
            ∙ (keep_pages-after n under w long n.pages 0 [] q asc (All-ahead n.pages n.chunk_size)
                  (omega arith) refl
                  (All-of
                    (λ p. (leb (p * n.chunk_size) q && ltb q ((p + 1) * n.chunk_size)) ≡ false)
                    n.pages (λ j l. outside q j e l))
                ∙ ground (arith, inside)))
        | inr (slot, e) ↦ elim (slot_holds 0 n.pages [] (q / n.chunk_size) slot e) [
          | inl old ↦ absurd (unfold JsMap.get in ground (arith, old))
          | inr (low, (lt, page)) ↦
              let cs = n.chunk_size in
              let same : slot - 0 ≡ slot = omega arith in
              let is : get_or n.pages slot 0 ≡ q / cs =
                ap (λ m. get_or n.pages m 0) (sym same) ∙ page in
              let row : get_or n.pages slot 0 * cs ≡ q / cs * cs = ap (λ m. m * cs) is in
              let there : get_or n.pages slot 0 * cs + q % cs ≡ q =
                omega (arith, row, div-add-mod' q cs) in
              rw e (
                ap (byte_at out) (sym there)
                ∙ pages_there slot (q % cs) (omega arith) (omega (arith, lt)) (mod-lt q w.cs_pos))
        ]
      ]

  -- The file of a full snapshot is the database, for pages that ascend and old content as long as what
  -- stays of it: it has its size, and each byte of a page, of the old content, or zero.
  pub full_file-held_byte :
      (file : Bytes) × ((full_file n ≡ some file)
        × ((length file ≡ n.size) × ((q : ℕ) → byte_at file q ≡ held_byte n under q)))
  unfolding full_file
  full_file-held_byte =
      let cs = n.chunk_size in
      let kept = keep_pages n n.pages 0 [] in
      let (out, (done, (pages_there, others))) =
        write_runs_lem n.pages n.page cs w.cs_pos asc w.full (page_runs n.pages cs true) 0
          (per_run cs) kept (page_runs-IsPartition n.pages cs true) in
      (
        truncate_to out n.size,
        (
          rw (done, ◌>>=◌) refl,
          (
            length-truncate_to out n.size,
            λ q. byte_at-truncate_to out n.size q ∙ elim (Bool-cases (ltb q n.size)) [
              | inr past ↦ rw past refl
              | inl inside ↦
                  rw inside (written_byte out pages_there others q (ltb→lt q n.size inside))
            ],
          ),
        ),
      )
