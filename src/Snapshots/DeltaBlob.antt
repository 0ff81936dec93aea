-- ===== src/Snapshots/DeltaBlob.antt =====
-- The Blob of a delta in `indexedDBSnapshotStore` of snapshots.ts has the pages one after the other, as
-- the bytes of a delta in `memorySnapshotStore`.
use native.Mathlib.Nat.{mod-lt, div-add-mod', add-mul}
use sqlite_wasm.Prelude.{
  ◌>>=◌, ℕ, ◌+◌, ◌-◌, ◌*◌, ◌/◌, ◌%◌, ◌≤◌, ◌<◌, ◌≡◌, refl, sym, ap, ◌∙◌, false, some, List, [], ◌∷◌,
  ◌++◌, length, Bytes, byte_at, zeros, arith, length-replicate,
}
use sqlite_wasm.Snapshots.Tiling.{div-lt_of}
use sqlite_wasm.Snapshots.NewSnapshot.{NewSnapshot}
use sqlite_wasm.Snapshots.MemoryStore.{composed_delta}
use sqlite_wasm.Snapshots.Compose.{put_in_order_lem}
use sqlite_wasm.Snapshots.PageRuns.{per_run, page_runs}
use sqlite_wasm.Snapshots.Partition.{IsPartition, page_runs-IsPartition}
use sqlite_wasm.Snapshots.ComposeBlob.{blob_of}
use sqlite_wasm.Snapshots.Tables.{tabulate, is-tabulate, tabulate-append}
use sqlite_wasm.Snapshots.BlobContent.{page_run_lem, div_at, mod_at}
use sqlite_wasm.Snapshots.IdbStore.{run_parts, delta_blob}

module _ {M : Type 0} (n : NewSnapshot M) (cs_pos : 0 < n.chunk_size)
    (full : (i : ℕ) → i < length n.pages → length (n.page i) ≡ n.chunk_size) where
  -- Byte `q` of the pages one after the other
  abbrev page_byte : ℕ → ℕ
  page_byte q = byte_at (n.page (q / n.chunk_size)) (q % n.chunk_size)

  run_bytes :
      (i count : ℕ) (run : Bytes)
      → length run ≡ count * n.chunk_size
      → ((j k : ℕ)
          → k < n.chunk_size
          → j < count
          → byte_at run (j * n.chunk_size + k) ≡ byte_at (n.page (i + j)) k)
      → run ≡ tabulate (i * n.chunk_size) (count * n.chunk_size) page_byte
  run_bytes i count run len bytes =
      let cs = n.chunk_size in
      is-tabulate run (i * cs) (count * cs) page_byte len (λ x h.
        let j = x / cs in
        let k = x % cs in
        let small : k < cs = mod-lt x cs_pos in
        let at_x : j * cs + k ≡ x = div-add-mod' x cs in
        let row : (i + j) * cs ≡ i * cs + j * cs = add-mul i j cs in
        let place : (i + j) * cs + k ≡ i * cs + x = omega (arith, row, at_x) in
        let own : page_byte ((i + j) * cs + k) ≡ byte_at (n.page (i + j)) k =
          rw (div_at (i + j) k cs small, mod_at (i + j) k cs small) refl in
        ap (byte_at run) (sym at_x)
        ∙ (bytes j k small (div-lt_of x count cs cs_pos h) ∙ (sym own ∙ ap page_byte place)))

  run_parts-tabulate :
      (runs : List (ℕ × ℕ)) (i : ℕ)
      → IsPartition n.pages (per_run n.chunk_size) false i runs
      → i ≤ length n.pages
      → (parts : List Bytes) × (run_parts n runs ≡ some parts)
        × (blob_of parts
            ≡ tabulate (i * n.chunk_size) ((length n.pages - i) * n.chunk_size) page_byte)
  unfolding run_parts IsPartition blob_of
  run_parts-tabulate [] i done le =
      let none_left : (length n.pages - i) * n.chunk_size ≡ 0 * n.chunk_size =
        ap (λ m. m * n.chunk_size) (omega (arith, done)) in
      (
        [],
        refl,
        is-tabulate [] (i * n.chunk_size) ((length n.pages - i) * n.chunk_size) page_byte
            (omega (arith, none_left)) (λ x h. absurd (omega (arith, none_left, h))),
      )
  run_parts-tabulate ((from, to) ∷ runs) i (is, (lt, (fits, (_, (_, rest))))) le =
      let cs = n.chunk_size in
      let (run, run_done, run_length, bytes) =
        page_run_lem n.page cs from to (λ j l. full j (omega (arith, l, fits))) in
      let (parts, done, tail) = run_parts-tabulate runs to rest fits in
      let own = run_bytes from (to - from) run run_length bytes in
      let rows : (from + (to - from)) * cs ≡ from * cs + (to - from) * cs =
        add-mul from (to - from) cs in
      let next : to * cs ≡ from * cs + (to - from) * cs =
        ap (λ m. m * cs) (omega (arith, lt)) ∙ rows in
      let first : i * cs ≡ from * cs = ap (λ m. m * cs) (sym is) in
      let counts : (length n.pages - i) * cs ≡ (to - from) * cs + (length n.pages - to) * cs =
        ap (λ m. m * cs) (omega (arith, is, lt, fits))
        ∙ add-mul (to - from) (length n.pages - to) cs in
      (
        run ∷ parts,
        rw (run_done, ◌>>=◌, done, ◌>>=◌) refl,
        cc (own, tail)
            ∙ (ap
                  (λ a.
                    tabulate (from * cs) ((to - from) * cs) page_byte
                    ++ tabulate a ((length n.pages - to) * cs) page_byte)
                  next
                ∙ (tabulate-append (from * cs) ((to - from) * cs) ((length n.pages - to) * cs)
                      page_byte
                    ∙ cc (first, counts))),
      )

  -- Of a delta with chunks of a size that is not 0, each page of which is a whole chunk, the Blob that the
  -- IndexedDB store writes has the bytes that the memory store composes.
  pub delta_blob-composed_delta : delta_blob n ≡ composed_delta n
  unfolding delta_blob composed_delta
  delta_blob-composed_delta =
      let cs = n.chunk_size in
      let size = length n.pages * cs in
      let (parts, done, is) =
        run_parts-tabulate (page_runs n.pages cs false) 0 (page_runs-IsPartition n.pages cs false)
          (omega arith) in
      let start : 0 * cs ≡ 0 = omega arith in
      let rows : (length n.pages - 0) * cs ≡ size = ap (λ m. m * cs) (omega arith) in
      let (b, b_done, b_length, bytes) =
        put_in_order_lem n.page cs 0 n.pages (zeros size) (λ m lt. full m (omega (arith, lt)))
          (omega (arith, length-replicate {A = ℕ} size 0)) in
      let table : b ≡ tabulate 0 size page_byte =
        is-tabulate b 0 size page_byte (b_length ∙ length-replicate {A = ℕ} size 0) (λ x h.
          let small : x % cs < cs = mod-lt x cs_pos in
          let in_pages = div-lt_of x (length n.pages) cs cs_pos h in
          let at_x = div-add-mod' x cs in
          let here : 0 + x ≡ x = omega arith in
          ap (byte_at b) (sym at_x)
          ∙ (bytes (x / cs) (x % cs) small
              ∙ (ground (arith, in_pages) ∙ ap page_byte (sym here)))) in
      rw (done, ◌>>=◌, b_done) (ap some (is ∙ (cc (start, rows) ∙ sym table)))
