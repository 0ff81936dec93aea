-- ===== src/Snapshots/DirectoryDelta.antt =====
-- What `write` of `directorySnapshotStore` of snapshots.ts leaves of a delta, and what `get` then reads.
use sqlite_wasm.Prelude.{
  ◌>>=◌, ℕ, ◌+◌, ◌-◌, ◌*◌, ◌<◌, ◌≡◌, refl, sym, ap, ◌∙◌, String, Option, some, List, [], ◌∷◌, ◌++◌,
  Bool, false, if◌then◌else◌, Bytes, length, zeros, take, drop, string_eq, ◌==◌, arith, beq_refl,
  subst, length-append, take-length, drop_past, append-nil, append_assoc, slice,
}
use native.Mathlib.Nat.{add-mul}
use sqlite_wasm.JsMap
use sqlite_wasm.JsMap.{JsMap, get-set}
use sqlite_wasm.Snapshots.Types.{StoredSnapshot}
use sqlite_wasm.Snapshots.NewSnapshot.{NewSnapshot, DeltaOver}
use sqlite_wasm.Snapshots.MemoryStore.{
  Written, missing_parent, exists, layout_of, stored_as, composed_delta,
}
use sqlite_wasm.Snapshots.LayerReads.{byte_over}
use sqlite_wasm.Snapshots.SavedContent.{held_byte, IsWhole, delta_reads}
use sqlite_wasm.Snapshots.PageRuns.{per_run, page_runs}
use sqlite_wasm.Snapshots.Partition.{IsPartition, page_runs-IsPartition}
use sqlite_wasm.Snapshots.ComposeBlob.{blob_of}
use sqlite_wasm.Snapshots.BlobContent.{page_run_lem}
use sqlite_wasm.Snapshots.IdbStore.{run_parts, delta_blob}
use sqlite_wasm.Snapshots.DeltaBlob.{delta_blob-composed_delta}
use sqlite_wasm.Snapshots.Directory.{
  Directory, SnapshotFile, StoredMeta, meta_or, read_meta, shown_size, file_info, source_of, get_at,
  get_file, is_written, delta_size, parent_lost, create_file, start_file, abort_file, close_file,
  delta_file, delta_marker, write_over, write_runs, write_new, write_file,
}

-- A file that is set twice changes no other.
set_twice :
    (files : JsMap String SnapshotFile) (key k : String) (a b : SnapshotFile)
    → let t = JsMap.set (JsMap.set files key a) key b in
      JsMap.get t k ≡ (if key == k then JsMap.get t key else JsMap.get files k)
set_twice files key k a b = ground (
  arith,
  get-set (JsMap.set files key a) key k b,
  get-set (JsMap.set files key a) key key b,
  get-set files key k a,
  beq_refl key,
)

-- A write at the end of a file
write_over_end : (file part : Bytes) → write_over file part (length file) ≡ file ++ part
unfolding write_over
write_over_end file part =
    let rest : drop (length file + length part) file ≡ [] =
      drop_past (length file + length part) file (omega arith) in
    ap (λ r. take (length file) (file ++ zeros (length file - length file)) ++ (part ++ r)) rest
    ∙ (ap (λ f. f ++ (part ++ [])) (take-length file (zeros (length file - length file)))
        ∙ ap (λ r. file ++ r) (append-nil part))

slice-marker :
    (bytes : Bytes) → slice (delta_marker ++ bytes) 16 (length (delta_marker ++ bytes)) ≡ bytes
unfolding slice
slice-marker bytes =
    let len : length (delta_marker ++ bytes) - 16 ≡ length bytes =
      omega (arith, length-append delta_marker bytes) in
    ap (λ m. take m bytes) len
    ∙ (ap (take (length bytes)) (sym (append-nil bytes)) ∙ take-length bytes [])

module _ {M : Type 0} (n : NewSnapshot M) (cs_pos : 0 < n.chunk_size)
    (full : (i : ℕ) → i < length n.pages → length (n.page i) ≡ n.chunk_size) where
  -- Runs that are written one after the other
  write_runs-append :
      (runs : List (ℕ × ℕ)) (i : ℕ) (file : Bytes)
      → IsPartition n.pages (per_run n.chunk_size) false i runs
      → length file ≡ 16 + i * n.chunk_size
      → (parts : List Bytes) × (run_parts n runs ≡ some parts)
        × (write_runs n.page n.chunk_size (λ i. 16 + i * n.chunk_size) runs file
            ≡ some (file ++ blob_of parts))
  unfolding run_parts write_runs IsPartition blob_of
  write_runs-append [] i file h at = ([], refl, ap some (sym (append-nil file)))
  write_runs-append ((from, to) ∷ runs) i file (is, (lt, (fits, (few, (next, rest))))) at =
      let cs = n.chunk_size in
      let (run, run_done, run_length, bytes) =
        page_run_lem n.page cs from to (λ j l. full j (omega (arith, l, fits))) in
      let place : 16 + from * cs ≡ length file = ap (λ i. 16 + i * cs) is ∙ sym at in
      let rows : (from + (to - from)) * cs ≡ from * cs + (to - from) * cs =
        add-mul from (to - from) cs in
      let end : to * cs ≡ from * cs + (to - from) * cs =
        ap (λ m. m * cs) (omega (arith, lt)) ∙ rows in
      let long : length (file ++ run) ≡ 16 + to * cs =
        omega (arith, length-append file run, run_length, place, end) in
      let (parts, done, written_) = write_runs-append runs to (file ++ run) rest long in
      let put : write_over file run (16 + from * cs) ≡ file ++ run =
        ap (write_over file run) place ∙ write_over_end file run in
      (
        run ∷ parts,
        rw (run_done, ◌>>=◌, done, ◌>>=◌) refl,
        rw (run_done, ◌>>=◌, put, written_) (ap some (append_assoc file run (blob_of parts))),
      )

  -- A delta file is the marker and what the memory store has of the delta.
  pub delta_file_lem :
      (bytes : Bytes) → composed_delta n ≡ some bytes → delta_file n ≡ some (delta_marker ++ bytes)
  unfolding delta_file
  delta_file_lem bytes composed =
      let runs = page_runs n.pages n.chunk_size false in
      let (parts, done, written_) =
        write_runs-append runs 0 delta_marker (page_runs-IsPartition n.pages n.chunk_size false)
          (omega arith) in
      let start : write_over [] delta_marker 0 ≡ delta_marker = write_over_end [] delta_marker in
      let blob : delta_blob n ≡ some (blob_of parts) = unfold delta_blob in rw (done, ◌>>=◌) refl in
      let same : blob_of parts ≡ bytes =
        ground (arith, blob, delta_blob-composed_delta n cs_pos full, composed) in
      rw start (written_ ∙ ap (λ b. some (delta_marker ++ b)) same)

module _ {M : Type 0} where
  -- The snapshot, saved as a delta
  abbrev pub over : NewSnapshot M → DeltaOver → NewSnapshot M
  over n d = record n { delta = some d }

  meta_of_delta : ℕ → M → NewSnapshot M → DeltaOver → StoredMeta M
  meta_of_delta now meta n d = record {
    branch = n.branch;
    meta = meta;
    created_at = now;
    size = some n.size;
    delta = layout_of n (some d);
  }

  -- What is left of a delta whose file is made
  left_delta : ℕ → M → NewSnapshot M → DeltaOver → Bytes → Directory M → Directory M
  left_delta now meta n d bytes s = record {
    files =
        JsMap.set (JsMap.set s.files n.key (record { bytes = []; last_modified = now })) n.key
          (record { bytes = bytes; last_modified = now });
    metas = JsMap.set s.metas n.key (meta_of_delta now meta n d);
  }

  wrote_delta :
      (json : M → Option M) (no_meta : M) (now : ℕ) (meta : M) (n : NewSnapshot M) (d : DeltaOver)
      (bytes : Bytes) (s : Directory M)
      → delta_file (over n d) ≡ some bytes
      → json n.meta ≡ some meta
      → is_written (JsMap.get s.files n.key) ≡ false
      → parent_lost no_meta (start_file now meta (over n d) s) (some d) ≡ false
      → (write_file json no_meta now (over n d) s).1 ≡ left_delta now meta n d bytes s
  unfolding write_file write_new start_file create_file close_file delta_size layout_of left_delta
      meta_of_delta
  wrote_delta json no_meta now meta n d bytes s done kept fresh found =
      let started = start_file now meta (over n d) s in
      let closed = close_file now (over n d) (delta_file (over n d)) started in
      let ended : Bool → Option (Written M) × Directory M = λ b.
        if b
        then (some missing_parent, abort_file (over n d) started)
        else (some closed.0, closed.1) in
      ap
        (λ (b : Bool).
          (if b then (some exists, s) else write_new no_meta now (over n d) (json n.meta) s).1)
        fresh
      ∙ (ap (λ o. (write_new no_meta now (over n d) o s).1) kept
          ∙ (ap (λ b. (ended b).1) found ∙ ap (λ o. (close_file now (over n d) o started).1) done))

  -- The snapshot that is got back
  abbrev pub got_delta : ℕ → M → NewSnapshot M → DeltaOver → Bytes → StoredSnapshot M
  got_delta now meta n d source = record {
    info = record {
      key = n.key;
      branch = n.branch;
      meta = meta;
      created_at = now;
      size = n.size;
      parent = some d.parent;
    };
    source = source;
    delta = layout_of n (some d);
  }

  get_left_delta :
      (no_meta : M) (now : ℕ) (meta : M) (n : NewSnapshot M) (d : DeltaOver) (bytes : Bytes)
      (s : Directory M)
      → get_file no_meta (left_delta now meta n d (delta_marker ++ bytes) s) n.key
        ≡ some (got_delta now meta n d bytes)
  unfolding get_file left_delta get_at read_meta meta_or file_info shown_size source_of
      meta_of_delta layout_of
  get_left_delta no_meta now meta n d bytes s =
      let marked = delta_marker ++ bytes in
      let file : SnapshotFile = record { bytes = marked; last_modified = now } in
      let files = JsMap.set s.files n.key (record { bytes = []; last_modified = now }) in
      let of : StoredMeta M = meta_of_delta now meta n d in
      let there : JsMap.get (JsMap.set files n.key file) n.key ≡ some file =
        get-set files n.key n.key file
        ∙ ap (λ b. if b then some file else JsMap.get files n.key) (beq_refl n.key) in
      let meta_there : JsMap.get (JsMap.set s.metas n.key of) n.key ≡ some of =
        get-set s.metas n.key n.key of
        ∙ ap (λ b. if b then some of else JsMap.get s.metas n.key) (beq_refl n.key) in
      let shown : shown_size (length marked) (some n.size) ≡ n.size =
        ground (arith, length-append delta_marker bytes) in
      ap (get_at no_meta (left_delta now meta n d marked s) n.key) there
      ∙ (ap
            (λ o. some (record {
              info = file_info n.key (meta_or no_meta now o) (length marked);
              source = source_of marked (meta_or no_meta now o).delta;
              delta = (meta_or no_meta now o).delta;
            }))
            meta_there
          ∙ (ap
                (λ size. some (record {
                  info = record {
                    key = n.key;
                    branch = n.branch;
                    meta = meta;
                    created_at = now;
                    size = size;
                    parent = some d.parent;
                  };
                  source = source_of marked (layout_of n (some d));
                  delta = layout_of n (some d);
                }))
                shown
              ∙ ap (λ source. some (got_delta now meta n d source)) (slice-marker bytes)))

  -- A delta of whole chunks over a snapshot that is there when it is written, whose metadata JSON can
  -- write, and that is written under a key without a file or with an empty one, is got back with its
  -- branch, its time, its size, its parent and its layout, and with the metadata that JSON gives back;
  -- over the bytes of the snapshot below, it reads as the database; the files of other keys stay.
  pub get_file-write_delta :
      (json : M → Option M) (no_meta : M) (now : ℕ) (n : NewSnapshot M) (d : DeltaOver) (meta : M)
      (under : ℕ → ℕ) (s : Directory M)
      → IsWhole (over n d) under
      → json n.meta ≡ some meta
      → is_written (JsMap.get s.files n.key) ≡ false
      → parent_lost no_meta (start_file now meta (over n d) s) (some d) ≡ false
      → let t = (write_file json no_meta now (over n d) s).1 in
        (source : Bytes) × ((get_file no_meta t n.key ≡ some (got_delta now meta n d source))
          × (((q : ℕ)
                → byte_over (got_delta now meta n d source) under (layout_of n (some d)) q
                  ≡ held_byte (over n d) under q)
              × ((k : String)
                  → JsMap.get t.files k
                    ≡ (if n.key == k then JsMap.get t.files n.key else JsMap.get s.files k))))
  unfolding byte_over stored_as layout_of left_delta
  get_file-write_delta json no_meta now n d meta under s w kept fresh found =
      let (source, done, reads) = delta_reads (over n d) under w now d in
      let file = delta_file_lem (over n d) w.cs_pos w.full source done in
      let is =
        wrote_delta json no_meta now meta n d (delta_marker ++ source) s file kept fresh found in
      (
        source,
        (
          ap (λ (t : Directory M). get_file no_meta t n.key) is
              ∙ get_left_delta no_meta now meta n d source s,
          (
            reads,
            λ k.
                subst
                  (λ (t : Directory M).
                    JsMap.get t.files k
                    ≡ (if n.key == k then JsMap.get t.files n.key else JsMap.get s.files k))
                  (sym is)
                  (set_twice s.files n.key k (record { bytes = []; last_modified = now })
                    (record { bytes = delta_marker ++ source; last_modified = now })),
          ),
        ),
      )
