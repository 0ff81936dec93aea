-- ===== src/Snapshots/Directory.antt =====
-- `directorySnapshotStore` of snapshots.ts, over two maps of files: the snapshots, by key, and their
-- metadata, which JSON keeps. That their names differ is shown of `encodeKey`.
use sqlite_wasm.Prelude.{
  ◌>>=◌, ℕ, ◌+◌, ◌-◌, ◌*◌, min, String, Option, none, some, List, [], ◌∷◌, ◌++◌, map, any, ltb, eqb,
  ◌&&◌, ◌||◌, not, if◌then◌else◌, Bool, true, false, Bytes, length, slice, zeros, take, drop,
  get_or, string_eq, ◌==◌,
}
use sqlite_wasm.JsMap
use sqlite_wasm.JsMap.{JsMap}
use sqlite_wasm.Snapshots.Types.{DeltaLayout, StoredSnapshot, SnapshotInfo}
use sqlite_wasm.Snapshots.NewSnapshot.{NewSnapshot, DeltaOver}
use sqlite_wasm.Snapshots.MemoryStore.{
  Written, written, exists, missing_parent, range_error, stored_as, layout_of,
}
use sqlite_wasm.Snapshots.PageRuns.{page_runs, page_run}
use sqlite_wasm.Snapshots.IdbStore.{layout_parent}

-- `FileWriter.write`, which fills what lies between with zeros
unfoldable pub write_over : Bytes → Bytes → ℕ → Bytes
write_over file part at =
    take at (file ++ zeros (at - length file)) ++ (part ++ drop (at + length part) file)

-- `FileWriter.truncate`
unfoldable pub truncate_to : Bytes → ℕ → Bytes
truncate_to file size = take size (file ++ zeros (size - length file))

-- DELTA_MARKER, "SQLite delta" and four zeros
abbrev pub delta_marker : Bytes
delta_marker = 83 ∷ 81 ∷ 76 ∷ 105 ∷ 116 ∷ 101 ∷ 32 ∷ 100 ∷ 101 ∷ 108 ∷ 116 ∷ 97 ∷ 0 ∷ 0 ∷ 0 ∷ 0 ∷ []

-- `writePages`, of the runs that are left
unfoldable pub write_runs : (ℕ → Bytes) → ℕ → (ℕ → ℕ) → List (ℕ × ℕ) → Bytes → Option Bytes
unfolding page_run write_over
write_runs page cs position [] file = some file
write_runs page cs position ((i, end) ∷ runs) file = do
  run ← page_run page cs i end
  write_runs page cs position runs (write_over file run (position i))

-- `baseRange`, where there is old content
unfoldable pub base_range : Option Bytes → ℕ → ℕ → Bytes
base_range none start end = []
base_range (some base) start end = slice base start end

module _ {M : Type 0} where
  -- The write of `keep`
  unfoldable pub keep_to : NewSnapshot M → ℕ → ℕ → Bytes → Bytes
  unfolding base_range write_over
  keep_to n at end file =
      let to = min end (min n.visible n.size) in
      if ltb at to then write_over file (base_range n.base at to) at else file

  -- The loop over the pages, and the `keep` after it
  unfoldable pub keep_pages : NewSnapshot M → List ℕ → ℕ → Bytes → Bytes
  unfolding keep_to
  keep_pages n [] at file = keep_to n at n.size file
  keep_pages n (index ∷ pages) at file =
      keep_pages n pages ((index + 1) * n.chunk_size) (keep_to n at (index * n.chunk_size) file)

  -- What the writer of a full snapshot has when it closes
  unfoldable pub full_file : NewSnapshot M → Option Bytes
  unfolding keep_pages write_runs page_runs truncate_to
  full_file n = do
    file ←
        write_runs n.page n.chunk_size (λ i. get_or n.pages i 0 * n.chunk_size)
          (page_runs n.pages n.chunk_size true) (keep_pages n n.pages 0 [])
    some (truncate_to file n.size)

  unfoldable pub delta_file : NewSnapshot M → Option Bytes
  unfolding write_runs page_runs write_over
  delta_file n =
      write_runs n.page n.chunk_size (λ i. length delta_marker + i * n.chunk_size)
        (page_runs n.pages n.chunk_size false) (write_over [] delta_marker 0)

-- A file of a snapshot
pub record SnapshotFile : Type 0 where
  pub bytes : Bytes
  pub last_modified : ℕ

-- What is stored of a snapshot beside its file, where a delta has its size and layout
pub record StoredMeta (M : Type 0) : Type 0 where
  pub branch : String
  pub meta : M
  pub created_at : ℕ
  pub size : Option ℕ
  pub delta : Option DeltaLayout

pub record Directory (M : Type 0) : Type 0 where
  pub files : JsMap String SnapshotFile
  pub metas : JsMap String (StoredMeta M)

-- `bytes === 0 ? 0 : (size ?? bytes)`
unfoldable pub shown_size : ℕ → Option ℕ → ℕ
shown_size bytes none = bytes
shown_size bytes (some size) = if eqb bytes 0 then 0 else size

-- Pages follow the marker of a delta file.
unfoldable pub source_of : Bytes → Option DeltaLayout → Bytes
source_of bytes none = bytes
source_of bytes (some d) = slice bytes (length delta_marker) (length bytes)

-- `existing && sizeOf(existing) > 0`
unfoldable pub is_written : Option SnapshotFile → Bool
is_written none = false
is_written (some f) = ltb 0 (length f.bytes)

module _ {M : Type 0} where
  -- `readMeta`; `no_meta` is the empty object. What is stored there was written by `write`, and has
  -- its metadata as `JSON.parse` gives them back.
  unfoldable pub meta_or : M → ℕ → Option (StoredMeta M) → StoredMeta M
  meta_or no_meta last_modified none = record {
    branch = "";
    meta = no_meta;
    created_at = last_modified;
    size = none;
    delta = none;
  }
  meta_or no_meta last_modified (some m) = m

  unfoldable pub read_meta : M → Directory M → String → ℕ → StoredMeta M
  unfolding meta_or
  read_meta no_meta s key last_modified = meta_or no_meta last_modified (JsMap.get s.metas key)

  -- `infoOf`
  unfoldable pub file_info : String → StoredMeta M → ℕ → SnapshotInfo M
  unfolding shown_size
  file_info key m bytes = record {
    key = key;
    branch = m.branch;
    meta = m.meta;
    created_at = m.created_at;
    size = shown_size bytes m.size;
    parent = layout_parent m.delta;
  }

  unfoldable pub list_files : M → Directory M → List (SnapshotInfo M)
  unfolding read_meta file_info
  list_files no_meta s =
      map (λ e. file_info e.0 (read_meta no_meta s e.0 e.1.last_modified) (length e.1.bytes))
        s.files

  unfoldable pub get_at : M → Directory M → String → Option SnapshotFile → Option (StoredSnapshot M)
  unfolding read_meta file_info source_of
  get_at no_meta s key none = none
  get_at no_meta s key (some f) =
      let m = read_meta no_meta s key f.last_modified in
      some (record {
        info = file_info key m (length f.bytes);
        source = source_of f.bytes m.delta;
        delta = m.delta;
      })

  unfoldable pub get_file : M → Directory M → String → Option (StoredSnapshot M)
  unfolding get_at
  get_file no_meta s key = get_at no_meta s key (JsMap.get s.files key)

  unfoldable pub delta_size : NewSnapshot M → Option DeltaOver → Option ℕ
  delta_size n none = none
  delta_size n (some d) = some n.size

  -- `!parent?.info.size || parent.info.createdAt !== delta.parentCreatedAt`
  unfoldable pub lost_at : Option (StoredSnapshot M) → ℕ → Bool
  lost_at none created_at = true
  lost_at (some p) created_at = eqb p.info.size 0 || not (eqb p.info.created_at created_at)

  unfoldable pub parent_lost : M → Directory M → Option DeltaOver → Bool
  unfolding get_file lost_at
  parent_lost no_meta s none = false
  parent_lost no_meta s (some d) = lost_at (get_file no_meta s d.parent) d.parent_created_at

  -- `directory.create`, which leaves an empty file
  unfoldable pub create_file : ℕ → NewSnapshot M → Directory M → Directory M
  create_file now n s = record s {
    files = JsMap.set s.files n.key (record { bytes = []; last_modified = now });
  }

  -- The empty file of a snapshot, and its metadata, with `meta` as JSON has it
  unfoldable pub start_file : ℕ → M → NewSnapshot M → Directory M → Directory M
  unfolding delta_size layout_of create_file
  start_file now meta n s =
      let created = create_file now n s in
      record created {
        metas = JsMap.set s.metas n.key (record {
          branch = n.branch;
          meta = meta;
          created_at = now;
          size = delta_size n n.delta;
          delta = layout_of n n.delta;
        });
      }

  -- The writer was aborted, which removes the file that it created, and the metadata is removed.
  unfoldable pub abort_file : NewSnapshot M → Directory M → Directory M
  abort_file n s = record { files = JsMap.delete s.files n.key; metas = JsMap.delete s.metas n.key }

  abbrev pub file_for : NewSnapshot M → Option DeltaOver → Option Bytes
  file_for n none = full_file n
  file_for n (some d) = delta_file n

  unfoldable pub close_file :
      ℕ → NewSnapshot M → Option Bytes → Directory M → Written M × Directory M
  unfolding stored_as source_of layout_of abort_file
  close_file now n none s = (range_error, abort_file n s)
  close_file now n (some bytes) s = (
    written (stored_as n now (source_of bytes (layout_of n n.delta))),
    record s { files = JsMap.set s.files n.key (record { bytes = bytes; last_modified = now }) },
  )

  -- `write` of a key without a file, where `meta` is what JSON makes of the metadata
  unfoldable pub write_new :
      M → ℕ → NewSnapshot M → Option M → Directory M → Option (Written M) × Directory M
  unfolding create_file start_file parent_lost abort_file close_file
  write_new no_meta now n none s = (none, abort_file n (create_file now n s))
  write_new no_meta now n (some meta) s =
      let started = start_file now meta n s in
      let (result, t) = close_file now n (file_for n n.delta) started in
      if parent_lost no_meta started n.delta
      then (some missing_parent, abort_file n started)
      else (some result, t)

  -- `write`, with nothing else happening meanwhile, and a clock that reads `now`. `json` is what
  -- `JSON.parse` gives back of the metadata that `JSON.stringify` is given, or none where that throws;
  -- a result of none is that error.
  unfoldable pub write_file :
      (M → Option M) → M → ℕ → NewSnapshot M → Directory M → Option (Written M) × Directory M
  unfolding is_written write_new
  write_file json no_meta now n s =
      if is_written (JsMap.get s.files n.key)
      then (some exists, s)
      else write_new no_meta now n (json n.meta) s

  unfoldable pub has_parent : String → SnapshotInfo M → Bool
  has_parent key s = elim s.parent [ none ↦ false | some parent ↦ parent == key ]

  unfoldable pub remove_file : M → String → Bool → Directory M → Bool × Directory M
  unfolding list_files has_parent
  remove_file no_meta key force s =
      if not force && any (has_parent key) (list_files no_meta s) then (false, s) else (
        JsMap.has s.files key,
        record { files = JsMap.delete s.files key; metas = JsMap.delete s.metas key },
      )
