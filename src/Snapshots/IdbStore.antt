-- ===== src/Snapshots/IdbStore.antt =====
-- `indexedDBSnapshotStore` of snapshots.ts: the records of its object store, by key. The requests of
-- one transaction are one step; between the transactions of a write, other Workers may write.
use sqlite_wasm.Prelude.{
  ◌>>=◌, ℕ, String, Option, none, some, List, [], ◌∷◌, map, keep, any, ltb, eqb, ◌&&◌, ◌||◌, not,
  if◌then◌else◌, Bool, true, false, Bytes, string_eq, ◌==◌,
}
use sqlite_wasm.JsMap
use sqlite_wasm.JsMap.{JsMap}
use sqlite_wasm.Snapshots.Types.{DeltaLayout, StoredSnapshot, SnapshotInfo}
use sqlite_wasm.Snapshots.NewSnapshot.{NewSnapshot, DeltaOver}
use sqlite_wasm.Snapshots.MemoryStore.{
  Written, written, exists, missing_parent, range_error, stored_as, lies_over,
}
use sqlite_wasm.Snapshots.PageRuns.{page_runs, page_run}
use sqlite_wasm.Snapshots.ComposeBlob.{blob_of, compose_blob}

abbrev pub layout_parent : Option DeltaLayout → Option String
layout_parent none = none
layout_parent (some d) = some d.parent

-- A BaseRecord is a stored snapshot with its blob as the source.
abbrev pub Records : Type 0 → Type 0
Records M = JsMap String (StoredSnapshot M)

module _ {M : Type 0} where
  -- `info`
  unfoldable pub info_of : StoredSnapshot M → SnapshotInfo M
  info_of r = record {
    key = r.info.key;
    branch = r.info.branch;
    meta = r.info.meta;
    created_at = r.info.created_at;
    size = r.info.size;
    parent = layout_parent r.delta;
  }

  unfoldable pub list_records : Records M → List (SnapshotInfo M)
  unfolding info_of
  list_records s = map (λ e. info_of e.1) s

  -- Whether a cursor of the direction 'prev' reaches one record before another: by time, and then by
  -- key, which `key_before` compares.
  unfoldable pub comes_first : (String → String → Bool) → StoredSnapshot M → StoredSnapshot M → Bool
  comes_first key_before a b =
      ltb b.info.created_at a.info.created_at
      || (eqb a.info.created_at b.info.created_at && key_before b.info.key a.info.key)

  unfoldable pub first_record :
      (String → String → Bool) → Option (StoredSnapshot M) → Records M → Option (StoredSnapshot M)
  unfolding comes_first
  first_record key_before best [] = best
  first_record key_before none ((key, r) ∷ s) = first_record key_before (some r) s
  first_record key_before (some b) ((key, r) ∷ s) =
      first_record key_before (if comes_first key_before r b then some r else some b) s

  unfoldable pub of_branch : Option String → String × StoredSnapshot M → Bool
  of_branch none e = true
  of_branch (some branch) e = e.1.info.branch == branch

  unfoldable pub head_of : Option (StoredSnapshot M) → Option (SnapshotInfo M)
  unfolding info_of
  head_of none = none
  head_of (some r) = some (info_of r)

  unfoldable pub head_record :
      (String → String → Bool) → Option String → Records M → Option (SnapshotInfo M)
  unfolding first_record of_branch head_of
  head_record key_before branch s =
      head_of (first_record key_before none (keep (of_branch branch) s))

  unfoldable pub read_record : Option (StoredSnapshot M) → Option (StoredSnapshot M)
  unfolding info_of
  read_record none = none
  read_record (some r) = some (record { info = info_of r; source = r.source; delta = r.delta })

  unfoldable pub get_record : Records M → String → Option (StoredSnapshot M)
  unfolding read_record
  get_record s key = read_record (JsMap.get s key)

  -- `[...pageRuns(pages, chunkSize, false)].map(…)`; `none` is a RangeError.
  unfoldable pub run_parts : NewSnapshot M → List (ℕ × ℕ) → Option (List Bytes)
  unfolding page_run
  run_parts n [] = some []
  run_parts n ((i, end) ∷ runs) = do
    run ← page_run n.page n.chunk_size i end
    parts ← run_parts n runs
    some (run ∷ parts)

  unfoldable pub delta_blob : NewSnapshot M → Option Bytes
  unfolding run_parts page_runs blob_of
  delta_blob n = do parts ← run_parts n (page_runs n.pages n.chunk_size false); some (blob_of parts)

  abbrev pub blob_for : NewSnapshot M → Option DeltaOver → Option Bytes
  blob_for n none = compose_blob n
  blob_for n (some d) = delta_blob n

  unfoldable pub differs : Option (StoredSnapshot M) → ℕ → Bool
  differs none created_at = true
  differs (some p) created_at = not (eqb p.info.created_at created_at)

  -- The parent of a delta was not found, or is one that was written later under its key.
  unfoldable pub parent_missing : Records M → Option DeltaOver → Bool
  unfolding differs
  parent_missing s none = false
  parent_missing s (some d) = differs (JsMap.get s d.parent) d.parent_created_at

  -- The transaction of `write`
  unfoldable pub add_record : ℕ → NewSnapshot M → Bytes → Records M → Written M × Records M
  unfolding parent_missing stored_as
  add_record now n blob s =
      let new = stored_as n now blob in
      if parent_missing s n.delta
      then (missing_parent, s)
      else if JsMap.has s n.key
      then (exists, s)
      else (written new, JsMap.set s n.key new)

  -- What `write` resolves to after the transaction: the blob as it is stored, if it still is
  unfoldable pub stored_blob : Option (StoredSnapshot M) → ℕ → Bytes → Bytes
  stored_blob none created_at blob = blob
  stored_blob (some r) created_at blob = if eqb r.info.created_at created_at then r.source else blob

  unfoldable pub read_back : NewSnapshot M → ℕ → Bytes → Written M → Records M → Written M
  unfolding stored_blob stored_as
  read_back n now blob (written r) s =
      written (stored_as n now (stored_blob (JsMap.get s n.key) now blob))
  read_back n now blob result s = result

  unfoldable pub add_blob : ℕ → NewSnapshot M → Option Bytes → Records M → Written M × Records M
  unfolding add_record read_back
  add_blob now n none s = (range_error, s)
  add_blob now n (some blob) s =
      let added = add_record now n blob s in (read_back n now blob added.0 added.1, added.1)

  -- `write`, with nothing else happening meanwhile, and a clock that reads `now`
  unfoldable pub write_record : ℕ → NewSnapshot M → Records M → Written M × Records M
  unfolding add_blob
  write_record now n s =
      if JsMap.has s n.key then (exists, s) else add_blob now n (blob_for n n.delta) s

  unfoldable pub remove_record : String → Bool → Records M → Bool × Records M
  unfolding lies_over
  remove_record key force s =
      if any (lies_over key) s && not force
      then (false, s)
      else (JsMap.has s key, if JsMap.has s key then JsMap.delete s key else s)

-- A transaction of a Worker: the add of a Blob in a write, or a removal
pub data Transaction (M : Type 0) : Type 0 where
  adds : ℕ → NewSnapshot M → Bytes → Transaction M
  removes : String → Transaction M

module _ {M : Type 0} where
  unfoldable pub transact : Transaction M → Records M → Records M
  unfolding add_record remove_record
  transact (adds now n blob) s = (add_record now n blob s).1
  transact (removes key) s = (remove_record key false s).1

  unfoldable pub transact_all : List (Transaction M) → Records M → Records M
  unfolding transact
  transact_all [] s = s
  transact_all (t ∷ ts) s = transact_all ts (transact t s)
