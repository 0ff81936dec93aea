-- ===== src/IndexedDb/Persistence.antt =====
-- `IndexedDBPersistence` of indexeddb.ts, with the promise queue that runs its writes, the stored
-- file and the registry entries of its name.
use sqlite_wasm.Prelude.{
  ℕ, ◌+◌, ◌-◌, ◌/◌, Bool, true, false, Option, none, some, if◌then◌else◌, not, ◌&&◌,
}
use sqlite_wasm.IndexedDb.Batch.{
  Extended, fin, infinity, lt_ext, Commit, Batch, empty_batch, merge, Stored, write_batch,
}

-- `Math.ceil(a / b)`
unfoldable pub ceil_div : ℕ → ℕ → ℕ
ceil_div a b = (a + b - 1) / b

pub record Persistence : Type 0 where
  pub pending : Batch
  pub scheduled : Bool
  pub closed : Bool
  -- of the stored file, or infinity to replace it on first write
  pub size : Extended
  -- Writes chained to `queue` that did not start, the batch of the one that runs, and whether what
  -- `queue` resolves to is an error.
  pub queued : ℕ
  pub writing : Option Batch
  pub failed : Bool
  -- The IndexedDB database, and whether this connection to it is open.
  pub stored : Stored
  pub connected : Bool
  -- Whether the name is in `names.active`, and in `names.closing`.
  pub active : Bool
  pub closing : Bool

-- `new IndexedDBPersistence(…)`, for a name that `store` made active
unfoldable pub create : Stored → Extended → Persistence
unfolding empty_batch
create stored size = record {
  pending = empty_batch;
  scheduled = false;
  closed = false;
  size = size;
  queued = 0;
  writing = none;
  failed = false;
  stored = stored;
  connected = true;
  active = true;
  closing = false;
}

-- Where a write is scheduled already, both fields stay as they are.
unfoldable pub schedule : Persistence → Persistence
schedule p = record p { scheduled = true; queued = if p.scheduled then p.queued else p.queued + 1 }

-- The batch that `commit` merges into the pending one.
unfoldable pub commit_batch : Extended → Commit → Batch
unfolding lt_ext ceil_div
commit_batch size c = record {
  truncate =
      if lt_ext (fin c.min_size) size then fin (ceil_div c.min_size c.chunk_size) else infinity;
  chunks = c.chunks;
  meta = some (record { size = c.size; chunk_size = c.chunk_size });
}

unfoldable pub commit : Commit → Persistence → Persistence
unfolding commit_batch schedule
commit c p =
    if p.closed
    then p
    else schedule
        (record p { pending = merge p.pending (commit_batch p.size c); size = fin c.size })

-- `write` up to its `await`: the queue starts it when the write before is done.
unfoldable pub begin_write : Persistence → Persistence
unfolding empty_batch
begin_write p = record p {
  scheduled = false;
  queued = p.queued - 1;
  writing = some p.pending;
  pending = empty_batch;
}

-- `write` after its `await`, where the transaction completed and where it aborted
unfoldable pub end_write : Batch → Persistence → Persistence
end_write batch p = record p { writing = none; failed = false; stored = write_batch batch p.stored }

unfoldable pub fail_write : Batch → Persistence → Persistence
fail_write batch p = record p { writing = none; failed = true; pending = merge batch p.pending }

abbrev pub is_some {ℓ} : {A : Type ℓ} → Option A → Bool
is_some none = false
is_some (some a) = true

-- `flush` up to its `await`
unfoldable pub flush : Persistence → Persistence
unfolding schedule
flush p = if not p.closed && is_some p.pending.meta then schedule p else p

unfoldable pub close : Persistence → Persistence
unfolding schedule
close p =
    if p.closed
    then p
    else let q = (if is_some p.pending.meta then schedule p else p) in
      record q { closed = true; active = false; closing = true }

-- What `close` chains to the queue, once it is empty.
unfoldable pub disconnect : Persistence → Persistence
disconnect p = record p { connected = false; closing = false }
