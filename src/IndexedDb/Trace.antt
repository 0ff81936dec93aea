-- ===== src/IndexedDb/Trace.antt =====
-- The runs of a persistence: commits, flushes and closing in any order, between writes that succeed
-- or fail, with the files that the commits left.
use sqlite_wasm.Prelude.{
  ℕ, ◌<◌, ◌≡◌, true, false, Option, none, some, if◌then◌else◌, List, [], ◌∷◌, ◌⊎◌, nat_eq,
}
use sqlite_wasm.JsMap.{IsDistinct}
use sqlite_wasm.IndexedDb.Batch.{Extended, Commit, Batch, empty_batch, Stored}
use sqlite_wasm.IndexedDb.Merge.{over}
use sqlite_wasm.IndexedDb.Persistence.{
  Persistence, is_some, create, commit, begin_write, end_write, fail_write, flush, close,
  disconnect,
}
use sqlite_wasm.IndexedDb.Commits.{apply_commit, IsWithin, IsCommit}

-- A persistence, the committed file of its database, and the files of earlier commits.
pub record World : Type 0 where
  pub p : Persistence
  pub file : Stored
  pub past : List Stored

abbrev pub Among : Stored → List Stored → Type 0
Among x [] = ⊥
Among x (y ∷ ys) = (x ≡ y) ⊎ Among x ys

-- The stored file once the write that runs completes.
abbrev pub after_writing : Option Batch → Stored → Stored
after_writing none stored = stored
after_writing (some batch) stored = over batch stored

-- What can happen next, for chunks of `cs` bytes.
pub data Step (cs : ℕ) : World → World → Type 0 where
  committed :
      (w : World) (c : Commit)
      → IsCommit cs c
      → w.p.closed ≡ false
      → Step cs w
          (record { p = commit c w.p; file = apply_commit c w.file; past = w.file ∷ w.past })
  not_stored :
      (w : World) (c : Commit) → w.p.closed ≡ true → Step cs w (record w { p = commit c w.p })
  begins :
      (w : World)
      → 0 < w.p.queued
      → w.p.writing ≡ none
      → Step cs w (record w { p = begin_write w.p })
  completes :
      (w : World) (b : Batch) → w.p.writing ≡ some b → Step cs w (record w { p = end_write b w.p })
  aborts :
      (w : World) (b : Batch) → w.p.writing ≡ some b → Step cs w (record w { p = fail_write b w.p })
  flushes : (w : World) → Step cs w (record w { p = flush w.p })
  closes : (w : World) → Step cs w (record w { p = close w.p })
  disconnects :
      (w : World)
      → w.p.closed ≡ true
      → w.p.queued ≡ 0
      → w.p.writing ≡ none
      → Step cs w (record w { p = disconnect w.p })

pub data Reach (cs : ℕ) (v : World) : World → Type 0 where
  here : Reach cs v v
  next : {w x : World} → Reach cs v w → Step cs w x → Reach cs v x

-- Nothing is pending or being written, and the file is the stored one.
unfoldable pub initial : Stored → Extended → World
initial stored size = record { p = create stored size; file = stored; past = [] }

pub record IsFaithful (cs : ℕ) (w : World) : Type 0 where
  -- What is stored, being written and pending makes the committed file.
  pub view : over w.p.pending (after_writing w.p.writing w.p.stored) ≡ w.file
  -- What is stored, and what the running write makes of it, are files of whole commits.
  pub stored_whole : Among w.p.stored (w.file ∷ w.past)
  pub writing_whole : Among (after_writing w.p.writing w.p.stored) (w.file ∷ w.past)
  pub pending_distinct : IsDistinct w.p.pending.chunks
  pub writing_distinct : (b : Batch) → w.p.writing ≡ some b → IsDistinct b.chunks
  pub writing_meta : (b : Batch) → w.p.writing ≡ some b → is_some b.meta ≡ true
  pub within : IsWithin cs w.p.size w.file
  -- One write at most waits, and never an empty one.
  pub one_queued : w.p.queued ≡ (if w.p.scheduled then 1 else 0)
  pub queued_meta : w.p.scheduled ≡ true → is_some w.p.pending.meta ≡ true
  pub idle : is_some w.p.pending.meta ≡ false → w.p.pending ≡ empty_batch
  -- Commits wait without a write that will store them only after a write failed.
  pub retry :
      is_some w.p.pending.meta ≡ true
      → w.p.scheduled ≡ false
      → (w.p.writing ≡ none) × (w.p.failed ≡ true)
