-- ===== src/IndexedDb/Durability.antt =====
-- What `IndexedDBPersistence` of indexeddb.ts promises, from the moment that it stores a database.
use sqlite_wasm.Prelude.{ℕ, ◌<◌, ◌≡◌, false, none, arith, ◌∷◌, sym, ◌∙◌}
use sqlite_wasm.IndexedDb.Batch.{Extended, Stored, empty_batch}
use sqlite_wasm.IndexedDb.Merge.{over, over-empty_batch}
use sqlite_wasm.IndexedDb.Commits.{IsWithin}
use sqlite_wasm.IndexedDb.Trace.{World, Among, after_writing, Reach, initial, IsFaithful}
use sqlite_wasm.IndexedDb.Invariant.{initial-IsFaithful, Reach-IsFaithful}

module _ (cs : ℕ) (cs_pos : 0 < cs) (stored : Stored) (size : Extended)
    (within : IsWithin cs size stored) where
  reached : {w : World} → Reach cs (initial stored size) w → IsFaithful cs w
  reached r = Reach-IsFaithful cs cs_pos (initial-IsFaithful cs cs_pos stored size within) r

  -- From a stored file whose chunks all start within its size, or whose size is taken as infinite,
  -- and for commits in chunks of one size that is not 0, in any run: at every moment, between any
  -- commits, flushes, writes that complete or abort, and closing, the stored file is the one that
  -- some commit left (or the one that was there first), in whole, and what is stored, being written
  -- and pending together makes the file of the last commit.
  pub stored_committed :
      {w : World}
      → Reach cs (initial stored size) w
      → Among w.p.stored (w.file ∷ w.past)
        × (over w.p.pending (after_writing w.p.writing w.p.stored) ≡ w.file)
  stored_committed r = ((reached r).stored_whole, (reached r).view)

  -- In the same runs, once no write runs or waits, and the last one did not fail, the stored file
  -- is that of the last commit.
  pub stored_when_drained :
      {w : World}
      → Reach cs (initial stored size) w
      → w.p.queued ≡ 0
      → w.p.writing ≡ none
      → w.p.failed ≡ false
      → w.p.stored ≡ w.file
  stored_when_drained {w} r q i ok = sym (over-empty_batch w.p.stored) ∙ over_pending ∙ f.view
    where
      f : IsFaithful cs w
      f = reached r

      nothing : w.p.pending ≡ empty_batch
      nothing = f.idle (ground (arith, f.retry, f.one_queued))

      over_pending :
          over empty_batch w.p.stored ≡ over w.p.pending (after_writing w.p.writing w.p.stored)
      over_pending = rw (nothing, i)
