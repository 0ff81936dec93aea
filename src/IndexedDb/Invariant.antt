-- ===== src/IndexedDb/Invariant.antt =====
-- Every run keeps the stored file a committed one, and loses no commit that was not stored.
use sqlite_wasm.Prelude.{
  ℕ, ◌<◌, ◌≡◌, refl, Bool, true, false, none, some, arith, ◌∷◌, if_elim, inl, inr, Bool-cases,
  Option-cases, nat_eq, not, ◌&&◌, sym, ◌∙◌, ap, subst,
}
use sqlite_wasm.JsMap.{IsDistinct}
use sqlite_wasm.IndexedDb.Batch.{Extended, Commit, Batch, empty_batch, merge, Stored, write_batch}
use sqlite_wasm.IndexedDb.Merge.{
  over, over-merge, write_batch-over, over-empty_batch, merge-IsDistinct,
}
use sqlite_wasm.IndexedDb.Persistence.{
  is_some, create, schedule, commit, commit_batch, begin_write, end_write, fail_write, flush, close,
  disconnect,
}
use sqlite_wasm.IndexedDb.Commits.{
  apply_commit, IsWithin, IsCommit, over-commit_batch, apply_commit-IsWithin,
}
use sqlite_wasm.IndexedDb.Trace.{
  World, Among, after_writing, Step, committed, not_stored, begins, completes, aborts, flushes,
  closes, disconnects, Reach, here, next, initial, IsFaithful,
}

module _ (cs : ℕ) (cs_pos : 0 < cs) where
  pub initial-IsFaithful :
      (stored : Stored) (size : Extended)
      → IsWithin cs size stored
      → IsFaithful cs (initial stored size)
  unfolding initial create
  initial-IsFaithful stored size w = record {
    view = over-empty_batch stored;
    stored_whole = inl refl;
    writing_whole = inl refl;
    pending_distinct = unfold empty_batch in tt;
    writing_distinct = λ b e. absurd (ground arith);
    writing_meta = λ b e. ground arith;
    within = w;
    one_queued = refl;
    queued_meta = λ e. ground arith;
    idle = λ e. refl;
    retry = λ e. unfold empty_batch in ground arith;
  }

  view-commit :
      (pending : Batch) (stored file : Stored) (size : Extended) (c : Commit)
      → IsCommit cs c
      → IsWithin cs size file
      → over pending stored ≡ file
      → over (merge pending (commit_batch size c)) stored ≡ apply_commit c file
  view-commit pending stored file size c ic w v =
      over-merge pending (commit_batch size c) stored (unfold commit_batch in ic.distinct)
      ∙ ap (over (commit_batch size c)) v
      ∙ over-commit_batch cs cs_pos c size file ic w

  merge_meta :
      (p : Batch) (size : Extended) (c : Commit)
      → is_some (merge p (commit_batch size c)).meta ≡ true
  merge_meta p size c = unfold merge commit_batch in refl

  merged_meta : (a b : Batch) → is_some a.meta ≡ true → is_some (merge a b).meta ≡ true
  merged_meta a b h = unfold merge in ground arith

  write_batch-over' :
      (b : Batch) (stored : Stored)
      → is_some b.meta ≡ true
      → IsDistinct b.chunks
      → write_batch b stored ≡ over b stored
  write_batch-over' b stored h d = elim (Option-cases b.meta) [
    | inl gone ↦ absurd (ground arith)
    | inr (m, there) ↦ write_batch-over b stored there d
  ]

  -- The state that `commit` leaves, with the write that it schedules.
  committed-IsFaithful :
      (w : World) (c : Commit)
      → IsCommit cs c
      → w.p.closed ≡ false
      → IsFaithful cs w
      → IsFaithful cs
          (record { p = commit c w.p; file = apply_commit c w.file; past = w.file ∷ w.past })
  unfolding commit schedule
  committed-IsFaithful w c ic open' f = rw open' (record {
    view = view-commit w.p.pending _ w.file w.p.size c ic f.within f.view;
    stored_whole = inr f.stored_whole;
    writing_whole = inr f.writing_whole;
    pending_distinct = merge-IsDistinct w.p.pending (commit_batch w.p.size c) f.pending_distinct;
    writing_distinct = f.writing_distinct;
    writing_meta = f.writing_meta;
    within = apply_commit-IsWithin cs cs_pos c w.file ic;
    one_queued = ground (arith, f.one_queued);
    queued_meta = λ _. merge_meta w.p.pending w.p.size c;
    idle = λ h. ground (arith, merge_meta w.p.pending w.p.size c);
    retry = λ m h. ground arith;
  })

  begins-IsFaithful :
      (w : World)
      → 0 < w.p.queued
      → w.p.writing ≡ none
      → IsFaithful cs w
      → IsFaithful cs (record w { p = begin_write w.p })
  unfolding begin_write
  begins-IsFaithful w q idle f = record {
    view = over-empty_batch (over w.p.pending w.p.stored) ∙ rw idle at f.view;
    stored_whole = f.stored_whole;
    writing_whole = inl (rw idle at f.view);
    pending_distinct = unfold empty_batch in tt;
    writing_distinct = λ b e. ground (arith, f.pending_distinct);
    writing_meta = λ b e. ground (arith, f.one_queued, f.queued_meta);
    within = f.within;
    one_queued = ground (arith, f.one_queued);
    queued_meta = λ e. ground arith;
    idle = λ e. refl;
    retry = λ e. unfold empty_batch in ground arith;
  }

  completes-IsFaithful :
      (w : World) (b : Batch)
      → w.p.writing ≡ some b
      → IsFaithful cs w
      → IsFaithful cs (record w { p = end_write b w.p })
  unfolding end_write
  completes-IsFaithful w b e f = record {
    view = rw write_done (rw e at f.view);
    stored_whole = whole;
    writing_whole = whole;
    pending_distinct = f.pending_distinct;
    writing_distinct = λ b' e'. ground arith;
    writing_meta = λ b' e'. ground arith;
    within = f.within;
    one_queued = f.one_queued;
    queued_meta = f.queued_meta;
    idle = f.idle;
    retry = λ m h. ground (arith, f.retry);
  }
    where
      write_done : write_batch b w.p.stored ≡ over b w.p.stored
      write_done = write_batch-over' b w.p.stored (f.writing_meta b e) (f.writing_distinct b e)

      whole : Among (write_batch b w.p.stored) (w.file ∷ w.past)
      whole =
          subst (λ x. Among x (w.file ∷ w.past))
            (ap (λ x. after_writing x w.p.stored) e ∙ sym write_done) f.writing_whole

  aborts-IsFaithful :
      (w : World) (b : Batch)
      → w.p.writing ≡ some b
      → IsFaithful cs w
      → IsFaithful cs (record w { p = fail_write b w.p })
  unfolding fail_write
  aborts-IsFaithful w b e f = record {
    view = over-merge b w.p.pending w.p.stored f.pending_distinct ∙ rw e at f.view;
    stored_whole = f.stored_whole;
    writing_whole = f.stored_whole;
    pending_distinct = merge-IsDistinct b w.p.pending (f.writing_distinct b e);
    writing_distinct = λ b' e'. absurd (ground arith);
    writing_meta = λ b' e'. ground arith;
    within = f.within;
    one_queued = f.one_queued;
    queued_meta = λ h. merged_meta b w.p.pending (f.writing_meta b e);
    idle = λ h. ground (arith, merged_meta b w.p.pending (f.writing_meta b e));
    retry = λ m h. (refl, refl);
  }

  -- `schedule` where something is pending.
  schedule-IsFaithful :
      (w : World)
      → is_some w.p.pending.meta ≡ true
      → IsFaithful cs w
      → IsFaithful cs (record w { p = schedule w.p })
  unfolding schedule
  schedule-IsFaithful w m f = record {
    view = f.view;
    stored_whole = f.stored_whole;
    writing_whole = f.writing_whole;
    pending_distinct = f.pending_distinct;
    writing_distinct = f.writing_distinct;
    writing_meta = f.writing_meta;
    within = f.within;
    one_queued = ground (arith, f.one_queued);
    queued_meta = λ h. m;
    idle = f.idle;
    retry = λ m h. ground arith;
  }

  -- Closing and disconnecting change no field that the invariant reads.
  reclose-IsFaithful :
      (w : World) (c a k n : Bool)
      → IsFaithful cs w
      → IsFaithful cs
          (record w { p = record w.p { closed = c; active = a; closing = k; connected = n } })
  reclose-IsFaithful w c a k n f = record {
    view = f.view;
    stored_whole = f.stored_whole;
    writing_whole = f.writing_whole;
    pending_distinct = f.pending_distinct;
    writing_distinct = f.writing_distinct;
    writing_meta = f.writing_meta;
    within = f.within;
    one_queued = f.one_queued;
    queued_meta = f.queued_meta;
    idle = f.idle;
    retry = f.retry;
  }

  flushes-IsFaithful : (w : World) → IsFaithful cs w → IsFaithful cs (record w { p = flush w.p })
  unfolding flush
  flushes-IsFaithful w f = elim (Bool-cases (not w.p.closed && is_some w.p.pending.meta)) [
    | inl e ↦ rw e (schedule-IsFaithful w (ground arith) f)
    | inr e ↦ rw e f
  ]

  closes-IsFaithful : (w : World) → IsFaithful cs w → IsFaithful cs (record w { p = close w.p })
  unfolding close
  closes-IsFaithful w f =
      if_elim (λ p. IsFaithful cs (record w { p = p })) w.p.closed (λ e. f)
        λ e. elim (Bool-cases (is_some w.p.pending.meta)) [
          | inl m ↦ rw m (
              reclose-IsFaithful (record w { p = schedule w.p }) true false true w.p.connected
                (schedule-IsFaithful w m f))
          | inr m ↦ rw m (reclose-IsFaithful w true false true w.p.connected f)
        ]

  Step-IsFaithful : {v w : World} → Step cs v w → IsFaithful cs v → IsFaithful cs w
  Step-IsFaithful (committed w c ic open') f = committed-IsFaithful w c ic open' f
  Step-IsFaithful (not_stored w c e) f =
      unfold commit in
      if_elim (λ p. IsFaithful cs (record w { p = p })) w.p.closed (λ _. f)
        (λ open'. absurd (ground arith))
  Step-IsFaithful (begins w q idle) f = begins-IsFaithful w q idle f
  Step-IsFaithful (completes w b e) f = completes-IsFaithful w b e f
  Step-IsFaithful (aborts w b e) f = aborts-IsFaithful w b e f
  Step-IsFaithful (flushes w) f = flushes-IsFaithful w f
  Step-IsFaithful (closes w) f = closes-IsFaithful w f
  Step-IsFaithful (disconnects w c q i) f =
      unfold disconnect in reclose-IsFaithful w w.p.closed w.p.active false false f

  -- Whatever is committed, flushed, written and closed in whatever order, and whichever writes
  -- fail: no commit is lost and none is stored in part.
  pub Reach-IsFaithful : {v w : World} → IsFaithful cs v → Reach cs v w → IsFaithful cs w
  Reach-IsFaithful f here = f
  Reach-IsFaithful f (next r s) = Step-IsFaithful s (Reach-IsFaithful f r)
