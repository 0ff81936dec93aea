-- ===== src/IndexedDb/Tests.antt =====
-- Concrete runs of the IndexedDB storage of indexeddb.ts.
use sqlite_wasm.Prelude.{◌≡◌, refl, none, some, [], ◌∷◌, arith, nat_eq}
use sqlite_wasm.JsMap
use sqlite_wasm.IndexedDb.Batch.{
  fin, infinity, Commit, Batch, empty_batch, merge, Stored, write_batch,
}
use sqlite_wasm.IndexedDb.Merge.{over, over-merge, write_batch-over}
use sqlite_wasm.IndexedDb.Persistence.{create, commit, commit_batch, begin_write, end_write}
use sqlite_wasm.IndexedDb.Commits.{apply_commit, IsCommit, over-commit_batch, apply_commit-IsWithin}
use sqlite_wasm.IndexedDb.Trace.{
  World, Among, after_writing, committed, begins, completes, Reach, here, next, initial,
}
use sqlite_wasm.IndexedDb.Durability.{stored_committed, stored_when_drained}

abbrev no_file : Stored
no_file = record { chunks = λ i. none; meta = none }

abbrev first_commit : Commit
first_commit = record {
  chunk_size = 2;
  size = 4;
  min_size = 0;
  chunks = (0, 5 ∷ 6 ∷ []) ∷ (1, 7 ∷ 8 ∷ []) ∷ [];
}

-- Truncates the second chunk away.
abbrev second_commit : Commit
second_commit = record { chunk_size = 2; size = 2; min_size = 2; chunks = (0, 1 ∷ 2 ∷ []) ∷ [] }

first-IsCommit : IsCommit 2 first_commit
first-IsCommit = record {
  same_chunk = refl;
  distinct = unfold JsMap.has in (refl, (refl, tt));
  smallest = omega arith;
  inside = λ i b e. unfold JsMap.get in ground (arith, e);
}

second-IsCommit : IsCommit 2 second_commit
second-IsCommit = record {
  same_chunk = refl;
  distinct = unfold JsMap.has in (refl, tt);
  smallest = omega arith;
  inside = λ i b e. unfold JsMap.get in ground (arith, e);
}

abbrev before : World
before = initial no_file infinity

abbrev once : World
once = record {
  p = commit first_commit before.p;
  file = apply_commit first_commit before.file;
  past = before.file ∷ before.past;
}

abbrev writing : World
writing = record once { p = begin_write once.p }

abbrev batch_one : Batch
batch_one = merge empty_batch (commit_batch infinity first_commit)

abbrev done : World
done = record writing { p = end_write batch_one writing.p }

run : Reach 2 before done
unfolding initial create commit begin_write
run =
    next
      (next (next here (committed before first_commit first-IsCommit refl))
        (begins once (omega arith) refl))
      (completes writing batch_one refl)

stored_committed_example :
    Among done.p.stored (done.file ∷ done.past)
    × (over done.p.pending (after_writing done.p.writing done.p.stored) ≡ done.file)
stored_committed_example = stored_committed 2 (omega arith) no_file infinity tt run

stored_when_drained_example : done.p.stored ≡ done.file
stored_when_drained_example =
    stored_when_drained 2 (omega arith) no_file infinity tt run
      (unfold initial create commit begin_write end_write in refl) (unfold end_write in refl)
      (unfold end_write in refl)

over-merge_example :
    over (merge batch_one (commit_batch (fin 4) second_commit)) no_file
    ≡ over (commit_batch (fin 4) second_commit) (over batch_one no_file)
over-merge_example =
    over-merge batch_one (commit_batch (fin 4) second_commit) no_file
      (unfold commit_batch JsMap.has in (refl, tt))

abbrev written_first : Batch
written_first = record {
  truncate = fin 1;
  chunks = first_commit.chunks;
  meta = some (record { size = 4; chunk_size = 2 });
}

write_batch-over_example : write_batch written_first no_file ≡ over written_first no_file
write_batch-over_example = write_batch-over written_first no_file refl first-IsCommit.distinct

over-commit_batch_example :
    over (commit_batch (fin 4) second_commit) (apply_commit first_commit no_file)
    ≡ apply_commit second_commit (apply_commit first_commit no_file)
over-commit_batch_example =
    over-commit_batch 2 (omega arith) second_commit (fin 4) (apply_commit first_commit no_file)
      second-IsCommit (apply_commit-IsWithin 2 (omega arith) first_commit no_file first-IsCommit)
