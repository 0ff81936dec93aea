-- ===== src/IndexedDb/Commits.antt =====
-- What a commit makes of the database file, and the batch that `commit` keeps for it.
use sqlite_wasm.Prelude.{
  ℕ, ◌*◌, ◌≤◌, ◌<◌, ◌≡◌, refl, none, some, if◌then◌else◌, arith, leb, Bytes, nat_eq, inl, inr,
  Option-cases,
}
use sqlite_wasm.JsMap
use sqlite_wasm.JsMap.{IsDistinct}
use sqlite_wasm.IndexedDb.Batch.{Extended, fin, infinity, at_or_past, Commit, or_else, Stored}
use sqlite_wasm.IndexedDb.Merge.{over, chunk_over, Stored-path}
use sqlite_wasm.IndexedDb.Persistence.{ceil_div, commit_batch}

-- `Commit` in Database.ts: chunks at or past `minSize` that are not in `chunks` were truncated away.
unfoldable pub apply_commit : Commit → Stored → Stored
apply_commit c file = record {
  chunks = λ i.
      or_else (JsMap.get c.chunks i)
        (if leb c.min_size (i * c.chunk_size) then none else file.chunks i);
  meta = some (record { size = c.size; chunk_size = c.chunk_size });
}

-- The file has no chunk that starts past its end.
abbrev pub IsWithin : ℕ → Extended → Stored → Type 0
IsWithin cs (fin size) file = (i : ℕ) (b : Bytes) → file.chunks i ≡ some b → i * cs < size
IsWithin cs infinity file = Unit

-- What the overlay promises of the commits that it reports, for chunks of `cs` bytes.
pub record IsCommit (cs : ℕ) (c : Commit) : Type 0 where
  pub same_chunk : c.chunk_size ≡ cs
  pub distinct : IsDistinct c.chunks
  pub smallest : c.min_size ≤ c.size
  pub inside : (i : ℕ) (b : Bytes) → JsMap.get c.chunks i ≡ some b → i * cs < c.size

-- Rounding up: the quotient is at most i exactly when i chunks hold everything.
ceil_div-le : (m cs i : ℕ) → 0 < cs → ceil_div m cs ≤ i → m ≤ i * cs
unfolding ceil_div
ceil_div-le m cs i h le = grind arith

le-ceil_div : (m cs i : ℕ) → 0 < cs → i < ceil_div m cs → i * cs < m
unfolding ceil_div
le-ceil_div m cs i h lt = grind arith

leb-ceil_div : (m cs i : ℕ) → 0 < cs → leb (ceil_div m cs) i ≡ leb m (i * cs)
leb-ceil_div m cs i h = ground (arith, ceil_div-le m cs i h, le-ceil_div m cs i h)

module _ (cs : ℕ) (cs_pos : 0 < cs) where
  batch_chunk :
      (c : Commit) (size : Extended) (file : Stored) (i : ℕ)
      → IsCommit cs c
      → IsWithin cs size file
      → chunk_over (commit_batch size c) file.chunks i ≡ (apply_commit c file).chunks i
  unfolding chunk_over commit_batch apply_commit at_or_past
  batch_chunk c infinity file i h w =
      rw h.same_chunk (ground (arith, leb-ceil_div c.min_size cs i cs_pos))
  batch_chunk c (fin size) file i h w = elim (Option-cases (file.chunks i)) [
    | inl gone ↦ rw (h.same_chunk, gone) (ground arith)
    | inr (b, there) ↦
        rw (h.same_chunk, there) (ground (arith, leb-ceil_div c.min_size cs i cs_pos, w i b there))
  ]

  -- For a commit with chunks of a size that is not 0, over a file without chunks past its size: the
  -- batch of the commit makes the file that the commit leaves, although it truncates nothing where
  -- the file never became shorter than what is stored.
  pub over-commit_batch :
      (c : Commit) (size : Extended) (file : Stored)
      → IsCommit cs c
      → IsWithin cs size file
      → over (commit_batch size c) file ≡ apply_commit c file
  over-commit_batch c size file h w =
      Stored-path (λ i. batch_chunk c size file i h w) (unfold commit_batch apply_commit in refl)

  pub apply_commit-IsWithin :
      (c : Commit) (file : Stored) → IsCommit cs c → IsWithin cs (fin c.size) (apply_commit c file)
  unfolding apply_commit
  apply_commit-IsWithin c file h i b e = elim (Option-cases (JsMap.get c.chunks i)) [
    | inl gone ↦ ground (arith, h.same_chunk, h.smallest)
    | inr (b', there) ↦ h.inside i b' there
  ]
