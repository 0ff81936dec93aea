-- ===== src/Snapshots/Listing.antt =====
-- `list` and `head` of `SnapshotStorage`, of snapshots.ts, over the memory store.
use sqlite_wasm.Prelude.{
  String, Option, none, some, List, [], ◌∷◌, ltb, if◌then◌else◌, Bool, true, keep, string_eq, ◌==◌,
}
use sqlite_wasm.Snapshots.Types.{SnapshotInfo}
use sqlite_wasm.Snapshots.MemoryStore.{MemoryStore}
use sqlite_wasm.Snapshots.MemoryStore

module _ {M : Type 0} where
  -- `sort(newestFirst)`, which keeps the order of snapshots of one time
  unfoldable pub put_newest : SnapshotInfo M → List (SnapshotInfo M) → List (SnapshotInfo M)
  put_newest s [] = s ∷ []
  put_newest s (t ∷ all) =
      let rest = put_newest s all in if ltb s.created_at t.created_at then t ∷ rest else s ∷ t ∷ all

  unfoldable pub newest_first : List (SnapshotInfo M) → List (SnapshotInfo M)
  unfolding put_newest
  newest_first [] = []
  newest_first (s ∷ all) = put_newest s (newest_first all)

  -- `!branch || s.branch === branch`
  unfoldable pub is_of : Option String → SnapshotInfo M → Bool
  is_of none s = true
  is_of (some branch) s = s.branch == branch

  unfoldable pub list : MemoryStore M → Option String → List (SnapshotInfo M)
  unfolding newest_first is_of
  list s branch = keep (is_of branch) (newest_first (MemoryStore.list s))

  unfoldable pub first_written : List (SnapshotInfo M) → Option (SnapshotInfo M)
  first_written [] = none
  first_written (s ∷ all) = if ltb 0 s.size then some s else first_written all

  -- `head`, of a store without one of its own
  unfoldable pub head : MemoryStore M → Option String → Option (SnapshotInfo M)
  unfolding list first_written
  head s branch = first_written (list s branch)
