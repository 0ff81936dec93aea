-- ===== src/Snapshots/ComposeBlob.antt =====
-- `composeBlob` of snapshots.ts: the content of a full snapshot, of the old content and the pages.
use sqlite_wasm.Prelude.{
  ◌>>=◌, ℕ, ◌+◌, ◌-◌, ◌*◌, min, max, Option, none, some, List, [], ◌∷◌, ◌++◌, ltb, if◌then◌else◌,
  true, get_or, Bytes, slice, zeros,
}
use sqlite_wasm.Snapshots.NewSnapshot.{NewSnapshot}
use sqlite_wasm.Snapshots.PageRuns.{page_runs, page_run}

-- `baseRange`, where there is old content
unfoldable pub base_part : Option Bytes → ℕ → ℕ → List Bytes
base_part none at keep = []
base_part (some base) at keep = if ltb at keep then slice base at keep ∷ [] else []

unfoldable pub zero_part : ℕ → ℕ → List Bytes
zero_part from end = if ltb from end then zeros (end - from) ∷ [] else []

-- `new Blob(parts)`
unfoldable pub blob_of : List Bytes → Bytes
blob_of [] = []
blob_of (part ∷ parts) = part ++ blob_of parts

module _ {M : Type 0} where
  -- `fill`, from `at` to `end`
  unfoldable pub fill_to : NewSnapshot M → ℕ → ℕ → List Bytes
  unfolding base_part zero_part
  fill_to n at end =
      let keep = min end n.visible in base_part n.base at keep ++ zero_part (max at keep) end

  -- The loop over the runs; `none` is a RangeError.
  unfoldable pub parts_from : NewSnapshot M → List (ℕ × ℕ) → ℕ → Option (List Bytes)
  unfolding fill_to page_run
  parts_from n [] at = some (fill_to n at n.size)
  parts_from n ((i, end) ∷ runs) at = do
    let start = get_or n.pages i 0 * n.chunk_size
    let count = min ((end - i) * n.chunk_size) (n.size - start)
    run ← page_run n.page n.chunk_size i end
    parts ← parts_from n runs (start + count)
    some (fill_to n at start ++ (slice run 0 count ∷ parts))

  unfoldable pub compose_blob : NewSnapshot M → Option Bytes
  unfolding parts_from page_runs blob_of
  compose_blob n = do
    parts ← parts_from n (page_runs n.pages n.chunk_size true) 0
    some (blob_of parts)
