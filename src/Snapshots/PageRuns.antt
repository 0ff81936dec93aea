-- ===== src/Snapshots/PageRuns.antt =====
-- `pageRuns` and `pageRun` of snapshots.ts: the pages of a new snapshot in runs that are written at
-- once.
use sqlite_wasm.Prelude.{
  ℕ, zero, suc, ◌+◌, ◌-◌, ◌*◌, ◌/◌, max, Bool, not, ◌&&◌, ◌||◌, Option, some, List, [], ◌∷◌, ltb,
  eqb, if◌then◌else◌, length, get_or, Bytes, write_at, zeros, ◌>>=◌,
}
use sqlite_wasm.Snapshots.Runs.{advance}

-- WRITE_BYTES
abbrev pub write_bytes : ℕ
write_bytes = 4194304

unfoldable pub per_run : ℕ → ℕ
per_run chunk_size = max 1 (write_bytes / chunk_size)

-- The test of the inner loop
unfoldable pub run_goes_on : List ℕ → ℕ → Bool → ℕ → ℕ → Bool
run_goes_on pages per consecutive i end =
    ltb end (length pages)
    && (ltb (end - i) per
        && (not consecutive || eqb (get_or pages end 0) (get_or pages (end - 1) 0 + 1)))

-- The outer loop; each round moves `i` on, so that the length is enough fuel for both loops.
unfoldable pub page_runs_from : List ℕ → ℕ → Bool → ℕ → ℕ → List (ℕ × ℕ)
unfolding advance run_goes_on
page_runs_from pages per consecutive zero i = []
page_runs_from pages per consecutive (suc fuel) i =
    let end = advance (length pages) (run_goes_on pages per consecutive i) (i + 1) in
    let rest = page_runs_from pages per consecutive fuel end in
    if ltb i (length pages) then (i, end) ∷ rest else []

unfoldable pub page_runs : List ℕ → ℕ → Bool → List (ℕ × ℕ)
unfolding per_run page_runs_from
page_runs pages chunk_size consecutive =
    page_runs_from pages (per_run chunk_size) consecutive (length pages) 0

-- The loop of `pageRun`, over `count` pages from the `i + k`th
unfoldable pub put_run : (ℕ → Bytes) → ℕ → ℕ → ℕ → ℕ → Bytes → Option Bytes
put_run page cs i k zero run = some run
put_run page cs i k (suc count) run = do
  r ← write_at run (page (i + k)) (k * cs)
  put_run page cs i (k + 1) count r

unfoldable pub page_run : (ℕ → Bytes) → ℕ → ℕ → ℕ → Option Bytes
unfolding put_run
page_run page cs i end = put_run page cs i 0 (end - i) (zeros ((end - i) * cs))
