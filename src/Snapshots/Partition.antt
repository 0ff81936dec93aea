-- ===== src/Snapshots/Partition.antt =====
-- The runs of `pageRuns` of snapshots.ts follow each other, and cover each page once.
use native.Mathlib.Nat.{div-mul-le_self, mul-le-mul_right}
use sqlite_wasm.Prelude.{
  All, ap, ◌*◌, ℕ, zero, suc, ◌+◌, ◌-◌, ◌/◌, ◌≤◌, ◌<◌, max, ◌≡◌, refl, Bool, true, not, ◌||◌, List,
  [], ◌∷◌, ltb, eqb, length, get_or, arith, Bool-cases, inl, inr, if_elim, ltb→ge, ltb→lt, ltb→ge,
}
use sqlite_wasm.Snapshots.Runs.{advance}
use sqlite_wasm.Snapshots.Tiling.{advance-ge, advance_passed}
use sqlite_wasm.Snapshots.PageRuns.{write_bytes, per_run, run_goes_on, page_runs_from, page_runs}

-- A page follows the one before it, where that is asked for.
unfoldable pub follows : List ℕ → Bool → ℕ → Bool
follows pages consecutive m = not consecutive || eqb (get_or pages m 0) (get_or pages (m - 1) 0 + 1)

-- The runs `[from, to)` follow each other from `i` to the last page, none is empty or longer than
-- `per`, and the pages of one are consecutive where that is asked for.
unfoldable pub IsPartition : List ℕ → ℕ → Bool → ℕ → List (ℕ × ℕ) → Type 0
IsPartition pages per consecutive i [] = length pages ≤ i
IsPartition pages per consecutive i ((from, to) ∷ runs) =
    (from ≡ i)
    × ((from < to)
        × ((to ≤ length pages)
            × ((to - from ≤ per)
                × (((m : ℕ) → from < m → m < to → follows pages consecutive m ≡ true)
                    × IsPartition pages per consecutive to runs))))

-- Where a run ends, when its test held of the pages that it passed.
run_bounds :
    (pages : List ℕ) (per : ℕ) (consecutive : Bool) (i end : ℕ)
    → 1 ≤ per
    → i < length pages
    → i + 1 ≤ end
    → ((m : ℕ) → i + 1 ≤ m → m < end → run_goes_on pages per consecutive i m ≡ true)
    → (end ≤ length pages) × (end - i ≤ per)
unfolding run_goes_on
run_bounds pages per consecutive i end h k ge passed = elim (Bool-cases (ltb (i + 1) end)) [
  | inl more ↦
      let at : i + 1 ≤ end - 1 = ground (arith, more) in
      let below : end - 1 < end = ground (arith, more) in
      let t = passed (end - 1) at below in (ground (arith, t), ground (arith, t))
  | inr one ↦ (ground (arith, one), ground (arith, one))
]

run_follows :
    (pages : List ℕ) (per : ℕ) (consecutive : Bool) (i m : ℕ)
    → run_goes_on pages per consecutive i m ≡ true
    → follows pages consecutive m ≡ true
unfolding run_goes_on follows
run_follows pages per consecutive i m h = ground (arith, h)

page_runs_from-IsPartition :
    (pages : List ℕ) (per : ℕ) (consecutive : Bool) (fuel i : ℕ)
    → 1 ≤ per
    → length pages ≤ i + fuel
    → IsPartition pages per consecutive i (page_runs_from pages per consecutive fuel i)
unfolding page_runs_from IsPartition
page_runs_from-IsPartition pages per consecutive zero i h k = omega (arith, k)
page_runs_from-IsPartition pages per consecutive (suc fuel) i h k =
    let test = run_goes_on pages per consecutive i in
    let end = advance (length pages) test (i + 1) in
    let ge : i + 1 ≤ end = advance-ge test (length pages) (i + 1) in
    let passed = advance_passed test (length pages) (i + 1) in
    if_elim (IsPartition pages per consecutive i) (ltb i (length pages))
      (λ more.
        let b = run_bounds pages per consecutive i end h (ltb→lt i (length pages) more) ge passed in
        (
          refl,
          (
            omega (arith, ge),
            (
              b.0,
              (
                b.1,
                (
                  λ m l r. run_follows pages per consecutive i m (passed m (omega (arith, l)) r),
                  page_runs_from-IsPartition pages per consecutive fuel end h
                      (omega (arith, k, ge)),
                ),
              ),
            ),
          ),
        ))
      (λ done. ltb→ge i (length pages) done)

pub page_runs-IsPartition :
    (pages : List ℕ) (chunk_size : ℕ) (consecutive : Bool)
    → IsPartition pages (per_run chunk_size) consecutive 0 (page_runs pages chunk_size consecutive)
unfolding page_runs per_run
page_runs-IsPartition pages chunk_size consecutive =
    page_runs_from-IsPartition pages (max 1 (write_bytes / chunk_size)) consecutive (length pages) 0
      (omega arith) (omega arith)

-- A run is of one chunk, or of as many as have at most WRITE_BYTES.
abbrev pub IsSmall : ℕ → ℕ × ℕ → Type 0
IsSmall chunk_size run = (run.1 - run.0) * chunk_size ≤ max chunk_size write_bytes

per_run-le : (chunk_size : ℕ) → per_run chunk_size * chunk_size ≤ max chunk_size write_bytes
unfolding per_run
per_run-le cs =
    let le : write_bytes / cs * cs ≤ write_bytes = div-mul-le_self write_bytes cs in
    elim (Bool-cases (ltb (write_bytes / cs) 1)) [
      | inl none_fit ↦
          let one : max 1 (write_bytes / cs) * cs ≡ 1 * cs =
            ap (λ m. m * cs) (ground (arith, none_fit)) in
          omega (arith, one)
      | inr some_fit ↦
          let all : max 1 (write_bytes / cs) * cs ≡ write_bytes / cs * cs =
            ap (λ m. m * cs) (ground (arith, some_fit)) in
          omega (arith, all, le)
    ]

IsPartition-IsSmall :
    (pages : List ℕ) (cs : ℕ) (consecutive : Bool) (i : ℕ) (runs : List (ℕ × ℕ))
    → IsPartition pages (per_run cs) consecutive i runs
    → All (IsSmall cs) runs
unfolding IsPartition
IsPartition-IsSmall pages cs consecutive i [] h = tt
IsPartition-IsSmall pages cs consecutive i ((from, to) ∷ runs)
      (is, (lt, (le, (few, (next, rest))))) =
    let row : (to - from) * cs ≤ per_run cs * cs = mul-le-mul_right cs few in
    (omega (arith, row, per_run-le cs), IsPartition-IsSmall pages cs consecutive to runs rest)

-- The runs of the pages of a snapshot partition them, in order, into runs of at least one page, which
-- are consecutive where that is asked for; each has at most WRITE_BYTES, or is one chunk where the
-- chunks are larger.
pub page_runs-write_bytes :
    (pages : List ℕ) (chunk_size : ℕ) (consecutive : Bool)
    → let runs = page_runs pages chunk_size consecutive in
      IsPartition pages (per_run chunk_size) consecutive 0 runs × All (IsSmall chunk_size) runs
page_runs-write_bytes pages chunk_size consecutive =
    let h = page_runs-IsPartition pages chunk_size consecutive in
    (
      h,
      IsPartition-IsSmall pages chunk_size consecutive 0 (page_runs pages chunk_size consecutive) h,
    )
