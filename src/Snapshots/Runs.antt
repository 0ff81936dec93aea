-- ===== src/Snapshots/Runs.antt =====
-- `runs` of snapshots.ts: the runs of bytes that a range of a delta is read from.
use sqlite_wasm.Prelude.{
  ℕ, zero, suc, ◌+◌, ◌-◌, ◌*◌, ◌/◌, min, Bool, true, false, not, ◌&&◌, Option, none, some, List, [],
  ◌∷◌, ltb, eqb, if◌then◌else◌, nat_eq,
}
use sqlite_wasm.JsMap
use sqlite_wasm.JsMap.{JsMap}
use sqlite_wasm.Snapshots.Types.{DeltaLayout}

pub data Run : Type 0 where
  own : (from to at : ℕ) → Run
  below : (from to : ℕ) → Run
  zero_run : (from to : ℕ) → Run

abbrev pub run_from : Run → ℕ
run_from (own from to at) = from
run_from (below from to) = from
run_from (zero_run from to) = from

abbrev pub run_to : Run → ℕ
run_to (own from to at) = to
run_to (below from to) = to
run_to (zero_run from to) = to

-- `new Map(delta.pages.map((page, slot) => [page, slot]))`
unfoldable pub slots_from : ℕ → List ℕ → JsMap ℕ ℕ → JsMap ℕ ℕ
slots_from slot [] slots = slots
slots_from slot (page ∷ pages) slots = slots_from (slot + 1) pages (JsMap.set slots page slot)

unfoldable pub slots_of : DeltaLayout → JsMap ℕ ℕ
unfolding slots_from
slots_of delta = slots_from 0 delta.pages []

-- `while (test(next)) next++`
unfoldable pub advance : ℕ → (ℕ → Bool) → ℕ → ℕ
advance zero test next = next
advance (suc fuel) test next = elim (test next) [
  | true ↦ advance fuel test (next + 1)
  | false ↦ next
]

abbrev is_slot : Option ℕ → ℕ → Bool
is_slot none slot = false
is_slot (some s) slot = eqb s slot

-- The tests of the three inner loops.
unfoldable pub own_goes_on : JsMap ℕ ℕ → ℕ → ℕ → ℕ → ℕ → ℕ → Bool
own_goes_on slots chunk_size end slot chunk next =
    ltb (next * chunk_size) end && is_slot (JsMap.get slots next) (slot + next - chunk)

unfoldable pub gap_goes_on : JsMap ℕ ℕ → ℕ → ℕ → ℕ → Bool
gap_goes_on slots chunk_size end next = ltb (next * chunk_size) end && not (JsMap.has slots next)

-- The run that starts at `p`, of the slot of its chunk.
unfoldable pub run_for : DeltaLayout → JsMap ℕ ℕ → ℕ → ℕ → Option ℕ → Run
unfolding advance own_goes_on gap_goes_on
run_for delta slots p end (some slot) =
    let chunk = p / delta.chunk_size in
    let next = advance end (own_goes_on slots delta.chunk_size end slot chunk) (chunk + 1) in
    own p (min (next * delta.chunk_size) end)
      (slot * delta.chunk_size + p - chunk * delta.chunk_size)
run_for delta slots p end none =
    let chunk = p / delta.chunk_size in
    let in_both = min end delta.visible in
    let shown = advance end (gap_goes_on slots delta.chunk_size in_both) (chunk + 1) in
    let empty = advance end (gap_goes_on slots delta.chunk_size end) (chunk + 1) in
    if ltb p delta.visible
    then below p (min (min (shown * delta.chunk_size) end) delta.visible)
    else zero_run p (min (empty * delta.chunk_size) end)

-- One round of the outer loop.
unfoldable pub run_at : DeltaLayout → JsMap ℕ ℕ → ℕ → ℕ → Run
unfolding run_for
run_at delta slots p end = run_for delta slots p end (JsMap.get slots (p / delta.chunk_size))

-- The outer loop; every round moves `p` on, so `end - start` rounds are enough.
unfoldable pub runs_from : DeltaLayout → JsMap ℕ ℕ → ℕ → ℕ → ℕ → List Run
unfolding run_at
runs_from delta slots zero p end = []
runs_from delta slots (suc fuel) p end =
    let run = run_at delta slots p end in
    let rest = runs_from delta slots fuel (run_to run) end in if ltb p end then run ∷ rest else []

unfoldable pub runs : DeltaLayout → ℕ → ℕ → List Run
unfolding runs_from slots_of
runs delta start end = runs_from delta (slots_of delta) (end - start) start end
