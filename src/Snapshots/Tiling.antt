-- ===== src/Snapshots/Tiling.antt =====
-- `runs` cuts the range into runs, each read from where every one of its bytes belongs.
use sqlite_wasm.Prelude.{
  ℕ, zero, suc, ◌+◌, ◌-◌, ◌*◌, ◌/◌, ◌%◌, ◌≤◌, ◌<◌, min, ◌≡◌, refl, Bool, true, false, Option, none,
  some, List, [], ◌∷◌, arith, ltb, eqb, if◌then◌else◌, nat_eq, Bool-cases, inl, inr, ap, eqb_iff,
  if_elim, ltb→lt,
}
use native.Mathlib.Nat.{div-add-mod', mod-lt, div-lt_iff_lt-mul}
use sqlite_wasm.JsMap
use sqlite_wasm.JsMap.{JsMap, has-get}
use sqlite_wasm.Snapshots.Types.{DeltaLayout}
use sqlite_wasm.Snapshots.Runs.{
  Run, own, below, zero_run, run_from, run_to, slots_of, advance, own_goes_on, gap_goes_on, run_for,
  run_at, runs_from, runs,
}

-- Where a byte of a delta is read from: a byte of its own pages, the layer below, or zero.
pub data Origin : Type 0 where
  own_byte : ℕ → Origin
  below_byte : Origin
  zero_byte : Origin

-- What `DeltaLayout` says of byte `q`.
unfoldable pub origin : DeltaLayout → ℕ → Origin
origin delta q = elim (JsMap.get (slots_of delta) (q / delta.chunk_size)) [
  | some slot ↦ own_byte (slot * delta.chunk_size + q % delta.chunk_size)
  | none ↦ if ltb q delta.visible then below_byte else zero_byte
]

abbrev pub run_origin : Run → ℕ → Origin
run_origin (own from to at) q = own_byte (at + (q - from))
run_origin (below from to) q = below_byte
run_origin (zero_run from to) q = zero_byte

-- The runs begin at `p`, each where the one before ends, none is empty, the last one ends at `end`,
-- and each of their bytes has the origin that the layout gives it.
abbrev pub Tiles : DeltaLayout → ℕ → ℕ → List Run → Type 0
Tiles delta p end [] = p ≡ end
Tiles delta p end (r ∷ rs) =
    (run_from r ≡ p)
    × (p < run_to r)
    × (run_to r ≤ end)
    × ((q : ℕ) → p ≤ q → q < run_to r → run_origin r q ≡ origin delta q)
    × Tiles delta (run_to r) end rs

module _ (test : ℕ → Bool) where
  pub advance-ge : (fuel next : ℕ) → next ≤ advance fuel test next
  unfolding advance
  advance-ge zero next = omega arith
  advance-ge (suc fuel) next = ground (arith, advance-ge fuel (next + 1))

  -- The test holds of everything that the loop passes.
  pub advance_passed : (fuel next m : ℕ) → next ≤ m → m < advance fuel test next → test m ≡ true
  unfolding advance
  advance_passed zero next m h lt = absurd (omega arith)
  advance_passed (suc fuel) next m h lt = elim (Bool-cases (test next)) [
    | inl e ↦ elim (Bool-cases (eqb next m)) [
      | inl same ↦ let k : next ≡ m = (eqb_iff next m).0 same in rw (← k) e
      | inr other ↦ advance_passed fuel (next + 1) m (ground arith) (rw (e, advance) at lt)
    ]
    | inr e ↦ absurd (ground arith)
  ]

  -- The loop ends by its test, if the test fails from `bound` on.
  pub advance_stops :
      (fuel next bound : ℕ)
      → ((m : ℕ) → bound ≤ m → test m ≡ false)
      → bound < next + fuel
      → test (advance fuel test next) ≡ false
  unfolding advance
  advance_stops zero next bound h lt = h next (omega arith)
  advance_stops (suc fuel) next bound h lt = ground (arith, advance_stops fuel (next + 1) bound h)

-- Division by the chunk size.
div_mono : (p q cs : ℕ) → 0 < cs → p ≤ q → p / cs ≤ q / cs
div_mono p q cs h le = grind (arith, div-add-mod' p cs, div-add-mod' q cs, mod-lt q h, mod-lt p h)

pub div-lt_of : (q n cs : ℕ) → 0 < cs → q < n * cs → q / cs < n
div-lt_of q n cs h lt = (div-lt_iff_lt-mul h).1 lt

pub lt_next_chunk : (p n cs : ℕ) → 0 < cs → p / cs < n → p < n * cs
lt_next_chunk p n cs h lt = (div-lt_iff_lt-mul h).0 lt

pub div_mul-le : (p cs : ℕ) → p / cs * cs ≤ p
div_mul-le p cs = omega (arith, div-add-mod' p cs)

mul-ge : (m cs : ℕ) → 0 < cs → m ≤ m * cs
mul-ge m cs h = grind arith

mul_of_sub : (a b c cs : ℕ) → c ≤ b → (a + b - c) * cs + c * cs ≡ a * cs + b * cs
mul_of_sub a b c cs h =
    let e : a + b - c + c ≡ a + b = omega arith in omega (arith, ap (λ (t : ℕ). t * cs) e)

-- The place of byte `q`, counted from byte `p` of an earlier chunk stored at `slot`.
place_in_run :
    (slot p q cs : ℕ)
    → 0 < cs
    → p ≤ q
    → slot * cs + p - p / cs * cs + (q - p) ≡ (slot + q / cs - p / cs) * cs + q % cs
place_in_run slot p q cs h le = omega (
  arith,
  mul_of_sub slot (q / cs) (p / cs) cs (div_mono p q cs h le),
  div-add-mod' p cs,
  div-add-mod' q cs,
)

own_slot :
    (slots : JsMap ℕ ℕ) (cs end slot chunk c : ℕ)
    → own_goes_on slots cs end slot chunk c ≡ true
    → JsMap.get slots c ≡ some (slot + c - chunk)
unfolding own_goes_on
own_slot slots cs end slot chunk c h = ground (arith, eqb_iff slot (slot + c - chunk))

gap_slot :
    (slots : JsMap ℕ ℕ) (cs end c : ℕ)
    → gap_goes_on slots cs end c ≡ true
    → (JsMap.get slots c ≡ none) × (c * cs < end)
unfolding gap_goes_on
gap_slot slots cs end c h = ground (arith, has-get slots c)

module _ (delta : DeltaLayout) (cs_pos : 0 < delta.chunk_size) where
  open delta use {chunk_size as cs, visible}

  own_origin :
      (p q end slot : ℕ)
      → JsMap.get (slots_of delta) (p / cs) ≡ some slot
      → p ≤ q
      → q < advance end (own_goes_on (slots_of delta) cs end slot (p / cs)) (p / cs + 1) * cs
      → own_byte (slot * cs + p - p / cs * cs + (q - p)) ≡ origin delta q
  unfolding origin
  own_origin p q end slot at le lt =
      rw (slot_there, origin) (ap own_byte (place_in_run slot p q cs cs_pos le))
    where
      slot_there : JsMap.get (slots_of delta) (q / cs) ≡ some (slot + q / cs - p / cs)
      slot_there = elim (Bool-cases (eqb (p / cs) (q / cs))) [
        | inl same ↦
            let k : p / cs ≡ q / cs = (eqb_iff _ _).0 same in
            let k' : slot + q / cs - p / cs ≡ slot = omega arith in rw (k', ← k) at_p
        | inr other ↦ own_slot (slots_of delta) cs end slot (p / cs) (q / cs) (
            advance_passed _ end (p / cs + 1) (q / cs)
              (ground (arith, div_mono p q cs cs_pos le, eqb_iff (p / cs) (q / cs)))
              (div-lt_of q _ cs cs_pos lt))
      ]
        where
          at_p : JsMap.get (slots_of delta) (p / cs) ≡ some slot
          at_p = at

  gap_origin :
      (p q end fuel : ℕ)
      → JsMap.get (slots_of delta) (p / cs) ≡ none
      → p ≤ q
      → q < advance fuel (gap_goes_on (slots_of delta) cs end) (p / cs + 1) * cs
      → JsMap.get (slots_of delta) (q / cs) ≡ none
  gap_origin p q end fuel gone le lt = elim (Bool-cases (eqb (p / cs) (q / cs))) [
    | inl same ↦ let k : p / cs ≡ q / cs = (eqb_iff _ _).0 same in rw (← k) gone
    | inr other ↦
        (gap_slot (slots_of delta) cs end (q / cs) (
          advance_passed _ fuel (p / cs + 1) (q / cs)
            (ground (arith, div_mono p q cs cs_pos le, eqb_iff (p / cs) (q / cs)))
            (div-lt_of q _ cs cs_pos lt))).0
  ]

  -- One round: a run that begins at `p`, moves on, ends in time, and has the origins of its bytes.
  abbrev IsRound : ℕ → ℕ → Run → Type 0
  IsRound p end r =
      (run_from r ≡ p)
      × (p < run_to r)
      × (run_to r ≤ end)
      × ((q : ℕ) → p ≤ q → q < run_to r → run_origin r q ≡ origin delta q)

  passes : (p fuel : ℕ) (test : ℕ → Bool) → p < advance fuel test (p / cs + 1) * cs
  passes p fuel test =
      lt_next_chunk p _ cs cs_pos (omega (arith, advance-ge test fuel (p / cs + 1)))

  gap_run :
      (p end fuel : ℕ) (bound : ℕ) (q : ℕ)
      → JsMap.get (slots_of delta) (p / cs) ≡ none
      → p ≤ q
      → q < advance fuel (gap_goes_on (slots_of delta) cs bound) (p / cs + 1) * cs
      → (if ltb q visible then below_byte else zero_byte) ≡ origin delta q
  unfolding origin
  gap_run p end fuel bound q gone le lt = rw (gap_origin p q bound fuel gone le lt, origin) refl

  run_for-IsRound :
      (p end : ℕ) (slot : Option ℕ)
      → JsMap.get (slots_of delta) (p / cs) ≡ slot
      → p < end
      → IsRound p end (run_for delta (slots_of delta) p end slot)
  unfolding run_for
  run_for-IsRound p end (some slot) at lt = (
    refl,
    omega (arith, passes p end (own_goes_on (slots_of delta) cs end slot (p / cs))),
    omega arith,
    λ q le q_lt. own_origin p q end slot at le (omega arith),
  )
  run_for-IsRound p end none gone lt = elim (Bool-cases (ltb p visible)) [
    | inl shown ↦ rw shown (
      refl,
      ground (arith, passes p end (gap_goes_on (slots_of delta) cs (min end visible))),
      omega arith,
      λ q le q_lt. ground (arith, gap_run p end end (min end visible) q gone le),
    )
    | inr hidden ↦ rw hidden (
      refl,
      omega (arith, passes p end (gap_goes_on (slots_of delta) cs end)),
      omega arith,
      λ q le q_lt. ground (arith, gap_run p end end end q gone le),
    )
  ]

  runs_from-Tiles :
      (fuel p end : ℕ)
      → p ≤ end
      → end - p ≤ fuel
      → Tiles delta p end (runs_from delta (slots_of delta) fuel p end)
  unfolding runs_from run_at
  runs_from-Tiles zero p end le enough = omega arith
  runs_from-Tiles (suc fuel) p end le enough =
      if_elim (Tiles delta p end) (ltb p end)
        (λ lt.
          let (from, moves, inside, right) =
            run_for-IsRound p end (JsMap.get (slots_of delta) (p / cs)) refl (ltb→lt p end lt) in
          (from, moves, inside, right, runs_from-Tiles fuel _ end inside (omega arith)))
        (λ ge. ground arith)

  -- For a delta with chunks of a size that is not 0 and a range that does not end before it starts,
  -- the runs of the range cut it into non-empty runs without gaps, and each byte is read from where
  -- the layout says: its own pages, the layer below where that shows, and zero otherwise.
  pub runs-Tiles : (start end : ℕ) → start ≤ end → Tiles delta start end (runs delta start end)
  unfolding runs
  runs-Tiles start end le = runs_from-Tiles (end - start) start end le (omega arith)

  -- The loop over consecutive pages ends by its test, within the rounds that it is given, for
  -- chunks of a size that is not 0.
  pub own_loop_stops :
      (slots : JsMap ℕ ℕ) (p end slot : ℕ)
      → own_goes_on slots cs end slot
          (p / cs)
          (advance end (own_goes_on slots cs end slot (p / cs)) (p / cs + 1))
        ≡ false
  own_loop_stops slots p end slot =
      advance_stops (own_goes_on slots cs end slot (p / cs)) end (p / cs + 1) end
        (λ m le. unfold own_goes_on in ground (arith, mul-ge m cs cs_pos)) (omega arith)

  -- The loops over pages that the delta does not have end by their test, within the rounds that
  -- they are given, for chunks of a size that is not 0 and a bound that is at most the end of the
  -- range.
  pub gap_loop_stops :
      (slots : JsMap ℕ ℕ) (p end bound : ℕ)
      → bound ≤ end
      → gap_goes_on slots cs bound (advance end (gap_goes_on slots cs bound) (p / cs + 1)) ≡ false
  gap_loop_stops slots p end bound le =
      advance_stops (gap_goes_on slots cs bound) end (p / cs + 1) end
        (λ m le'. unfold gap_goes_on in ground (arith, mul-ge m cs cs_pos)) (omega arith)
