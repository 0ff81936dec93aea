-- ===== src/Snapshots/ContentRuns.antt =====
-- The parts that `layerContent` of snapshots.ts collects of the runs of one delta.
use sqlite_wasm.Prelude.{
  ◌>>=◌, ℕ, ◌+◌, ◌-◌, ◌*◌, ◌/◌, ◌%◌, ◌≤◌, ◌<◌, ◌≡◌, refl, sym, Option, some, List, [], ◌∷◌, ◌++◌,
  ltb, Bytes, byte_at, length, slice, zeros, arith, length-append, get_or-append, length-slice,
  byte_at-slice, length-replicate, get_or-replicate, Bool-cases, Option-cases, inl, inr, nat_eq,
  append_assoc,
}
use native.Mathlib.Nat.{mod-lt}
use sqlite_wasm.JsMap
use sqlite_wasm.JsMap.{JsMap, get-set}
use sqlite_wasm.Snapshots.Types.{DeltaLayout}
use sqlite_wasm.Snapshots.Runs.{Run, own, below, zero_run, slots_from, slots_of}
use sqlite_wasm.Snapshots.Tiling.{own_byte, below_byte, origin, Tiles}
use sqlite_wasm.Snapshots.LayerReads.{byte_from}
use sqlite_wasm.Snapshots.Content.{Collector, add_part, collect_runs}

abbrev pub flat : List Bytes → Bytes
flat [] = []
flat (x ∷ xs) = x ++ flat xs

-- The parts of a range are the bytes of `content` there.
abbrev pub Holds : Option (List Bytes) → (ℕ → ℕ) → ℕ → ℕ → Type 0
Holds r content start end =
    (parts : List Bytes) × (r ≡ some parts)
    × (length (flat parts) ≡ end - start)
    × ((i : ℕ) → i < end - start → byte_at (flat parts) i ≡ content (start + i))

flat-append : (xs ys : List Bytes) → flat (xs ++ ys) ≡ flat xs ++ flat ys
flat-append [] ys = refl
flat-append (x ∷ xs) ys = rw (flat-append xs ys) (sym (append_assoc x (flat xs) (flat ys)))

pub slot-lt :
    (slot : ℕ) (pages : List ℕ) (slots : JsMap ℕ ℕ) (p s : ℕ)
    → ((q t : ℕ) → JsMap.get slots q ≡ some t → t < slot + length pages)
    → JsMap.get (slots_from slot pages slots) p ≡ some s
    → s < slot + length pages
unfolding slots_from
slot-lt slot [] slots p s old at = old p s at
slot-lt slot (page ∷ pages) slots p s old at =
    let h : s < slot + 1 + length pages =
      slot-lt (slot + 1) pages (JsMap.set slots page slot) p s
        (λ q t at'. ground (arith, get-set slots page q slot, old q t)) at in
    omega arith

-- A slot is the place of a page.
slots_of-lt :
    (delta : DeltaLayout) (p s : ℕ) → JsMap.get (slots_of delta) p ≡ some s → s < length delta.pages
unfolding slots_of
slots_of-lt delta p s at =
    let h = slot-lt 0 delta.pages [] p s (λ q t at'. unfold JsMap.get in ground arith) at in
    omega (arith, h)

pub add_part-Holds :
    (source : Bytes) (start end : ℕ)
    → start ≤ end
    → end ≤ length source
    → Holds (add_part source start end) (byte_at source) start end
unfolding add_part
add_part-Holds source start end le fits = elim (Bool-cases (ltb start end)) [
  | inl some' ↦ (
    slice source start end ∷ [],
    ground arith,
    omega (arith, length-append (slice source start end) [], length-slice source start end),
    λ i lt. ground (
      arith,
      get_or-append (slice source start end) [] i 0,
      length-slice source start end,
      byte_at-slice source start end i,
    ),
  )
  | inr none' ↦ ([], ground arith, ground arith, λ i lt. absurd (ground arith))
]

-- Parts of a range and of the range after it.
Holds-append :
    (content : ℕ → ℕ) (p to end : ℕ) (r t : Option (List Bytes))
    → p ≤ to
    → to ≤ end
    → Holds r content p to
    → Holds t content to end
    → Holds (do xs ← r; ys ← t; some (xs ++ ys)) content p end
Holds-append content p to end r t h k (xs, rx, lx, bx) (ys, ry, ly, by') = (
  xs ++ ys,
  rw (rx, ry, ◌>>=◌),
  rw flat-append (omega (arith, length-append (flat xs) (flat ys))),
  λ i lt.
      rw flat-append
        (ground (arith, get_or-append (flat xs) (flat ys) i 0, bx i, by' (i - (to - p)))),
)

module _ (source : Bytes) (delta : DeltaLayout) (cs_pos : 0 < delta.chunk_size)
    (stored : length source ≡ length delta.pages * delta.chunk_size) where
  open delta use {chunk_size as cs}

  -- An own byte is a byte of a stored page.
  own-lt : (q place : ℕ) → own_byte place ≡ origin delta q → place < length source
  unfolding origin
  own-lt q place e = elim (Option-cases (JsMap.get (slots_of delta) (q / cs))) [
    | inl gone ↦ absurd (ground arith)
    | inr (slot, at) ↦
        let h : slot < length delta.pages = slots_of-lt delta (q / cs) slot at in
        let k : place ≡ slot * cs + q % cs = ground arith in
        let m : q % cs < cs = mod-lt q cs_pos in rw (stored, k) (grind arith)
  ]

  shown-lt : (q : ℕ) → below_byte ≡ origin delta q → q < delta.visible
  unfolding origin
  shown-lt q e = ground arith

  pub collect_runs-Holds :
      (under : Collector) (content : ℕ → ℕ) (p end : ℕ) (rs : List Run)
      → ((from to : ℕ) → from ≤ to → to ≤ delta.visible → Holds (under from to) content from to)
      → Tiles delta p end rs
      → p ≤ end
      → Holds
          (collect_runs source under rs)
          (λ i. byte_from source content (origin delta i) i)
          p
          end
  unfolding collect_runs
  collect_runs-Holds under content p end [] u t le =
      ([], refl, ground arith, λ i lt. absurd (ground arith))
  collect_runs-Holds under content p end (own from to at ∷ rs) u t le =
      Holds-append (λ i. byte_from source content (origin delta i) i) p to end
        (add_part source at (at + to - from)) (collect_runs source under rs) (omega arith) t.2
        (own_part (add_part-Holds source at (at + to - from) (omega arith) fits))
        (collect_runs-Holds under content to end rs u t.4 t.2)
    where
      fits : at + to - from ≤ length source
      fits =
          let h =
            own-lt (to - 1) (at + (to - 1 - from)) (t.3 (to - 1) (omega arith) (omega arith)) in
          omega (arith, h)

      own_part :
          Holds (add_part source at (at + to - from)) (byte_at source) at (at + to - from)
          → Holds
              (add_part source at (at + to - from))
              (λ i. byte_from source content (origin delta i) i)
              p
              to
      own_part (xs, done, len, bytes) =
          (xs, done, omega (arith, len), λ i lt. ground (arith, bytes i, t.3 (p + i)))
  collect_runs-Holds under content p end (below from to ∷ rs) u t le =
      Holds-append (λ i. byte_from source content (origin delta i) i) p to end (under from to)
        (collect_runs source under rs) (omega arith) t.2
        (shown_part (u from to (omega arith) shown))
        (collect_runs-Holds under content to end rs u t.4 t.2)
    where
      shown : to ≤ delta.visible
      shown =
          let h = shown-lt (to - 1) (t.3 (to - 1) (omega arith) (omega arith)) in omega (arith, h)

      shown_part :
          Holds (under from to) content from to
          → Holds (under from to) (λ i. byte_from source content (origin delta i) i) p to
      shown_part (xs, done, len, bytes) =
          (xs, done, omega (arith, len), λ i lt. ground (arith, bytes i, t.3 (p + i)))
  collect_runs-Holds under content p end (zero_run from to ∷ rs) u t le =
      Holds-append (λ i. byte_from source content (origin delta i) i) p to end
        (some (zeros (to - from) ∷ [])) (collect_runs source under rs) (omega arith) t.2
        (
          zeros (to - from) ∷ [],
          refl,
          omega
              (arith, length-append (zeros (to - from)) [], length-replicate {A = ℕ} (to - from) 0),
          λ i lt. ground (
            arith,
            get_or-append (zeros (to - from)) [] i 0,
            length-replicate {A = ℕ} (to - from) 0,
            get_or-replicate {A = ℕ} (to - from) i 0,
            t.3 (p + i),
          ),
        )
        (collect_runs-Holds under content to end rs u t.4 t.2)
