-- ===== src/Prelude/Rows.antt =====
-- Pages that stand in rows of one size.
use Prim.Native.Nat.{ℕ, ◌+◌, ◌-◌, ◌*◌, ◌≤◌, ◌<◌}
use mathlib.Core.Path.{◌≡◌, ap}
use mathlib.Core.Logic.{inl, inr}
use mathlib.Core.Bool.{◌&&◌}
use native.Mathlib.Nat.{mul-le-mul_right, add-mul}
use native.Mathlib.Omega.{arith}
use sqlite_wasm.Prelude.Tests.{ltb, eqb, eqb_iff, if◌then◌else◌, Bool-cases}

-- Where the `j`th page of a row of pages starts and ends.
pub rows_apart : (j i cs : ℕ) → j < i → j * cs + cs ≤ i * cs
rows_apart j i cs lt =
    let h : j + 1 ≤ i = omega arith in omega (arith, add-mul j 1 cs, mul-le-mul_right cs h)

-- Of a byte of the `j`th page, a write of the `i`th page changes what it has of it.
pub page_written :
    (old new : ℕ → ℕ) (x : ℕ) (i cs j k len : ℕ)
    → k < cs
    → len ≤ cs
    → x ≡ (
        if ltb (j * cs + k) (i * cs)
        then old (j * cs + k)
        else if ltb (j * cs + k) (i * cs + len)
        then new (j * cs + k - i * cs)
        else old (j * cs + k))
    → x ≡ (if eqb j i && ltb k len then new k else old (j * cs + k))
page_written old new x i cs j k len lt le h = elim (Bool-cases (eqb j i)) [
  | inl same ↦
      let is : j ≡ i = (eqb_iff j i).0 same in
      let row : j * cs ≡ i * cs = ap (λ m. m * cs) is in
      let place : new (j * cs + k - i * cs) ≡ new k = ap new (omega (arith, row)) in
      ground (arith, h, row, place, same)
  | inr other ↦ elim (Bool-cases (ltb j i)) [
    | inl before ↦ ground (arith, h, rows_apart j i cs (ground (arith, before)))
    | inr past ↦ ground (arith, h, rows_apart i j cs (ground (arith, other, past)))
  ]
]
