-- ===== src/Prelude/ByteArrays.antt =====
-- Byte arrays, as lists: the views and writes that the code makes of a `Uint8Array`.
use Prim.Native.Nat.{ℕ, ◌+◌, ◌-◌, ◌≤◌, min, zero, suc}
use mathlib.Core.Path.{◌≡◌, refl}
use mathlib.Core.List.{List, [], ◌∷◌, ◌++◌}
use mathlib.Core.Bool.{◌&&◌}
use mathlib.Core.Option.{Option, none, some}
use native.Mathlib.Omega.{arith}
use sqlite_wasm.Prelude.Tests.{ltb, leb, if◌then◌else◌}
use sqlite_wasm.Prelude.Lists.{
  length, get_or, take, drop, replicate, length-append, length-take, length-drop, get_or-append,
  get_or-take, get_or-drop,
}

abbrev pub Bytes : Type 0
Bytes = List ℕ

-- `source[i]`; past the end it is 0, which is what the code makes of missing bytes.
abbrev pub byte_at : Bytes → ℕ → ℕ
byte_at xs i = get_or xs i 0

-- `new Uint8Array(n)`
abbrev pub zeros : ℕ → Bytes
zeros n = replicate n 0

-- `source.slice(start, end)` and `source.subarray(start, end)`, for `start` and `end` that are not
-- negative
unfoldable pub slice : Bytes → ℕ → ℕ → Bytes
slice xs start end = take (end - start) (drop start xs)

pub length-slice :
    (xs : Bytes) (start end : ℕ)
    → length (slice xs start end) ≡ min (end - start) (length xs - start)
unfolding slice
length-slice xs start end =
    omega (arith, length-take (end - start) (drop start xs), length-drop start xs)

pub byte_at-slice :
    (xs : Bytes) (start end i : ℕ)
    → byte_at (slice xs start end) i ≡ (if ltb i (end - start) then byte_at xs (start + i) else 0)
unfolding slice
byte_at-slice xs start end i =
    ground (arith, get_or-take (end - start) (drop start xs) i 0, get_or-drop start xs i 0)

-- `buffer.set(bytes, offset)`; `none` is its RangeError, for bytes that does not fit.
unfoldable pub write_at : Bytes → Bytes → ℕ → Option Bytes
write_at buffer bytes offset =
    if leb (offset + length bytes) (length buffer)
    then some (take offset buffer ++ (bytes ++ drop (offset + length bytes) buffer))
    else none

abbrev written : Bytes → Bytes → ℕ → Bytes
written buffer bytes offset = take offset buffer ++ (bytes ++ drop (offset + length bytes) buffer)

length-written :
    (buffer bytes : Bytes) (offset : ℕ)
    → offset + length bytes ≤ length buffer
    → length (written buffer bytes offset) ≡ length buffer
length-written buffer bytes offset h = omega (
  arith,
  length-append (take offset buffer) (bytes ++ drop (offset + length bytes) buffer),
  length-append bytes (drop (offset + length bytes) buffer),
  length-take offset buffer,
  length-drop (offset + length bytes) buffer,
)

byte_at-written :
    (buffer bytes : Bytes) (offset i : ℕ)
    → offset + length bytes ≤ length buffer
    → byte_at (written buffer bytes offset) i ≡ (
        if ltb i offset
        then byte_at buffer i
        else if ltb i (offset + length bytes)
        then byte_at bytes (i - offset)
        else byte_at buffer i)
byte_at-written buffer bytes offset i h = ground (
  arith,
  get_or-append (take offset buffer) (bytes ++ drop (offset + length bytes) buffer) i 0,
  get_or-append bytes (drop (offset + length bytes) buffer) (i - offset) 0,
  get_or-take offset buffer i 0,
  get_or-drop (offset + length bytes) buffer (i - offset - length bytes) 0,
  length-take offset buffer,
)

-- A write that fits succeeds, keeps the length, and changes the bytes of `bytes` alone.
pub write_at_lem :
    (buffer bytes : Bytes) (offset : ℕ)
    → offset + length bytes ≤ length buffer
    → (after : Bytes) × (write_at buffer bytes offset ≡ some after)
      × (length after ≡ length buffer)
      × ((i : ℕ)
          → byte_at after i ≡ (
              if ltb i offset
              then byte_at buffer i
              else if ltb i (offset + length bytes)
              then byte_at bytes (i - offset)
              else byte_at buffer i))
unfolding write_at
write_at_lem buffer bytes offset h = (
  written buffer bytes offset,
  ground arith,
  length-written buffer bytes offset h,
  λ i. byte_at-written buffer bytes offset i h,
)

-- `buffer.fill(0, from, to)`, which stops at the end of the buffer
unfoldable pub fill_zero : Bytes → ℕ → ℕ → Bytes
fill_zero [] from to = []
fill_zero (x ∷ xs) from to =
    let rest = fill_zero xs (from - 1) (to - 1) in
    if leb from 0 && ltb 0 to then 0 ∷ rest else x ∷ rest

pub length-fill_zero :
    (buffer : Bytes) (from to : ℕ) → length (fill_zero buffer from to) ≡ length buffer
unfolding fill_zero
length-fill_zero [] from to = refl
length-fill_zero (x ∷ xs) from to = ground (arith, length-fill_zero xs (from - 1) (to - 1))

pub byte_at-fill_zero :
    (buffer : Bytes) (from to i : ℕ)
    → byte_at (fill_zero buffer from to) i
      ≡ (if ltb i from then byte_at buffer i else if ltb i to then 0 else byte_at buffer i)
unfolding fill_zero
byte_at-fill_zero [] from to zero = ground arith
byte_at-fill_zero [] from to (suc i) = ground arith
byte_at-fill_zero (x ∷ xs) from to zero = ground arith
byte_at-fill_zero (x ∷ xs) from to (suc i) =
    ground (arith, byte_at-fill_zero xs (from - 1) (to - 1) i)
