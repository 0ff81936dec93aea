-- ===== src/Sqlite/Decoding.antt =====
-- `decodeText` of Statement.ts is the decoder: its shortcut for short texts makes no difference.
use sqlite_wasm.Prelude.{
  ℕ, zero, suc, ◌+◌, ◌≤◌, ◌<◌, ◌≡◌, refl, sym, ap, ◌∙◌, [], ◌∷◌, ◌++◌, ltb, arith, Bytes, byte_at,
  slice, length, length-slice, byte_at-slice, length-append, get_or-append, eq_of_get_or, All,
  All-append, if_elim, ltb→ge,
}
use sqlite_wasm.Sqlite.Wasm.{Text}
use sqlite_wasm.Sqlite.Text.{decode_loop, decode_text}

abbrev pub IsAscii : Bytes → Type 0
IsAscii = All (λ byte. byte ≤ 127)

slice_none : (heap : Bytes) (start : ℕ) → [] ≡ slice heap start start
slice_none heap start =
    eq_of_get_or [] (slice heap start start) 0 (omega (arith, length-slice heap start start))
      (λ j l. absurd (omega arith))

slice_suc :
    (heap : Bytes) (start i : ℕ)
    → start ≤ i
    → i < length heap
    → slice heap start (i + 1) ≡ slice heap start i ++ (byte_at heap i ∷ [])
slice_suc heap start i h k =
    eq_of_get_or (slice heap start (i + 1)) (slice heap start i ++ (byte_at heap i ∷ [])) 0
      (omega (
        arith,
        length-slice heap start (i + 1),
        length-slice heap start i,
        length-append (slice heap start i) (byte_at heap i ∷ []),
      ))
      (λ j l. ground (
        arith,
        byte_at-slice heap start (i + 1) j,
        byte_at-slice heap start i j,
        get_or-append (slice heap start i) (byte_at heap i ∷ []) j 0,
        length-slice heap start i,
      ))

decode_loop-decode :
    (decode : Bytes → Text)
    → ((bytes : Bytes) → IsAscii bytes → decode bytes ≡ bytes)
    → (heap : Bytes) (ptr end n i : ℕ) → ptr ≤ i
    → i + n ≡ end
    → end ≤ length heap
    → (text : Text) → text ≡ slice heap ptr i
    → IsAscii text
    → decode_loop decode heap ptr end n i text ≡ decode (slice heap ptr end)
unfolding decode_loop
decode_loop-decode decode ascii heap ptr end zero i h k l text e a =
    let same : i ≡ end = omega arith in
    sym (ascii text a) ∙ ap decode (e ∙ ap (slice heap ptr) same)
decode_loop-decode decode ascii heap ptr end (suc n) i h k l text e a =
    if_elim (λ (r : Text). r ≡ decode (slice heap ptr end)) (ltb 127 (byte_at heap i)) (λ big. refl)
      (λ small.
        decode_loop-decode decode ascii heap ptr end n (i + 1) (omega arith) (omega arith) l
          (text ++ (byte_at heap i ∷ []))
          (ap (λ xs. xs ++ (byte_at heap i ∷ [])) e ∙ sym (slice_suc heap ptr i h (omega arith)))
          (All-append (λ byte. byte ≤ 127) text (byte_at heap i ∷ []) a
            (ltb→ge 127 (byte_at heap i) small, tt)))

-- For a decoder that reads ASCII as it is, and bytes that lie in the heap, `decodeText` gives what the
-- decoder gives for all the bytes.
pub decode_text-decode :
    (decode : Bytes → Text)
    → ((bytes : Bytes) → IsAscii bytes → decode bytes ≡ bytes)
    → (heap : Bytes) (ptr size : ℕ) → ptr + size ≤ length heap
    → decode_text decode heap ptr size ≡ decode (slice heap ptr (ptr + size))
unfolding decode_text
decode_text-decode decode ascii heap ptr size h =
    if_elim (λ (r : Text). r ≡ decode (slice heap ptr (ptr + size))) (ltb 32 size) (λ long. refl)
      (λ short.
        decode_loop-decode decode ascii heap ptr (ptr + size) size ptr (omega arith) refl h []
          (slice_none heap ptr) tt)
