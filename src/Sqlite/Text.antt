-- ===== src/Sqlite/Text.antt =====
-- `decodeText` of Statement.ts.
use sqlite_wasm.Prelude.{
  ℕ, zero, suc, ◌+◌, [], ◌∷◌, ◌++◌, ltb, if◌then◌else◌, Bytes, byte_at, slice,
}
use sqlite_wasm.Sqlite.Wasm.{Text}

-- The loop over `length` bytes from `i`, with the text so far; `decode` is `decoder.decode`.
unfoldable pub decode_loop : (Bytes → Text) → Bytes → ℕ → ℕ → ℕ → ℕ → Text → Text
decode_loop decode heap ptr end zero i text = text
decode_loop decode heap ptr end (suc length) i text =
    let byte = byte_at heap i in
    let rest = decode_loop decode heap ptr end length (i + 1) (text ++ (byte ∷ [])) in
    if ltb 127 byte then decode (slice heap ptr end) else rest

unfoldable pub decode_text : (Bytes → Text) → Bytes → ℕ → ℕ → Text
unfolding decode_loop
decode_text decode heap ptr length =
    let end = ptr + length in
    if ltb 32 length
    then decode (slice heap ptr end)
    else decode_loop decode heap ptr end length ptr []
