-- ===== src/Snapshots/Keys.antt =====
-- `encodeKey` and `decodeKey` of snapshots.ts, on a key as the bytes of its UTF-8 form; file names are
-- lists of ASCII codes.
use sqlite_wasm.Prelude.{
  ◌>>=◌, ℕ, ◌+◌, ◌-◌, ◌*◌, ◌/◌, ◌%◌, Bool, Option, none, some, List, [], ◌∷◌, ◌++◌, leb, ltb, eqb,
  ◌&&◌, ◌||◌, if◌then◌else◌, Bytes, any,
}

-- Characters that `encodeURIComponent` leaves as they are: letters, digits, and - _ . ! ~ * ' ( )
unfoldable pub is_unreserved : ℕ → Bool
is_unreserved c =
    (leb 65 c && leb c 90)
    || ((leb 97 c && leb c 122)
        || ((leb 48 c && leb c 57)
            || any (eqb c) (45 ∷ 95 ∷ 46 ∷ 33 ∷ 126 ∷ 42 ∷ 39 ∷ 40 ∷ 41 ∷ [])))

-- A digit of a hexadecimal number, in upper case
unfoldable pub hex_digit : ℕ → ℕ
hex_digit d = if ltb d 10 then 48 + d else 55 + d

unfoldable pub escape : ℕ → List ℕ
unfolding is_unreserved hex_digit
escape c = if is_unreserved c then c ∷ [] else 37 ∷ hex_digit (c / 16) ∷ hex_digit (c % 16) ∷ []

-- `encodeURIComponent`
unfoldable pub encode_component : Bytes → List ℕ
unfolding escape
encode_component [] = []
encode_component (c ∷ cs) = escape c ++ encode_component cs

-- `.replaceAll('.', '%2E')`
unfoldable pub replace_dots : List ℕ → List ℕ
replace_dots [] = []
replace_dots (c ∷ cs) =
    let rest = replace_dots cs in if eqb c 46 then 37 ∷ 50 ∷ 69 ∷ rest else c ∷ rest

unfoldable pub encode_key : Bytes → List ℕ
unfolding encode_component replace_dots
encode_key key = replace_dots (encode_component key)

unfoldable pub hex_value : ℕ → Option ℕ
hex_value c =
    if leb 48 c && leb c 57
    then some (c - 48)
    else if leb 65 c && leb c 70
    then some (c - 55)
    else if leb 97 c && leb c 102
    then some (c - 87)
    else none

-- `decodeURIComponent`; `none` is its URIError. That the bytes are UTF-8, which it checks too, holds
-- of the bytes of a key.
unfoldable pub decode_key : List ℕ → Option Bytes
unfolding hex_value
decode_key [] = some []
decode_key (c ∷ []) = if eqb c 37 then none else some (c ∷ [])
decode_key (c ∷ d ∷ []) =
    let rest = decode_key (d ∷ []) in if eqb c 37 then none else (do bytes ← rest; some (c ∷ bytes))
decode_key (c ∷ d ∷ e ∷ cs) =
    let rest = decode_key (d ∷ e ∷ cs) in
    let escaped = (do
      high ← hex_value d
      low ← hex_value e
      bytes ← decode_key cs
      some ((high * 16 + low) ∷ bytes)) in
    if eqb c 37 then escaped else (do bytes ← rest; some (c ∷ bytes))
