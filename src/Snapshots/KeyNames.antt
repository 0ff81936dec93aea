-- ===== src/Snapshots/KeyNames.antt =====
-- The file names of keys, of snapshots.ts, can be read back, and never end as those of metadata do.
use sqlite_wasm.Prelude.{
  ◌>>=◌, ℕ, ◌+◌, ◌*◌, ◌/◌, ◌%◌, ◌<◌, ◌≡◌, refl, sym, ap, ◌∙◌, true, false, some, List, [], ◌∷◌,
  ◌++◌, Bytes, arith, All, All-append, eqb, if◌then◌else◌, Bool-cases, inl, inr, eqb_iff, subst,
}
use sqlite_wasm.Snapshots.Keys.{
  is_unreserved, hex_digit, escape, encode_component, replace_dots, encode_key, hex_value,
  decode_key,
}

hex_value-hex_digit : (d : ℕ) → d < 16 → hex_value (hex_digit d) ≡ some d
unfolding hex_value hex_digit
hex_value-hex_digit d h = ground arith

replace_dots-append :
    (xs ys : List ℕ) → replace_dots (xs ++ ys) ≡ replace_dots xs ++ replace_dots ys
unfolding replace_dots
replace_dots-append [] ys = refl
replace_dots-append (x ∷ xs) ys = ground (arith, replace_dots-append xs ys)

hex_digit-not_dot : (d : ℕ) → eqb (hex_digit d) 46 ≡ false
unfolding hex_digit
hex_digit-not_dot d = ground arith

decode_escaped :
    (c : ℕ) (rest : List ℕ)
    → c < 256
    → decode_key (37 ∷ hex_digit (c / 16) ∷ hex_digit (c % 16) ∷ rest)
      ≡ (decode_key rest >>= λ bytes. some (c ∷ bytes))
unfolding decode_key
decode_escaped c rest h =
    let high : c / 16 < 16 = omega arith in
    let low : c % 16 < 16 = omega arith in
    let whole : c / 16 * 16 + c % 16 ≡ c = omega arith in
    rw (hex_value-hex_digit (c / 16) high, hex_value-hex_digit (c % 16) low, ◌>>=◌, whole) refl

decode_plain :
    (c : ℕ) (rest : List ℕ)
    → eqb c 37 ≡ false
    → decode_key (c ∷ rest) ≡ (decode_key rest >>= λ bytes. some (c ∷ bytes))
unfolding decode_key
decode_plain c [] h = rw h refl
decode_plain c (d ∷ []) h = rw h refl
decode_plain c (d ∷ e ∷ rest) h = rw h refl

plain_byte : (c : ℕ) → is_unreserved c ≡ true → eqb c 37 ≡ false
unfolding is_unreserved
plain_byte c h = elim (Bool-cases (eqb c 37)) [
  | inl same ↦ let is : c ≡ 37 = (eqb_iff c 37).0 same in absurd (cc (sym h ∙ ap is_unreserved is))
  | inr other ↦ other
]

-- The name of one byte
named : (c : ℕ) → List ℕ
named c = replace_dots (escape c)

named_unreserved :
    (c : ℕ) → is_unreserved c ≡ true → named c ≡ (if eqb c 46 then 37 ∷ 50 ∷ 69 ∷ [] else c ∷ [])
unfolding named escape replace_dots
named_unreserved c h = rw (h, replace_dots) refl

named_escaped :
    (c : ℕ) → is_unreserved c ≡ false → named c ≡ 37 ∷ hex_digit (c / 16) ∷ hex_digit (c % 16) ∷ []
unfolding named escape replace_dots
named_escaped c h =
    rw (h, replace_dots, hex_digit-not_dot (c / 16), hex_digit-not_dot (c % 16)) refl

-- What is written of one byte reads as that byte.
decode_one :
    (c : ℕ) (rest : List ℕ)
    → c < 256
    → decode_key (named c ++ rest) ≡ (decode_key rest >>= λ bytes. some (c ∷ bytes))
unfolding hex_digit
decode_one c rest h = elim (Bool-cases (is_unreserved c)) [
  | inl plain ↦ rw (named_unreserved c plain) (elim (Bool-cases (eqb c 46)) [
    | inl dot ↦
        let is : c ≡ 46 = (eqb_iff c 46).0 dot in rw is (decode_escaped 46 rest (omega arith))
    | inr other ↦ rw other (decode_plain c rest (plain_byte c plain))
  ])
  | inr special ↦ rw (named_escaped c special) (decode_escaped c rest h)
]

named_keys : (key : Bytes) (c : ℕ) → encode_key (c ∷ key) ≡ named c ++ encode_key key
unfolding encode_key encode_component named
named_keys key c = replace_dots-append (escape c) (encode_component key)

decode_key-encode_key :
    (key : Bytes) → All (λ c. c < 256) key → decode_key (encode_key key) ≡ some key
decode_key-encode_key [] h = unfold decode_key in unfold encode_key in refl
decode_key-encode_key (c ∷ key) h =
    ap decode_key (named_keys key c)
    ∙ (decode_one c (encode_key key) h.0
        ∙ ap (λ o. o >>= λ bytes. some (c ∷ bytes)) (decode_key-encode_key key h.1))

named-All : (c : ℕ) → All (λ d. eqb d 46 ≡ false) (named c)
named-All c = elim (Bool-cases (is_unreserved c)) [
  | inl plain ↦ rw (named_unreserved c plain) (elim (Bool-cases (eqb c 46)) [
    | inl dot ↦ rw dot (refl, (refl, (refl, tt)))
    | inr other ↦ rw other (other, tt)
  ])
  | inr special ↦
      rw (named_escaped c special)
        (refl, (hex_digit-not_dot (c / 16), (hex_digit-not_dot (c % 16), tt)))
]

encode_key-All : (key : Bytes) → All (λ c. eqb c 46 ≡ false) (encode_key key)
encode_key-All [] = unfold encode_key in tt
encode_key-All (c ∷ key) = subst (All (λ d. eqb d 46 ≡ false)) (sym (named_keys key c)) (
    All-append (λ d. eqb d 46 ≡ false) (named c) (encode_key key) (named-All c)
      (encode_key-All key))

-- The name of the file of a key, of bytes, is read back as the key, and it has no dot, so that it is
-- not the name of a file of metadata, which ends in `.json`.
pub encode_key-decode_key :
    (key : Bytes)
    → All (λ c. c < 256) key
    → (decode_key (encode_key key) ≡ some key) × All (λ c. eqb c 46 ≡ false) (encode_key key)
encode_key-decode_key key h = (decode_key-encode_key key h, encode_key-All key)
