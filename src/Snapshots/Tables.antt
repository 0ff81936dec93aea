-- ===== src/Snapshots/Tables.antt =====
-- Bytes as the table of a function, and the slots of ascending pages.
use sqlite_wasm.Prelude.{
  ℕ, zero, suc, ◌+◌, ◌-◌, ◌≤◌, ◌<◌, ◌≡◌, refl, sym, ap, ◌∙◌, some, List, [], ◌∷◌, ◌++◌, ltb, eqb,
  eqb_iff, length, get_or, Bytes, byte_at, arith, All, eq_of_get_or, Bool-cases, inl, inr, ◌⊎◌,
  nat_eq, length-append, get_or-append, if_elim,
}
use sqlite_wasm.JsMap
use sqlite_wasm.JsMap.{JsMap, get-set}
use sqlite_wasm.Snapshots.Runs.{slots_from}

-- The values of a function at the `n` numbers from `at`
abbrev pub tabulate : ℕ → ℕ → (ℕ → ℕ) → Bytes
tabulate at zero f = []
tabulate at (suc n) f = f at ∷ tabulate (at + 1) n f

pub length-tabulate : (at n : ℕ) (f : ℕ → ℕ) → length (tabulate at n f) ≡ n
length-tabulate at zero f = refl
length-tabulate at (suc n) f = ap suc (length-tabulate (at + 1) n f)

pub byte_at-tabulate :
    (at n : ℕ) (f : ℕ → ℕ) (i : ℕ) → i < n → byte_at (tabulate at n f) i ≡ f (at + i)
byte_at-tabulate at zero f i h = absurd (omega arith)
byte_at-tabulate at (suc n) f zero h = ap f (omega arith)
byte_at-tabulate at (suc n) f (suc i) h =
    let same : at + 1 + i ≡ at + suc i = omega arith in
    byte_at-tabulate (at + 1) n f i (omega (arith, h)) ∙ ap f same

-- Bytes that agree with a function are its table.
pub is-tabulate :
    (bytes : Bytes) (at n : ℕ) (f : ℕ → ℕ)
    → length bytes ≡ n
    → ((i : ℕ) → i < n → byte_at bytes i ≡ f (at + i))
    → bytes ≡ tabulate at n f
is-tabulate bytes at n f h k =
    eq_of_get_or bytes (tabulate at n f) 0 (h ∙ sym (length-tabulate at n f))
      (λ i l. k i (omega (arith, l, h)) ∙ sym (byte_at-tabulate at n f i (omega (arith, l, h))))

pub tabulate-append :
    (at m n : ℕ) (f : ℕ → ℕ) → tabulate at m f ++ tabulate (at + m) n f ≡ tabulate at (m + n) f
tabulate-append at m n f =
    is-tabulate (tabulate at m f ++ tabulate (at + m) n f) at (m + n) f
      (omega (
        arith,
        length-append (tabulate at m f) (tabulate (at + m) n f),
        length-tabulate at m f,
        length-tabulate (at + m) n f,
      ))
      (λ i h.
        get_or-append (tabulate at m f) (tabulate (at + m) n f) i 0
        ∙ if_elim (λ (b : ℕ). b ≡ f (at + i)) (ltb i (length (tabulate at m f)))
            (λ l. byte_at-tabulate at m f i (ground (arith, l, length-tabulate at m f)))
            (λ l.
              let len = length-tabulate at m f in
              let past : m ≤ i = ground (arith, l, len) in
              let same : at + m + (i - length (tabulate at m f)) ≡ at + i =
                omega (arith, len, past) in
              byte_at-tabulate (at + m) n f (i - length (tabulate at m f))
                (omega (arith, h, len, past))
              ∙ ap f same))

-- The indexes of the pages of a snapshot ascend.
abbrev pub IsAscending : List ℕ → Type 0
IsAscending [] = Unit
IsAscending (p ∷ ps) = All (λ q. p < q) ps × IsAscending ps

pub later-All :
    (P : ℕ → Type 0) (ps : List ℕ) (j : ℕ) → All P ps → j < length ps → P (get_or ps j 0)
later-All P [] j h k = absurd (omega arith)
later-All P (p ∷ ps) zero h k = h.0
later-All P (p ∷ ps) (suc j) h k = later-All P ps j h.1 (omega (arith, k))

pub ascends :
    (pages : List ℕ) (i j : ℕ)
    → IsAscending pages
    → i < j
    → j < length pages
    → get_or pages i 0 < get_or pages j 0
ascends [] i j h k l = absurd (omega arith)
ascends (p ∷ ps) zero zero h k l = absurd (omega arith)
ascends (p ∷ ps) zero (suc j) h k l = later-All (λ q. p < q) ps j h.0 (omega (arith, l))
ascends (p ∷ ps) (suc i) zero h k l = absurd (omega arith)
ascends (p ∷ ps) (suc i) (suc j) h k l = ascends ps i j h.1 (omega (arith, k)) (omega (arith, l))

-- A slot of the map holds the page of its chunk.
pub slot_holds :
    (start : ℕ) (pages : List ℕ) (slots : JsMap ℕ ℕ) (chunk slot : ℕ)
    → JsMap.get (slots_from start pages slots) chunk ≡ some slot
    → (JsMap.get slots chunk ≡ some slot)
      ⊎ ((start ≤ slot) × ((slot < start + length pages) × (get_or pages (slot - start) 0 ≡ chunk)))
unfolding slots_from
slot_holds start [] slots chunk slot h = inl h
slot_holds start (p ∷ ps) slots chunk slot h =
    elim (slot_holds (start + 1) ps (JsMap.set slots p start) chunk slot h) [
      | inl e ↦ elim (Bool-cases (eqb p chunk)) [
        | inl same ↦ inr (ground (arith, get-set slots p chunk start, e, same))
        | inr other ↦ inl (ground (arith, get-set slots p chunk start, e, other))
      ]
      | inr (ge, (lt, at)) ↦ inr (omega (arith, ge), (omega (arith, lt), ground (arith, at, ge)))
    ]

other_pages :
    (start : ℕ) (pages : List ℕ) (slots : JsMap ℕ ℕ) (chunk : ℕ)
    → All (λ q. chunk < q) pages
    → JsMap.get (slots_from start pages slots) chunk ≡ JsMap.get slots chunk
unfolding slots_from
other_pages start [] slots chunk h = refl
other_pages start (p ∷ ps) slots chunk h =
    other_pages (start + 1) ps (JsMap.set slots p start) chunk h.1
    ∙ ground (arith, get-set slots p chunk start, eqb_iff p chunk, h.0)

-- A page's chunk is in its slot.
pub page_slot :
    (start : ℕ) (pages : List ℕ) (slots : JsMap ℕ ℕ) (i : ℕ)
    → IsAscending pages
    → i < length pages
    → JsMap.get (slots_from start pages slots) (get_or pages i 0) ≡ some (start + i)
unfolding slots_from
page_slot start [] slots i h k = absurd (omega arith)
page_slot start (p ∷ ps) slots zero h k =
    other_pages (start + 1) ps (JsMap.set slots p start) p h.0
    ∙ ground (arith, get-set slots p p start, (eqb_iff p p).1 refl)
page_slot start (p ∷ ps) slots (suc i) h k =
    let same : start + 1 + i ≡ start + suc i = omega arith in
    page_slot (start + 1) ps (JsMap.set slots p start) i h.1 (omega (arith, k)) ∙ ap some same
