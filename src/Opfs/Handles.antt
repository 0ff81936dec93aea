-- ===== src/Opfs/Handles.antt =====
-- The handles that SQLite has open on the files of opfs.ts: a file stays while it has any.
use sqlite_wasm.Prelude.{
  ℕ, zero, suc, ◌+◌, ◌-◌, ◌<◌, ◌≡◌, refl, sym, ap, ◌∙◌, String, Option, none, some, List, [], ◌∷◌,
  eqb, eqb_iff, ltb, if◌then◌else◌, Bool, true, false, length, get_or, nat_eq, string_eq, ◌==◌,
  arith, Bool-cases, inl, inr, if_elim,
}
use sqlite_wasm.JsMap
use sqlite_wasm.JsMap.{JsMap, get-set, get-delete}
use sqlite_wasm.Opfs.Files.{Handle, Files, drop_file, remove, remove_at, release_at}

-- How often an id stands in a list.
abbrev pub times : ℕ → List ℕ → ℕ
times id [] = 0
times id (i ∷ ids) = let rest = times id ids in if eqb i id then rest + 1 else rest

-- The list without one `id`
abbrev pub without_one : ℕ → List ℕ → List ℕ
without_one id [] = []
without_one id (i ∷ ids) = let rest = without_one id ids in if eqb i id then ids else i ∷ rest

pub times-without_one :
    (id j : ℕ) (ids : List ℕ)
    → times j (without_one id ids) ≡ (if eqb id j then times j ids - 1 else times j ids)
times-without_one id j [] = ground arith
times-without_one id j (i ∷ ids) = ground (arith, times-without_one id j ids)

module _ {F : Type 0} where
  abbrev pub is_there : Option F → Bool
  is_there none = false
  is_there (some file) = true

  abbrev pub file_at : List (Option F) → ℕ → Option F
  file_at files id = get_or files id none

  file_at-drop_file :
      (files : List (Option F)) (id j : ℕ)
      → file_at (drop_file files id) j ≡ (if eqb id j then none else file_at files j)
  unfolding drop_file
  file_at-drop_file [] id j = ground arith
  file_at-drop_file (file ∷ files) zero zero = ground arith
  file_at-drop_file (file ∷ files) zero (suc j) = ground arith
  file_at-drop_file (file ∷ files) (suc id) zero = ground arith
  file_at-drop_file (file ∷ files) (suc id) (suc j) = ground (arith, file_at-drop_file files id j)

  length-drop_file : (files : List (Option F)) (id : ℕ) → length (drop_file files id) ≡ length files
  unfolding drop_file
  length-drop_file [] id = refl
  length-drop_file (file ∷ files) zero = omega arith
  length-drop_file (file ∷ files) (suc id) = omega (arith, length-drop_file files id)

  -- Names are those of files that are there, each of one file; a handle counts what SQLite has open
  -- on its file, and what SQLite has open is there. A released file is gone, and was released once.
  pub record Fits (s : Files F) (opened : List ℕ) : Type 0 where
    pub named :
        (name : String) (id : ℕ)
        → JsMap.get s.ids name ≡ some id
        → is_there (file_at s.files id) ≡ true
    pub one_name :
        (n m : String) (id : ℕ) → JsMap.get s.ids n ≡ some id → JsMap.get s.ids m ≡ some id → n ≡ m
    pub counted :
        (id : ℕ) (h : Handle)
        → JsMap.get s.handles id ≡ some h
        → (JsMap.get s.ids h.name ≡ some id) × (h.count ≡ times id opened)
    pub there : (id : ℕ) → 0 < times id opened → is_there (file_at s.files id) ≡ true
    pub once :
        (id : ℕ)
        → 0 < times id s.released
        → (is_there (file_at s.files id) ≡ false)
          × ((id < length s.files) × (times id s.released ≡ 1))

  pub is_there-lt :
      (files : List (Option F)) (i : ℕ) → is_there (file_at files i) ≡ true → i < length files
  is_there-lt [] i h = absurd (ground (arith, h))
  is_there-lt (file ∷ files) zero h = omega arith
  is_there-lt (file ∷ files) (suc i) h = omega (arith, is_there-lt files i h)

  -- The files after `remove` drops one, before its `release`
  abbrev dropped : String → ℕ → Files F → Files F
  dropped name id s = record s { ids = JsMap.delete s.ids name; files = drop_file s.files id }

  module _ (s : Files F) (opened : List ℕ) (fits : Fits s opened) (name : String) (id : ℕ)
      (at : JsMap.get s.ids name ≡ some id) (closed : times id opened ≡ 0) where
    kept_name :
        (n : String) (i : ℕ)
        → JsMap.get (JsMap.delete s.ids name) n ≡ some i
        → (JsMap.get s.ids n ≡ some i) × (eqb id i ≡ false)
    kept_name n i e =
        let old : JsMap.get s.ids n ≡ some i = ground (arith, get-delete s.ids name n, e) in
        (
          old,
          elim (Bool-cases (eqb id i)) [
            | inr other ↦ other
            | inl same ↦
                let is : id ≡ i = (eqb_iff id i).0 same in
                let names : name ≡ n = fits.one_name name n i (at ∙ ap some is) old in
                absurd (
                  ground
                    (arith, get-delete s.ids name n, e, names, (string_eq.beq_iff name n).1 names))
          ],
        )

    not_released : (i : ℕ) → is_there (file_at s.files i) ≡ true → times i s.released ≡ 0
    not_released i h = elim (Bool-cases (ltb 0 (times i s.released))) [
      | inl released ↦
          let (absent, _) = fits.once i (ground (arith, released)) in
          absurd (ground (arith, absent, h))
      | inr never ↦ ground (arith, never)
    ]

    kept_file : (i : ℕ) → eqb id i ≡ false → file_at (drop_file s.files id) i ≡ file_at s.files i
    kept_file i other = ground (arith, file_at-drop_file s.files id i, other)

    -- The name of another handle stays.
    kept_handle :
        (i : ℕ) (h : Handle)
        → JsMap.get s.handles i ≡ some h
        → eqb id i ≡ false
        → JsMap.get (JsMap.delete s.ids name) h.name ≡ some i
    kept_handle i h e other =
        let old = (fits.counted i h e).0 in
        elim (Bool-cases (name == h.name)) [
          | inr differs ↦ ground (arith, get-delete s.ids name h.name, differs, old)
          | inl same ↦
              let is : name ≡ h.name = (string_eq.beq_iff name h.name).0 same in
              let both : some id ≡ some i = sym at ∙ ap (JsMap.get s.ids) is ∙ old in
              absurd (ground (arith, both, other))
        ]

    still_gone :
        (i : ℕ)
        → is_there (file_at s.files i) ≡ false
        → is_there (file_at (drop_file s.files id) i) ≡ false
    still_gone i absent =
        ap is_there (file_at-drop_file s.files id i)
        ∙ if_elim (λ o. is_there o ≡ false) (eqb id i) (λ _. refl) (λ _. absent)

    released_once :
        (i : ℕ)
        → 0 < times i (id ∷ s.released)
        → (is_there (file_at (drop_file s.files id) i) ≡ false)
          × ((i < length (drop_file s.files id)) × (times i (id ∷ s.released) ≡ 1))
    released_once i r = elim (Bool-cases (eqb id i)) [
      | inr other ↦
          let (absent, (lt, one)) = fits.once i (ground (arith, r, other)) in
          (
            still_gone i absent,
            (omega (arith, length-drop_file s.files id, lt), ground (arith, other, one)),
          )
      | inl same ↦
          let is : id ≡ i = (eqb_iff id i).0 same in
          let there_now : is_there (file_at s.files i) ≡ true =
            fits.named name i (at ∙ ap some is) in
          let never : times i s.released ≡ 0 = not_released i there_now in
          (
            ap is_there (file_at-drop_file s.files id i)
                ∙ if_elim (λ o. is_there o ≡ false) (eqb id i) (λ _. refl)
                    (λ other. absurd (ground (arith, same, other))),
            (
              omega (arith, length-drop_file s.files id, is_there-lt s.files i there_now),
              ground (arith, same, never),
            ),
          )
    ]

    release_at-Fits :
        (o : Option Handle)
        → JsMap.get s.handles id ≡ o
        → Fits (release_at id o (dropped name id s)) opened
    unfolding release_at
    release_at-Fits none gone = record {
      named = λ n i e.
          let (old, other) = kept_name n i e in
          ap is_there (kept_file i other) ∙ fits.named n i old;
      one_name = λ n m i e f. fits.one_name n m i (kept_name n i e).0 (kept_name m i f).0;
      counted = λ i h e.
          let other : eqb id i ≡ false = elim (Bool-cases (eqb id i)) [
            | inr differs ↦ differs
            | inl same ↦
                let is : id ≡ i = (eqb_iff id i).0 same in
                absurd (ground (arith, gone, e, ap (JsMap.get s.handles) is))
          ] in
          (kept_handle i h e other, (fits.counted i h e).1);
      there =
          λ i open'. ap is_there (kept_file i (ground (arith, open', closed))) ∙ fits.there i open';
      once = λ i r.
          let (absent, (lt, one)) = fits.once i r in
          (still_gone i absent, (omega (arith, length-drop_file s.files id, lt), one));
    }
    release_at-Fits (some h) found = record {
      named = λ n i e.
          let (old, other) = kept_name n i e in
          ap is_there (kept_file i other) ∙ fits.named n i old;
      one_name = λ n m i e f. fits.one_name n m i (kept_name n i e).0 (kept_name m i f).0;
      counted = λ i h e.
          let old : JsMap.get s.handles i ≡ some h = ground (arith, get-delete s.handles id i, e) in
          let other : eqb id i ≡ false = ground (arith, get-delete s.handles id i, e) in
          (kept_handle i h old other, (fits.counted i h old).1);
      there =
          λ i open'. ap is_there (kept_file i (ground (arith, open', closed))) ∙ fits.there i open';
      once = λ i r. released_once i r;
    }

  pub remove-Fits :
      (s : Files F) (opened : List ℕ) (name : String) (id : ℕ)
      → Fits s opened
      → JsMap.get s.ids name ≡ some id
      → times id opened ≡ 0
      → Fits (remove name s) opened
  unfolding remove remove_at
  remove-Fits s opened name id fits at closed =
      rw at (release_at-Fits s opened fits name id at closed (JsMap.get s.handles id) refl)
