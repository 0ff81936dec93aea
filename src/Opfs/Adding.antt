-- ===== src/Opfs/Adding.antt =====
-- A file that is added, of opfs.ts, with the handles on it.
use sqlite_wasm.Prelude.{
  ℕ, ◌-◌, ◌<◌, ◌≡◌, sym, ap, ◌∙◌, subst, String, Option, none, some, List, [], ◌∷◌, ◌++◌, eqb,
  eqb_iff, ltb, if◌then◌else◌, Bool, true, false, length, get_or, get_or-append, length-append,
  nat_eq, string_eq, ◌==◌, arith, Bool-cases, beq_refl, ◌⊎◌, inl, inr, if_elim,
}
use sqlite_wasm.JsMap
use sqlite_wasm.JsMap.{JsMap, get-set}
use sqlite_wasm.Opfs.Files.{Handle, Files, add}
use sqlite_wasm.Opfs.Handles.{times, is_there, file_at, is_there-lt, Fits}
use sqlite_wasm.Opfs.OpenAt.{file_at-append, still_absent}

module _ {F : Type 0} where
  -- A name after one was added is that one, or an old one, which is of another file.
  split_name :
      (s : Files F) (opened : List ℕ) (name n : String) (i : ℕ)
      → Fits s opened
      → JsMap.get (JsMap.set s.ids name (length s.files)) n ≡ some i
      → ((name ≡ n) × (length s.files ≡ i)) ⊎ ((JsMap.get s.ids n ≡ some i) × (i < length s.files))
  split_name s opened name n i fits e = elim (Bool-cases (name == n)) [
    | inl same ↦ inl (
      (string_eq.beq_iff name n).0 same,
      ground (arith, get-set s.ids name n (length s.files), e, same),
    )
    | inr other ↦
        let old : JsMap.get s.ids n ≡ some i =
          ground (arith, get-set s.ids name n (length s.files), e, other) in
        inr (old, is_there-lt s.files i (fits.named n i old))
  ]

  new_there :
      (files : List (Option F)) (file : F) (i : ℕ)
      → length files ≡ i
      → is_there (file_at (files ++ (some file ∷ [])) i) ≡ true
  new_there files file i is =
      ap is_there (get_or-append files (some file ∷ []) i none)
      ∙ if_elim (λ o. is_there o ≡ true) (ltb i (length files))
          (λ lt. absurd (ground (arith, lt, is)))
          (λ _. ap (λ m. is_there (get_or (some file ∷ []) m none)) (zero_left i (length files) is))
    where
      zero_left : (i n : ℕ) → n ≡ i → i - n ≡ 0
      zero_left i n is = omega (arith, is)

  pub add-Fits :
      (s : Files F) (opened : List ℕ) (name : String) (file : F) (releases : Bool)
      → Fits s opened
      → JsMap.get s.ids name ≡ none
      → Fits (add name file releases s) opened
  unfolding add
  add-Fits s opened name file releases fits fresh = record {
    named = λ n i e. elim (split_name s opened name n i fits e) [
      | inl (_, is) ↦ new_there s.files file i is
      | inr (old, _) ↦ file_at-append s.files file i (fits.named n i old)
    ];
    one_name = λ n m i e f. elim (split_name s opened name n i fits e) [
      | inl (n_is, is) ↦ elim (split_name s opened name m i fits f) [
        | inl (m_is, _) ↦ sym n_is ∙ m_is
        | inr (_, lt) ↦ absurd (omega (arith, lt, is))
      ]
      | inr (old, lt) ↦ elim (split_name s opened name m i fits f) [
        | inl (_, is) ↦ absurd (omega (arith, lt, is))
        | inr (old', _) ↦ fits.one_name n m i old old'
      ]
    ];
    counted = λ i h e. counted_new releases i h e;
    there = λ i open'. file_at-append s.files file i (fits.there i open');
    once = λ i r.
        let (absent, (lt, one)) = fits.once i r in
        (
          still_absent s.files file i absent lt,
          (omega (arith, lt, length-append s.files (some file ∷ [])), one),
        );
  }
    where
      old_name :
          (i : ℕ) (h : Handle)
          → JsMap.get s.handles i ≡ some h
          → (JsMap.get (JsMap.set s.ids name (length s.files)) h.name ≡ some i)
            × (h.count ≡ times i opened)
      old_name i h e =
          let (at, count) = fits.counted i h e in
          (
            elim (Bool-cases (name == h.name)) [
              | inr other ↦ ground (arith, get-set s.ids name h.name (length s.files), other, at)
              | inl same ↦ absurd (
                  ground (
                    arith,
                    fresh,
                    at,
                    ap (JsMap.get s.ids) ((string_eq.beq_iff name h.name).0 same),
                  ))
            ],
            count,
          )

      none_open : times (length s.files) opened ≡ 0
      none_open = elim (Bool-cases (ltb 0 (times (length s.files) opened))) [
        | inr closed ↦ ground (arith, closed)
        | inl open' ↦ absurd (
            omega (
              arith,
              is_there-lt s.files (length s.files)
                  (fits.there (length s.files) (ground (arith, open'))),
            ))
      ]

      counted_new :
          (releases : Bool) (i : ℕ) (h : Handle)
          → JsMap.get
              (if releases
                then JsMap.set s.handles (length s.files) (record { name = name; count = 0 })
                else s.handles)
              i
            ≡ some h
          → (JsMap.get (JsMap.set s.ids name (length s.files)) h.name ≡ some i)
            × (h.count ≡ times i opened)
      counted_new false i h e = old_name i h e
      counted_new true i h e = elim (Bool-cases (eqb (length s.files) i)) [
        | inr other ↦ old_name i h (
            ground (
              arith,
              get-set s.handles (length s.files) i (record { name = name; count = 0 }),
              e,
              other,
            ))
        | inl same ↦
            let is : length s.files ≡ i = (eqb_iff (length s.files) i).0 same in
            let new : Handle = record { name = name; count = 0 } in
            let is_new : new ≡ h =
              ground (arith, get-set s.handles (length s.files) i new, e, same) in
            subst
              (λ (h : Handle).
                (JsMap.get (JsMap.set s.ids name (length s.files)) h.name ≡ some i)
                × (h.count ≡ times i opened))
              is_new
              (
                ground (arith, get-set s.ids name name (length s.files), beq_refl name, is),
                sym none_open ∙ ap (λ i. times i opened) is,
              )
      ]
