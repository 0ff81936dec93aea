-- ===== src/Opfs/OpenAt.antt =====
-- The handles of an open file, and of one that is closed, of opfs.ts.
use sqlite_wasm.Prelude.{
  ℕ, ◌+◌, ◌-◌, ◌<◌, ◌≡◌, ap, ◌∙◌, subst, String, Option, none, some, List, [], ◌∷◌, ◌++◌, eqb,
  eqb_iff, ltb, true, false, length, get_or-append, nat_eq, string_eq, arith, Bool-cases, inl, inr,
  if_elim,
}
use sqlite_wasm.JsMap
use sqlite_wasm.JsMap.{JsMap, get-set}
use sqlite_wasm.Opfs.Files.{Handle, Files, open_at, close_at}
use sqlite_wasm.Opfs.Handles.{
  times, without_one, times-without_one, is_there, file_at, is_there-lt, Fits, remove-Fits,
}

module _ {F : Type 0} where
  pub file_at-append :
      (files : List (Option F)) (file : F) (i : ℕ)
      → is_there (file_at files i) ≡ true
      → is_there (file_at (files ++ (some file ∷ [])) i) ≡ true
  file_at-append files file i h =
      ap is_there (get_or-append files (some file ∷ []) i none)
      ∙ if_elim (λ o. is_there o ≡ true) (ltb i (length files)) (λ _. h)
          (λ past. absurd (ground (arith, past, is_there-lt files i h)))

  opened_there :
      (s : Files F) (opened : List ℕ) (name : String) (id : ℕ)
      → Fits s opened
      → JsMap.get s.ids name ≡ some id
      → (i : ℕ) → 0 < times i (id ∷ opened)
      → is_there (file_at s.files i) ≡ true
  opened_there s opened name id fits at i open' = elim (Bool-cases (eqb id i)) [
    | inr other ↦ fits.there i (ground (arith, open', other))
    | inl same ↦ let is : id ≡ i = (eqb_iff id i).0 same in fits.named name i (at ∙ ap some is)
  ]

  pub still_absent :
      (files : List (Option F)) (file : F) (i : ℕ)
      → is_there (file_at files i) ≡ false
      → i < length files
      → is_there (file_at (files ++ (some file ∷ [])) i) ≡ false
  still_absent files file i absent lt =
      ap is_there (get_or-append files (some file ∷ []) i none)
      ∙ if_elim (λ o. is_there o ≡ false) (ltb i (length files)) (λ _. absent)
          (λ past. absurd (ground (arith, past, lt)))

  pub open_at-Fits :
      (s : Files F) (opened : List ℕ) (name : String) (id : ℕ)
      → Fits s opened
      → JsMap.get s.ids name ≡ some id
      → (o : Option Handle) → JsMap.get s.handles id ≡ o
      → Fits (open_at id o s) (id ∷ opened)
  unfolding open_at
  open_at-Fits s opened name id fits at none gone = record {
    named = fits.named;
    one_name = fits.one_name;
    counted = λ i h e. elim (Bool-cases (eqb id i)) [
      | inr other ↦ ((fits.counted i h e).0, ground (arith, (fits.counted i h e).1, other))
      | inl same ↦
          let is : id ≡ i = (eqb_iff id i).0 same in
          absurd (ground (arith, gone, e, ap (JsMap.get s.handles) is))
    ];
    there = λ i open'. opened_there s opened name id fits at i open';
    once = fits.once;
  }
  open_at-Fits s opened name id fits at (some h) found = record {
    named = fits.named;
    one_name = fits.one_name;
    counted = λ i g e. elim (Bool-cases (eqb id i)) [
      | inr other ↦
          let old : JsMap.get s.handles i ≡ some g = ground (
            arith,
            get-set s.handles id i (record { name = h.name; count = h.count + 1 }),
            e,
            other,
          ) in
          ((fits.counted i g old).0, ground (arith, (fits.counted i g old).1, other))
      | inl same ↦
          let is : id ≡ i = (eqb_iff id i).0 same in
          let new : Handle = record { name = h.name; count = h.count + 1 } in
          let is_new : new ≡ g = ground (arith, get-set s.handles id i new, e, same) in
          subst
            (λ (g : Handle). (JsMap.get s.ids g.name ≡ some i) × (g.count ≡ times i (id ∷ opened)))
            is_new
            (
              (fits.counted id h found).0 ∙ ap some is,
              ground (arith, same, (fits.counted id h found).1, ap (λ i. times i opened) is),
            )
    ];
    there = λ i open'. opened_there s opened name id fits at i open';
    once = fits.once;
  }

  -- The state after a handle closed, where others are open or the file is about to be removed
  close_left :
      (s : Files F) (opened : List ℕ) (id : ℕ) (h : Handle)
      → Fits s opened
      → 0 < times id opened
      → JsMap.get s.handles id ≡ some h
      → Fits
          (record s {
            handles = JsMap.set s.handles id (record { name = h.name; count = h.count - 1 });
          })
          (without_one id opened)
  close_left s opened id h fits open' found = record {
    named = fits.named;
    one_name = fits.one_name;
    counted = λ i g e. elim (Bool-cases (eqb id i)) [
      | inr other ↦
          let old : JsMap.get s.handles i ≡ some g = ground (
            arith,
            get-set s.handles id i (record { name = h.name; count = h.count - 1 }),
            e,
            other,
          ) in
          (
            (fits.counted i g old).0,
            ground (arith, (fits.counted i g old).1, other, times-without_one id i opened),
          )
      | inl same ↦
          let is : id ≡ i = (eqb_iff id i).0 same in
          let new : Handle = record { name = h.name; count = h.count - 1 } in
          let is_new : new ≡ g = ground (arith, get-set s.handles id i new, e, same) in
          subst
            (λ (g : Handle).
              (JsMap.get s.ids g.name ≡ some i) × (g.count ≡ times i (without_one id opened)))
            is_new
            (
              (fits.counted id h found).0 ∙ ap some is,
              ground (
                arith,
                same,
                (fits.counted id h found).1,
                times-without_one id i opened,
                ap (λ i. times i opened) is,
              ),
            )
    ];
    there = λ i still. fits.there i (ground (arith, still, times-without_one id i opened));
    once = fits.once;
  }

  pub close_at-Fits :
      (s : Files F) (opened : List ℕ) (id : ℕ)
      → Fits s opened
      → 0 < times id opened
      → (o : Option Handle) → JsMap.get s.handles id ≡ o
      → Fits (close_at id o s) (without_one id opened)
  unfolding close_at
  close_at-Fits s opened id fits open' none gone = record {
    named = fits.named;
    one_name = fits.one_name;
    counted = λ i h e. elim (Bool-cases (eqb id i)) [
      | inr other ↦ (
        (fits.counted i h e).0,
        ground (arith, (fits.counted i h e).1, other, times-without_one id i opened),
      )
      | inl same ↦
          let is : id ≡ i = (eqb_iff id i).0 same in
          absurd (ground (arith, gone, e, ap (JsMap.get s.handles) is))
    ];
    there = λ i still. fits.there i (ground (arith, still, times-without_one id i opened));
    once = fits.once;
  }
  close_at-Fits s opened id fits open' (some h) found =
      let left = close_left s opened id h fits open' found in
      let (at, count) = fits.counted id h found in
      if_elim (λ (t : Files F). Fits t (without_one id opened)) (eqb h.count 1)
        (λ last.
          remove-Fits _ (without_one id opened) h.name id left at
            (ground (arith, last, count, times-without_one id id opened)))
        (λ _. left)
