-- ===== src/Snapshots/Removal.antt =====
-- What `retain` of snapshots.ts deletes, and that the store stays sound.
use sqlite_wasm.Prelude.{
  ℕ, ◌≡◌, refl, String, Option, none, some, List, [], ◌∷◌, ◌&&◌, ◌||◌, not, if◌then◌else◌, Bool,
  true, false, string_eq, ◌==◌, arith, Bool-cases, inl, inr, if_elim, any, subst,
}
use sqlite_wasm.JsMap.{get-delete, has-get}
use sqlite_wasm.Snapshots.Types.{SnapshotInfo}
use sqlite_wasm.Snapshots.MemoryStore.{MemoryStore, remove, get, lies_over}
use sqlite_wasm.Snapshots.StoreInvariant.{IsStore, remove-IsStore}
use sqlite_wasm.Snapshots.Listing.{list}
use sqlite_wasm.Snapshots.Retain.{includes, remove_others, kept_keys, Keeper, RetainPolicy, retain}

removed_then :
    {A : Type 0} (removed : Bool) (key k : String) (later : List String) {after between : Option A}
    (before : Option A)
    → after ≡ (if includes later k then none else between)
    → between ≡ (if removed && key == k then none else before)
    → after ≡ (if includes (if removed then key ∷ later else later) k then none else before)
unfolding includes
removed_then removed key k later before h i = ground (arith, h, i)

removed_now :
    (removed : Bool) (key k : String) (later : List String)
    → includes (if removed then key ∷ later else later) k ≡ true
    → includes later k ≡ false
    → (key == k) ≡ true
unfolding includes
removed_now removed key k later h out = ground (arith, h, out)

only_when : {a b c : Bool} → (a ≡ true → (b ≡ false) × (c ≡ true)) → (a && (b || not c)) ≡ false
only_when {a = true} h = rw ((h refl).0, (h refl).1) refl
only_when {a = false} h = refl

module _ {M : Type 0} where
  remove-get :
      (key k : String) (s : MemoryStore M)
      → get (remove key false s).1 k
        ≡ (if (remove key false s).0 && key == k then none else get s k)
  unfolding remove get
  remove-get key k s = elim (Bool-cases (any (lies_over key) s.bases)) [
    | inl lies ↦ rw lies refl
    | inr free ↦
        rw free
          (ground (arith, get-delete s.bases key k, has-get s.bases key, string_eq.beq_iff key k))
  ]

  remove_others-get :
      (free : String → Bool) (keys : List String) (all : List (SnapshotInfo M)) (s : MemoryStore M)
      (k : String)
      → get (remove_others free keys all s).1 k
        ≡ (if includes (remove_others free keys all s).0 k then none else get s k)
  unfolding remove_others includes
  remove_others-get free keys [] s k = refl
  remove_others-get free keys (info ∷ all) s k =
      let rest = remove_others-get free keys all (remove info.key false s).1 k in
      let first = remove-get info.key k s in
      elim (Bool-cases (includes keys info.key || not (free info.key))) [
        | inl stays ↦ rw stays (remove_others-get free keys all s k)
        | inr goes ↦ rw goes (
            removed_then (remove info.key false s).0 info.key k
              (remove_others free keys all (remove info.key false s).1).0 (get s k) rest first)
      ]

  remove_others-IsStore :
      (free : String → Bool) (keys : List String) (all : List (SnapshotInfo M)) (s : MemoryStore M)
      → IsStore s
      → IsStore (remove_others free keys all s).1
  unfolding remove_others
  remove_others-IsStore free keys [] s sound = sound
  remove_others-IsStore free keys (info ∷ all) s sound =
      if_elim (λ (r : List String × MemoryStore M). IsStore r.1)
        (includes keys info.key || not (free info.key))
        (λ _. remove_others-IsStore free keys all s sound)
        (λ _.
          remove_others-IsStore free keys all (remove info.key false s).1
            (remove-IsStore info.key s sound))

  -- What is deleted was not to be kept, and nobody read it.
  remove_others-deleted :
      (free : String → Bool) (keys : List String) (all : List (SnapshotInfo M)) (s : MemoryStore M)
      (k : String)
      → includes (remove_others free keys all s).0 k ≡ true
      → (includes keys k ≡ false) × (free k ≡ true)
  unfolding remove_others includes
  remove_others-deleted free keys [] s k h = absurd (ground (arith, h))
  remove_others-deleted free keys (info ∷ all) s k h =
      elim (Bool-cases (includes keys info.key || not (free info.key))) [
        | inl stays ↦ remove_others-deleted free keys all s k (rw stays at h)
        | inr goes ↦
            elim (Bool-cases
              (includes (remove_others free keys all (remove info.key false s).1).0 k)) [
                | inl later ↦
                    remove_others-deleted free keys all (remove info.key false s).1 k later
                | inr not_later ↦
                    let same : (info.key == k) ≡ true =
                      removed_now (remove info.key false s).0 info.key k
                        (remove_others free keys all (remove info.key false s).1).0 (rw goes at h)
                        not_later in
                    let is : info.key ≡ k = (string_eq.beq_iff info.key k).0 same in
                    subst (λ k. (includes keys k ≡ false) × (free k ≡ true)) is
                      (ground (arith, goes))
              ]
      ]

  -- What `retain` does to a sound store: the store stays sound, so that every snapshot left still has
  -- the ones it lies over. The deleted snapshots are gone and no other is touched. None of them is in
  -- the kept set, and with locks, each was free: nobody read it.
  pub retain-IsStore :
      (k : Keeper) (free : String → Bool) (policy : RetainPolicy) (now : ℕ) (s t : MemoryStore M)
      (deleted : List String)
      → IsStore s
      → retain k free policy now s ≡ some (deleted, t)
      → IsStore t
        × ((key : String) → get t key ≡ (if includes deleted key then none else get s key))
        × ((key : String)
            → (includes deleted key
                && (includes (kept_keys k policy now (list s none)) key
                    || not (not k.locks || free key)))
              ≡ false)
  unfolding retain
  retain-IsStore k free policy now s t deleted sound e =
      let granted : String → Bool = λ key. not k.locks || free key in
      let keys = kept_keys k policy now (list s none) in
      let all = list s none in
      let made : remove_others granted keys all s ≡ (deleted, t) = ground (arith, e) in
      subst
        (λ r.
          IsStore r.1
          × ((key : String) → get r.1 key ≡ (if includes r.0 key then none else get s key))
          × ((key : String)
              → (includes r.0 key && (includes keys key || not (granted key))) ≡ false))
        made
        (
          remove_others-IsStore granted keys all s sound,
          remove_others-get granted keys all s,
          λ key. only_when (remove_others-deleted granted keys all s key),
        )
