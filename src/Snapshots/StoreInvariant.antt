-- ===== src/Snapshots/StoreInvariant.antt =====
-- What the memory store keeps true of the snapshots it holds.
use sqlite_wasm.Prelude.{
  ℕ, ◌+◌, ◌≤◌, ◌<◌, ◌≡◌, String, Option, none, some, [], ◌∷◌, Bool, false, any, arith, max, ◌==◌,
  string_eq, Bool-cases, Option-cases, if_elim, inl, inr, subst, Bytes, not, ◌&&◌,
}
use sqlite_wasm.JsMap
use sqlite_wasm.JsMap.{JsMap, get-set, get-delete}
use sqlite_wasm.Snapshots.Types.{DeltaLayout, StoredSnapshot}
use sqlite_wasm.Snapshots.NewSnapshot.{NewSnapshot, DeltaOver, layer_depth}
use sqlite_wasm.Snapshots.MemoryStore.{
  MemoryStore, Written, compose, is_missing, stored_as, layout_of, add, add_composed, write,
  lies_over, rests_on, remove, empty_store,
}

-- A delta's parent is stored, and it is the one that the delta was written over: it has the time
-- noted, which is before the delta's, and it lies over one delta less. It is not empty.
pub record HasParent {M : Type 0} (bases : JsMap String (StoredSnapshot M)) (created_at : ℕ)
    (d : DeltaLayout) : Type 0 where
  pub below : StoredSnapshot M
  pub stored : JsMap.get bases d.parent ≡ some below
  pub same : below.info.created_at ≡ d.parent_created_at
  pub earlier : d.parent_created_at < created_at
  pub depth : d.depth ≡ layer_depth below.delta + 1
  pub not_empty : 0 < below.info.size

module _ {M : Type 0} where
  abbrev pub LiesSoundly : JsMap String (StoredSnapshot M) → ℕ → Option DeltaLayout → Type 0
  LiesSoundly bases created_at none = Unit
  LiesSoundly bases created_at (some d) = HasParent bases created_at d

pub record IsEntry {M : Type 0} (s : MemoryStore M) (key : String) (b : StoredSnapshot M)
    : Type 0 where
  pub key_is : b.info.key ≡ key
  pub time : b.info.created_at ≤ s.last
  pub below : LiesSoundly s.bases b.info.created_at b.delta

module _ {M : Type 0} where
  -- Every snapshot is stored under its own key, was written by the last time noted, and lies over
  -- its parent.
  abbrev pub IsStore : MemoryStore M → Type 0
  IsStore s =
      (key : String) (b : StoredSnapshot M) → JsMap.get s.bases key ≡ some b → IsEntry s key b

  -- A snapshot more, under a new key, takes no parent away.
  LiesSoundly-set :
      (bases : JsMap String (StoredSnapshot M)) (key : String) (new : StoredSnapshot M)
      → JsMap.has bases key ≡ false
      → (c : ℕ) (d : Option DeltaLayout) → LiesSoundly bases c d
      → LiesSoundly (JsMap.set bases key new) c d
  LiesSoundly-set bases key new h c none sound = tt
  LiesSoundly-set bases key new h c (some d) sound = record {
    below = sound.below;
    stored = ground (
      arith,
      get-set bases key d.parent new,
      sound.stored,
      string_eq.beq_iff key d.parent,
      JsMap.has-get bases key h,
    );
    same = sound.same;
    earlier = sound.earlier;
    depth = sound.depth;
    not_empty = sound.not_empty;
  }

  LiesSoundly-delete :
      (bases : JsMap String (StoredSnapshot M)) (key : String) (c : ℕ) (d : Option DeltaLayout)
      → rests_on key d ≡ false
      → LiesSoundly bases c d
      → LiesSoundly (JsMap.delete bases key) c d
  unfolding rests_on
  LiesSoundly-delete bases key c none l sound = tt
  LiesSoundly-delete bases key c (some d) l sound = record {
    below = sound.below;
    stored = ground (
      arith,
      get-delete bases key d.parent,
      sound.stored,
      l,
      string_eq.beq_iff key d.parent,
      string_eq.beq_iff d.parent key,
    );
    same = sound.same;
    earlier = sound.earlier;
    depth = sound.depth;
    not_empty = sound.not_empty;
  }

  -- What `newSnapshot` makes: where the snapshot that it lies over is still stored, the depth counts
  -- on from that, and that is not empty.
  abbrev pub Fits : MemoryStore M → Option DeltaOver → Type 0
  Fits s none = Unit
  Fits s (some d) =
      (p : StoredSnapshot M)
      → JsMap.get s.bases d.parent ≡ some p
      → p.info.created_at ≡ d.parent_created_at
      → (d.depth ≡ layer_depth p.delta + 1) × (0 < p.info.size)

  new_lies :
      (s : MemoryStore M) (n : NewSnapshot M) (c : ℕ) (d : Option DeltaOver)
      → s.last < c
      → IsStore s
      → Fits s d
      → is_missing s d ≡ false
      → LiesSoundly s.bases c (layout_of n d)
  unfolding is_missing layout_of
  new_lies s n c none lt sound fits m = tt
  new_lies s n c (some d) lt sound fits m = elim (Option-cases (JsMap.get s.bases d.parent)) [
    | inl e ↦ absurd (ground (arith, e, m))
    | inr (p, e) ↦
        let at = sound d.parent p e in
        let same : p.info.created_at ≡ d.parent_created_at = ground (arith, e, m) in
        record {
          below = p;
          stored = e;
          same = same;
          earlier = omega (arith, at.time);
          depth = (fits p e same).0;
          not_empty = (fits p e same).1;
        }
  ]

  stored_new :
      (now : ℕ) (n : NewSnapshot M) (bytes : Bytes) (s : MemoryStore M)
      → IsStore s
      → Fits s n.delta
      → JsMap.has s.bases n.key ≡ false
      → is_missing s n.delta ≡ false
      → let created_at = max now (s.last + 1) in
        IsStore (record {
          bases = JsMap.set s.bases n.key (stored_as n created_at bytes);
          last = created_at;
        })
  unfolding stored_as
  stored_new now n bytes s sound fits fresh m key b e =
      let created_at = max now (s.last + 1) in
      let new = stored_as n created_at bytes in
      let lt : s.last < created_at = omega arith in
      elim (Bool-cases (n.key == key)) [
        | inl same ↦
            let is_new : new ≡ b = ground (arith, get-set s.bases n.key key new, e, same) in
            subst
              (λ b.
                IsEntry (record { bases = JsMap.set s.bases n.key new; last = created_at }) key b)
              is_new
              (record {
                key_is = (string_eq.beq_iff n.key key).0 same;
                time = omega arith;
                below =
                    LiesSoundly-set s.bases n.key new fresh created_at (layout_of n n.delta)
                      (new_lies s n created_at n.delta lt sound fits m);
              })
        | inr other ↦
            let at = sound key b (ground (arith, get-set s.bases n.key key new, e, other)) in
            record {
              key_is = at.key_is;
              time = omega (arith, at.time, lt);
              below = LiesSoundly-set s.bases n.key new fresh b.info.created_at b.delta at.below;
            }
      ]

  add-IsStore :
      (now : ℕ) (n : NewSnapshot M) (bytes : Bytes) (s : MemoryStore M)
      → IsStore s
      → Fits s n.delta
      → IsStore (add now n bytes s).1
  unfolding add
  add-IsStore now n bytes s sound fits =
      if_elim (λ (r : Written M × MemoryStore M). IsStore r.1) (JsMap.has s.bases n.key)
        (λ _. sound)
        (λ fresh.
          if_elim (λ (r : Written M × MemoryStore M). IsStore r.1) (is_missing s n.delta)
            (λ _. sound) (λ m. stored_new now n bytes s sound fits fresh m))

  pub write-IsStore :
      (now : ℕ) (n : NewSnapshot M) (s : MemoryStore M)
      → IsStore s
      → Fits s n.delta
      → IsStore (write now n s).1
  unfolding write add_composed
  write-IsStore now n s sound fits =
      if_elim (λ (r : Written M × MemoryStore M). IsStore r.1) (JsMap.has s.bases n.key)
        (λ _. sound)
        (λ _.
          if_elim (λ (r : Written M × MemoryStore M). IsStore r.1) (is_missing s n.delta)
            (λ _. sound) (λ _. composed (compose n)))
    where
      composed : (c : Option Bytes) → IsStore (add_composed now n c s).1
      composed none = sound
      composed (some bytes) = add-IsStore now n bytes s sound fits

  -- A snapshot that is stored while nothing lies over `key` does not lie over it.
  any-get :
      (m : JsMap String (StoredSnapshot M)) (key k : String) (b : StoredSnapshot M)
      → any (lies_over key) m ≡ false
      → JsMap.get m k ≡ some b
      → rests_on key b.delta ≡ false
  unfolding lies_over JsMap.get
  any-get [] key k b a e = cc
  any-get ((j, c) ∷ m) key k b a e = elim (Bool-cases (j == k)) [
    | inl same ↦ let is : c ≡ b = ground (arith, e, same) in rw (← is) (ground (arith, a))
    | inr other ↦ any-get m key k b (ground (arith, a)) (rw other at e)
  ]

  pub remove-IsStore :
      (key : String) (s : MemoryStore M) → IsStore s → IsStore (remove key false s).1
  unfolding remove
  remove-IsStore key s sound =
      if_elim (λ (r : Bool × MemoryStore M). IsStore r.1) (not false && any (lies_over key) s.bases)
        (λ _. sound)
        (λ a k b e.
          let kept : JsMap.get s.bases k ≡ some b = ground (arith, get-delete s.bases key k, e) in
          let at = sound k b kept in
          record {
            key_is = at.key_is;
            time = at.time;
            below =
                LiesSoundly-delete s.bases key b.info.created_at b.delta
                  (any-get s.bases key k b a kept) at.below;
          })

-- The stores that writes and removals lead to, in any order. Every snapshot written is one that
-- `newSnapshot` makes; none is removed by force.
pub data Reached {M : Type 0} : MemoryStore M → Type 0 where
  created : Reached empty_store
  after_write :
      (now : ℕ) (n : NewSnapshot M) (s : MemoryStore M)
      → Reached s
      → Fits s n.delta
      → Reached (write now n s).1
  after_remove : (key : String) (s : MemoryStore M) → Reached s → Reached (remove key false s).1

module _ {M : Type 0} where
  -- Whatever is written and removed, in any order, where each delta written counts on from the
  -- depth of the snapshot that it lies over and nothing is removed by force: each snapshot stays
  -- stored under its own key, and the one that a delta lies over stays stored: the one that it was
  -- written over, of an earlier time and with one delta less below it.
  pub Reached-IsStore : (s : MemoryStore M) → Reached s → IsStore s
  Reached-IsStore s created = λ key b e. absurd (unfold empty_store JsMap.get in ground (arith, e))
  Reached-IsStore s (after_write now n t r fits) = write-IsStore now n t (Reached-IsStore t r) fits
  Reached-IsStore s (after_remove key t r) = remove-IsStore key t (Reached-IsStore t r)
