-- ===== src/Snapshots/IdbSaving.antt =====
-- What `write` of `indexedDBSnapshotStore` of snapshots.ts stores, and what the store keeps true.
use sqlite_wasm.Prelude.{
  ℕ, ◌≤◌, min, ◌≡◌, refl, ap, ◌∙◌, String, Option, none, some, List, [], ◌∷◌, Bool, true, false,
  not, ◌&&◌, any, if◌then◌else◌, Bytes, string_eq, ◌==◌, arith, if_elim, beq_refl, eqb, Bool-cases,
  Option-cases, inl, inr, subst,
}
use sqlite_wasm.JsMap
use sqlite_wasm.JsMap.{JsMap, get-set, get-delete}
use sqlite_wasm.Snapshots.Types.{DeltaLayout, StoredSnapshot}
use sqlite_wasm.Snapshots.LayerReads.{byte_over}
use sqlite_wasm.Snapshots.NewSnapshot.{NewSnapshot, DeltaOver}
use sqlite_wasm.Snapshots.MemoryStore.{
  Written, written, exists, missing_parent, range_error, stored_as, layout_of, lies_over, rests_on,
}
use sqlite_wasm.Snapshots.SavedContent.{held_byte, IsWhole, ReadsAs, delta_reads}
use sqlite_wasm.Snapshots.Tables.{IsAscending}
use sqlite_wasm.Snapshots.BlobContent.{base_length}
use sqlite_wasm.Snapshots.Composing.{compose_blob-held_byte}
use sqlite_wasm.Snapshots.DeltaBlob.{delta_blob-composed_delta}
use sqlite_wasm.Snapshots.IdbStore.{
  Records, differs, blob_for, parent_missing, add_record, stored_blob, read_back, add_blob,
  write_record, remove_record, Transaction, adds, removes, transact, transact_all,
}

module _ {M : Type 0} where
  blob_for-ReadsAs :
      (n : NewSnapshot M) (under : ℕ → ℕ)
      → IsWhole n under
      → IsAscending n.pages
      → min n.visible n.size ≤ base_length n.base
      → (created_at : ℕ) (d : Option DeltaOver)
      → (blob : Bytes) × ((blob_for n d ≡ some blob)
          × ((q : ℕ)
              → byte_over (stored_as n created_at blob) under (layout_of n d) q
                ≡ held_byte n under q))
  unfolding byte_over stored_as layout_of
  blob_for-ReadsAs n under w asc long created_at none =
      let (blob, (done, (len, bytes))) = compose_blob-held_byte n under w asc long in
      (blob, (done, bytes))
  blob_for-ReadsAs n under w asc long created_at (some d) =
      let (blob, done, reads) = delta_reads n under w created_at d in
      (blob, (delta_blob-composed_delta n w.cs_pos w.full ∙ done, reads))

  -- A write stores the snapshot under its key, which then reads as the database, and leaves the others;
  -- or nothing changes, as the key is taken or the parent is missing.
  unfoldable pub IsRecorded : NewSnapshot M → (ℕ → ℕ) → Records M → Written M × Records M → Type 0
  IsRecorded n under s (written b, t) =
      (JsMap.has s n.key ≡ false)
      × ((parent_missing s n.delta ≡ false)
          × (((q : ℕ) → byte_over b under b.delta q ≡ held_byte n under q)
              × ((k : String) → JsMap.get t k ≡ (if n.key == k then some b else JsMap.get s k))))
  IsRecorded n under s (exists, t) = (JsMap.has s n.key ≡ true) × (t ≡ s)
  IsRecorded n under s (missing_parent, t) =
      (JsMap.has s n.key ≡ false) × ((parent_missing s n.delta ≡ true) × (t ≡ s))
  IsRecorded n under s (range_error, t) = ⊥

  -- What was just added is read back.
  read_same :
      (now : ℕ) (n : NewSnapshot M) (blob : Bytes) (s : Records M)
      → stored_blob (JsMap.get (JsMap.set s n.key (stored_as n now blob)) n.key) now blob ≡ blob
  unfolding stored_blob stored_as
  read_same now n blob s =
      let new = stored_as n now blob in
      let there : JsMap.get (JsMap.set s n.key new) n.key ≡ some new =
        get-set s n.key n.key new
        ∙ ap (λ b. if b then some new else JsMap.get s n.key) (beq_refl n.key) in
      ap (λ o. stored_blob o now blob) there
      ∙ if_elim (λ (r : Bytes). r ≡ blob) (eqb now now) (λ h. refl) (λ h. refl)

  added :
      (now : ℕ) (n : NewSnapshot M) (under : ℕ → ℕ) (blob : Bytes) (s : Records M)
      → JsMap.has s n.key ≡ false
      → ReadsAs n under now blob
      → IsRecorded n under s (add_blob now n (some blob) s)
  unfolding add_blob add_record IsRecorded
  added now n under blob s fresh reads = elim (Bool-cases (parent_missing s n.delta)) [
    | inl m ↦ rw (m, read_back) (fresh, (m, refl))
    | inr m ↦
        rw (m, fresh, read_back)
          (
            fresh,
            (
              m,
              (
                rw (read_same now n blob s) reads,
                rw (read_same now n blob s) (λ k. get-set s n.key k (stored_as n now blob)),
              ),
            ),
          )
  ]

  -- A write of a snapshot with ascending pages, and old content as long as what stays of it, while nothing
  -- else happens: it stores the snapshot under its key, which then reads as the database, and leaves
  -- the others; or nothing changes, as the key is taken or the parent of a delta is missing.
  pub write_record-IsRecorded :
      (now : ℕ) (n : NewSnapshot M) (under : ℕ → ℕ) (s : Records M)
      → IsWhole n under
      → IsAscending n.pages
      → min n.visible n.size ≤ base_length n.base
      → IsRecorded n under s (write_record now n s)
  unfolding write_record IsRecorded
  write_record-IsRecorded now n under s w asc long =
      let (blob, (done, reads)) = blob_for-ReadsAs n under w asc long now n.delta in
      elim (Bool-cases (JsMap.has s n.key)) [
        | inl h ↦ rw h (h, refl)
        | inr fresh ↦ rw (fresh, done) (added now n under blob s fresh reads)
      ]

  -- Every delta lies over a record that is stored, the one it was written over.
  abbrev pub IsOver : Records M → Option DeltaLayout → Type 0
  IsOver s none = Unit
  IsOver s (some d) =
      (p : StoredSnapshot M) × ((JsMap.get s d.parent ≡ some p)
        × (p.info.created_at ≡ d.parent_created_at))

  abbrev pub IsLinked : Records M → Type 0
  IsLinked s = (key : String) (b : StoredSnapshot M) → JsMap.get s key ≡ some b → IsOver s b.delta

  IsOver-set :
      (s : Records M) (key : String) (new : StoredSnapshot M) (d : Option DeltaLayout)
      → JsMap.has s key ≡ false
      → IsOver s d
      → IsOver (JsMap.set s key new) d
  IsOver-set s key new none h k = tt
  IsOver-set s key new (some d) h (p, (at, same)) = (
    p,
    (
      ground (
        arith,
        get-set s key d.parent new,
        at,
        string_eq.beq_iff key d.parent,
        JsMap.has-get s key h,
      ),
      same,
    ),
  )

  IsOver-delete :
      (s : Records M) (key : String) (d : Option DeltaLayout)
      → rests_on key d ≡ false
      → IsOver s d
      → IsOver (JsMap.delete s key) d
  unfolding rests_on
  IsOver-delete s key none h k = tt
  IsOver-delete s key (some d) h (p, (at, same)) = (
    p,
    (
      ground (
        arith,
        get-delete s key d.parent,
        at,
        h,
        string_eq.beq_iff key d.parent,
        string_eq.beq_iff d.parent key,
      ),
      same,
    ),
  )

  parent_there :
      (n : NewSnapshot M) (s : Records M) (d : Option DeltaOver)
      → parent_missing s d ≡ false
      → IsOver s (layout_of n d)
  unfolding parent_missing layout_of differs
  parent_there n s none h = tt
  parent_there n s (some d) h = elim (Option-cases (JsMap.get s d.parent)) [
    | inl e ↦ absurd (ground (arith, h, e))
    | inr (p, e) ↦ (p, (e, ground (arith, h, e)))
  ]

  add_record-IsLinked :
      (now : ℕ) (n : NewSnapshot M) (blob : Bytes) (s : Records M)
      → IsLinked s
      → IsLinked (add_record now n blob s).1
  unfolding add_record stored_as
  add_record-IsLinked now n blob s h =
      let new = stored_as n now blob in
      if_elim (λ (r : Written M × Records M). IsLinked r.1) (parent_missing s n.delta) (λ m. h)
        (λ m.
          if_elim (λ (r : Written M × Records M). IsLinked r.1) (JsMap.has s n.key) (λ k. h)
            (λ fresh key b at. elim (Bool-cases (n.key == key)) [
              | inl same ↦
                  let is : some new ≡ some b = ground (arith, get-set s n.key key new, at, same) in
                  let e : new ≡ b = cc is in
                  subst (λ (r : StoredSnapshot M). IsOver (JsMap.set s n.key new) r.delta) e
                    (IsOver-set s n.key new (layout_of n n.delta) fresh
                      (parent_there n s n.delta m))
              | inr other ↦
                  IsOver-set s n.key new b.delta fresh
                    (h key b (ground (arith, get-set s n.key key new, at, other)))
            ]))

  rests_of :
      (s : Records M) (key k : String) (b : StoredSnapshot M)
      → any (lies_over key) s ≡ false
      → JsMap.get s k ≡ some b
      → rests_on key b.delta ≡ false
  unfolding lies_over JsMap.get
  rests_of [] key k b h at = cc
  rests_of ((j, r) ∷ s) key k b h at = elim (Bool-cases (j == k)) [
    | inl same ↦
        let is : some r ≡ some b = ground (arith, at, same) in
        let e : r ≡ b = cc is in
        subst (λ (x : StoredSnapshot M). rests_on key x.delta ≡ false) e (ground (arith, h))
    | inr other ↦ rests_of s key k b (ground (arith, h)) (ground (arith, at, other))
  ]

  remove_record-IsLinked :
      (key : String) (s : Records M) → IsLinked s → IsLinked (remove_record key false s).1
  unfolding remove_record
  remove_record-IsLinked key s h =
      if_elim (λ (r : Bool × Records M). IsLinked r.1) (any (lies_over key) s && not false) (λ l. h)
        (λ l.
          if_elim (λ (r : Records M). IsLinked r) (JsMap.has s key)
            (λ there k b at.
              let old : JsMap.get s k ≡ some b = ground (arith, get-delete s key k, at) in
              IsOver-delete s key b.delta (rests_of s key k b (ground (arith, l)) old) (h k b old))
            (λ gone. h))

  IsLinked-from :
      (ts : List (Transaction M)) (s : Records M) → IsLinked s → IsLinked (transact_all ts s)
  unfolding transact_all transact
  IsLinked-from [] s h = h
  IsLinked-from (adds now n blob ∷ ts) s h =
      IsLinked-from ts (add_record now n blob s).1 (add_record-IsLinked now n blob s h)
  IsLinked-from (removes key ∷ ts) s h =
      IsLinked-from ts (remove_record key false s).1 (remove_record-IsLinked key s h)

  pub transact_all-IsLinked : (ts : List (Transaction M)) → IsLinked (transact_all ts [])
  transact_all-IsLinked ts = IsLinked-from ts [] (λ key b at. unfold JsMap.get in cc)
