-- ===== src/Snapshots/SavedContent.antt =====
-- What a saved snapshot reads as, of snapshots.ts: the pages of the database over its base.
use sqlite_wasm.Prelude.{
  ◌>>=◌, ℕ, ◌+◌, ◌*◌, ◌/◌, ◌%◌, ◌<◌, min, ◌≡◌, refl, Option, none, some, [], ltb, if◌then◌else◌,
  ◌==◌, Bytes, byte_at, length, zeros, arith, String, string_eq, max, length-replicate,
  get_or-replicate, Bool-cases, Option-cases, inl, inr, nat_eq, All, true, false, subst, if_elim,
  get_or-past,
}
use native.Mathlib.Nat.{mod-lt, div-add-mod'}
use sqlite_wasm.JsMap
use sqlite_wasm.JsMap.{JsMap, get-set}
use sqlite_wasm.Snapshots.Runs.{slots_from, slots_of}
use sqlite_wasm.Snapshots.Tiling.{origin}
use sqlite_wasm.Snapshots.LayerReads.{byte_over}
use sqlite_wasm.Snapshots.ContentRuns.{slot-lt}
use sqlite_wasm.Snapshots.NewSnapshot.{NewSnapshot, DeltaOver}
use sqlite_wasm.Snapshots.MemoryStore.{
  MemoryStore, Written, written, exists, missing_parent, range_error, compose, composed_for,
  composed_full, composed_delta, is_missing, stored_as, layout_of, add, add_composed, write,
}
use sqlite_wasm.Snapshots.Compose.{
  put_in_order_lem, put_in_place_lem, put_base_lem, base_byte, picked,
}

module _ {M : Type 0} where
  -- Byte `q` of the database that a snapshot is made of: of the page that covers it, else of the
  -- base below `visible`, else zero.
  abbrev pub held_byte : NewSnapshot M → (ℕ → ℕ) → ℕ → ℕ
  held_byte n under q =
      if ltb q n.size
      then picked n.page (JsMap.get (slots_from 0 n.pages []) (q / n.chunk_size)) (q % n.chunk_size)
          (if ltb q n.visible then under q else 0)
      else 0

  -- What `newSnapshot` makes: chunks have a size, each page is a whole chunk that starts within the
  -- database, and `base` has the bytes of `under`.
  pub record IsWhole (n : NewSnapshot M) (under : ℕ → ℕ) : Type 0 where
    pub cs_pos : 0 < n.chunk_size
    pub full : (i : ℕ) → i < length n.pages → length (n.page i) ≡ n.chunk_size
    pub within : All (λ index. index * n.chunk_size < n.size) n.pages
    pub base_is : (i : ℕ) → i < min n.visible n.size → base_byte n.base i ≡ under i

  -- The composed bytes read as the database.
  abbrev pub ReadsAs : NewSnapshot M → (ℕ → ℕ) → ℕ → Bytes → Type 0
  ReadsAs n under created_at bytes =
      (q : ℕ)
      → byte_over (stored_as n created_at bytes) under (layout_of n n.delta) q ≡ held_byte n under q

  delta_byte :
      (n : NewSnapshot M) (under : ℕ → ℕ) (created_at : ℕ) (d : DeltaOver) (b : Bytes) (q : ℕ)
      → ((slot : ℕ)
          → JsMap.get (slots_from 0 n.pages []) (q / n.chunk_size) ≡ some slot
          → byte_at b (slot * n.chunk_size + q % n.chunk_size)
            ≡ byte_at (n.page slot) (q % n.chunk_size))
      → byte_over (stored_as n created_at b) under (layout_of n (some d)) q ≡ held_byte n under q
  unfolding byte_over stored_as layout_of origin slots_of
  delta_byte n under created_at d b q h =
      elim (Option-cases (JsMap.get (slots_from 0 n.pages []) (q / n.chunk_size))) [
        | inl e ↦ rw (byte_over, origin, slots_of, e) (ground arith)
        | inr (slot, e) ↦ rw (byte_over, origin, slots_of, e) (ground (arith, h slot e))
      ]

  pub delta_reads :
      (n : NewSnapshot M) (under : ℕ → ℕ)
      → IsWhole n under
      → (created_at : ℕ) (d : DeltaOver)
      → (bytes : Bytes) × (composed_delta n ≡ some bytes)
        × ((q : ℕ)
            → byte_over (stored_as n created_at bytes) under (layout_of n (some d)) q
              ≡ held_byte n under q)
  unfolding composed_delta byte_over stored_as layout_of origin slots_of
  delta_reads n under w created_at d =
      let (b, done, len, bytes) =
        put_in_order_lem n.page n.chunk_size 0 n.pages (zeros (length n.pages * n.chunk_size))
          (λ m lt. w.full m (omega (arith, lt)))
          (omega (arith, length-replicate {A = ℕ} (length n.pages * n.chunk_size) 0)) in
      (
        b,
        done,
        λ q. delta_byte n under created_at d b q (λ slot e. ground (
          arith,
          bytes slot (q % n.chunk_size) (mod-lt q w.cs_pos),
          slot-lt 0 n.pages [] (q / n.chunk_size) slot
              (λ q t at. absurd (unfold JsMap.get in ground (arith, at))) e,
        )),
      )

  full_reads :
      (n : NewSnapshot M) (under : ℕ → ℕ)
      → IsWhole n under
      → (created_at : ℕ)
      → (bytes : Bytes) × (composed_full n ≡ some bytes)
        × ((q : ℕ) → byte_over (stored_as n created_at bytes) under none q ≡ held_byte n under q)
  unfolding composed_full byte_over stored_as
  full_reads n under w created_at =
      let (a, kept, a_len, a_bytes) =
        put_base_lem n.base (min n.visible n.size) (zeros n.size)
          (omega (arith, length-replicate {A = ℕ} n.size 0)) (λ i. get_or-replicate n.size i 0)
          under w.base_is in
      let (b, done, len, bytes) =
        put_in_place_lem n.page n.chunk_size n.size 0 n.pages a []
          (λ q. if ltb q n.visible then under q else 0) (λ m lt. w.full m (omega (arith, lt)))
          (omega (arith, a_len, length-replicate {A = ℕ} n.size 0)) w.within
          (λ j k lt in'. unfold JsMap.get in ground (arith, a_bytes (j * n.chunk_size + k))) in
      (
        b,
        rw (kept, ◌>>=◌) done,
        λ q. elim (Bool-cases (ltb q n.size)) [
          | inl in' ↦ rw in' (
              subst
                (λ x.
                  byte_at b x
                  ≡ picked n.page (JsMap.get (slots_from 0 n.pages []) (q / n.chunk_size))
                      (q % n.chunk_size) (if ltb x n.visible then under x else 0))
                (div-add-mod' q n.chunk_size)
                (bytes (q / n.chunk_size) (q % n.chunk_size) (mod-lt q w.cs_pos)
                  (ground (arith, in', div-add-mod' q n.chunk_size))))
          | inr past ↦ rw past (get_or-past b q 0 (ground (arith, past, len)))
        ],
      )

  pub compose-ReadsAs :
      (n : NewSnapshot M) (under : ℕ → ℕ)
      → IsWhole n under
      → (created_at : ℕ)
      → (bytes : Bytes) × ((compose n ≡ some bytes) × ReadsAs n under created_at bytes)
  unfolding compose layout_of
  compose-ReadsAs n under w created_at = by n.delta
    where
      by :
          (d : Option DeltaOver)
          → (bytes : Bytes) × ((composed_for n d ≡ some bytes)
              × ((q : ℕ)
                  → byte_over (stored_as n created_at bytes) under (layout_of n d) q
                    ≡ held_byte n under q))
      by none = let (b, done, reads) = full_reads n under w created_at in (b, (done, reads))
      by (some d) = let (b, done, reads) = delta_reads n under w created_at d in (b, (done, reads))

  -- What `write` does of a database of `size` bytes, each as `byte` gives it, over a layer with the
  -- bytes of `under`: it stores the snapshot under its key, which then reads as the database and
  -- leaves the others; or nothing changes, as the key is taken or the parent is missing.
  abbrev pub IsSaved :
      String
      → ℕ
      → (ℕ → ℕ)
      → (ℕ → ℕ)
      → Option DeltaOver
      → MemoryStore M
      → Written M × MemoryStore M
      → Type 0
  IsSaved key size byte under delta s (written b, t) =
      (JsMap.has s.bases key ≡ false)
      × (is_missing s delta ≡ false)
      × (b.info.size ≡ size)
      × ((q : ℕ) → byte_over b under b.delta q ≡ byte q)
      × ((k : String) → JsMap.get t.bases k ≡ (if key == k then some b else JsMap.get s.bases k))
  IsSaved key size byte under delta s (exists, t) = (JsMap.has s.bases key ≡ true) × (t ≡ s)
  IsSaved key size byte under delta s (missing_parent, t) =
      (JsMap.has s.bases key ≡ false) × (is_missing s delta ≡ true) × (t ≡ s)
  IsSaved key size byte under delta s (range_error, t) = ⊥

  -- The database that a snapshot is made of is saved.
  abbrev pub IsWritten :
      NewSnapshot M → (ℕ → ℕ) → MemoryStore M → Written M × MemoryStore M → Type 0
  IsWritten n under = IsSaved n.key n.size (held_byte n under) under n.delta

  added :
      (now : ℕ) (n : NewSnapshot M) (under : ℕ → ℕ) (bytes : Bytes) (s : MemoryStore M)
      → ((created_at : ℕ) → ReadsAs n under created_at bytes)
      → IsWritten n under s (add now n bytes s)
  unfolding add stored_as
  added now n under bytes s reads =
      if_elim (IsWritten n under s) (JsMap.has s.bases n.key) (λ h. (h, refl))
        (λ fresh.
          if_elim (IsWritten n under s) (is_missing s n.delta) (λ m. (fresh, m, refl))
            (λ m. (
              fresh,
              m,
              refl,
              reads _,
              λ k. get-set s.bases n.key k (stored_as n (max now (s.last + 1)) bytes),
            )))

  pub write-IsWritten :
      (now : ℕ) (n : NewSnapshot M) (under : ℕ → ℕ) (s : MemoryStore M)
      → IsWhole n under
      → IsWritten n under s (write now n s)
  unfolding write add_composed byte_over stored_as
  write-IsWritten now n under s w =
      let (bytes, (done, reads)) = compose-ReadsAs n under w 0 in
      if_elim (IsWritten n under s) (JsMap.has s.bases n.key) (λ h. (h, refl))
        (λ fresh.
          if_elim (IsWritten n under s) (is_missing s n.delta) (λ m. (fresh, m, refl))
            (λ m. rw done (added now n under bytes s (λ created_at. reads))))
