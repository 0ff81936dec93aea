-- ===== src/Snapshots/DirectorySaving.antt =====
-- What `write` of `directorySnapshotStore` of snapshots.ts leaves, and what `get` then reads.
use sqlite_wasm.Prelude.{
  ℕ, ◌≤◌, min, ◌≡◌, sym, ap, ◌∙◌, String, Option, none, some, [], Bool, false, if◌then◌else◌, Bytes,
  byte_at, length, string_eq, ◌==◌, arith, beq_refl, subst,
}
use sqlite_wasm.JsMap
use sqlite_wasm.JsMap.{JsMap, get-set}
use sqlite_wasm.Snapshots.NewSnapshot.{NewSnapshot}
use sqlite_wasm.Snapshots.MemoryStore.{exists, layout_of}
use sqlite_wasm.Snapshots.SavedContent.{held_byte, IsWhole}
use sqlite_wasm.Snapshots.Tables.{IsAscending}
use sqlite_wasm.Snapshots.BlobContent.{base_length}
use sqlite_wasm.Snapshots.Directory.{
  Directory, SnapshotFile, StoredMeta, meta_or, read_meta, shown_size, file_info, source_of, get_at,
  get_file, is_written, write_new, create_file, delta_size, parent_lost, start_file, close_file,
  full_file, write_file,
}
use sqlite_wasm.Snapshots.DirectoryRuns.{full_file-held_byte}

module _ {M : Type 0} where
  -- The snapshot, saved in full
  abbrev pub in_full : NewSnapshot M → NewSnapshot M
  in_full n = record n { delta = none }

  -- What is left of a full snapshot whose file is made
  left_of : ℕ → M → NewSnapshot M → Bytes → Directory M → Directory M
  left_of now meta n bytes s = record {
    files =
        JsMap.set (JsMap.set s.files n.key (record { bytes = []; last_modified = now })) n.key
          (record { bytes = bytes; last_modified = now });
    metas =
        JsMap.set s.metas n.key
          (record { branch = n.branch; meta = meta; created_at = now; size = none; delta = none });
  }

  wrote :
      (json : M → Option M) (no_meta : M) (now : ℕ) (meta : M) (n : NewSnapshot M) (bytes : Bytes)
      (s : Directory M)
      → full_file (in_full n) ≡ some bytes
      → json n.meta ≡ some meta
      → is_written (JsMap.get s.files n.key) ≡ false
      → (write_file json no_meta now (in_full n) s).1 ≡ left_of now meta n bytes s
  unfolding write_file write_new start_file create_file close_file parent_lost delta_size layout_of
      left_of
  wrote json no_meta now meta n bytes s done kept fresh =
      ap
        (λ (b : Bool).
          (if b then (some exists, s) else write_new no_meta now (in_full n) (json n.meta) s).1)
        fresh
      ∙ (ap (λ o. (write_new no_meta now (in_full n) o s).1) kept
          ∙ ap (λ o. (close_file now (in_full n) o (start_file now meta (in_full n) s)).1) done)

  meta_of_full : ℕ → M → NewSnapshot M → StoredMeta M
  meta_of_full now meta n = record {
    branch = n.branch;
    meta = meta;
    created_at = now;
    size = none;
    delta = none;
  }

  meta_there :
      (now : ℕ) (meta : M) (n : NewSnapshot M) (s : Directory M)
      → JsMap.get (JsMap.set s.metas n.key (meta_of_full now meta n)) n.key
        ≡ some (meta_of_full now meta n)
  meta_there now meta n s =
      get-set s.metas n.key n.key (meta_of_full now meta n)
      ∙ ap (λ b. if b then some (meta_of_full now meta n) else JsMap.get s.metas n.key)
          (beq_refl n.key)

  get_left :
      (no_meta : M) (now : ℕ) (meta : M) (n : NewSnapshot M) (bytes : Bytes) (s : Directory M)
      → get_file no_meta (left_of now meta n bytes s) n.key
        ≡ some (record {
          info = record {
            key = n.key;
            branch = n.branch;
            meta = meta;
            created_at = now;
            size = length bytes;
            parent = none;
          };
          source = bytes;
          delta = none;
        })
  unfolding get_file left_of get_at read_meta meta_or file_info shown_size source_of meta_of_full
  get_left no_meta now meta n bytes s =
      let file : SnapshotFile = record { bytes = bytes; last_modified = now } in
      let files = JsMap.set s.files n.key (record { bytes = []; last_modified = now }) in
      let there : JsMap.get (JsMap.set files n.key file) n.key ≡ some file =
        get-set files n.key n.key file
        ∙ ap (λ b. if b then some file else JsMap.get files n.key) (beq_refl n.key) in
      ap (get_at no_meta (left_of now meta n bytes s) n.key) there
      ∙ (ap
          (λ o. some (record {
            info = file_info n.key (meta_or no_meta now o) (length bytes);
            source = source_of bytes (meta_or no_meta now o).delta;
            delta = (meta_or no_meta now o).delta;
          }))
          (meta_there now meta n s))

  others_left :
      (now : ℕ) (meta : M) (n : NewSnapshot M) (bytes : Bytes) (s : Directory M) (k : String)
      → JsMap.get (left_of now meta n bytes s).files k ≡ (
          if n.key == k
          then JsMap.get (left_of now meta n bytes s).files n.key
          else JsMap.get s.files k)
  unfolding left_of
  others_left now meta n bytes s k =
      let empty : SnapshotFile = record { bytes = []; last_modified = now } in
      let file : SnapshotFile = record { bytes = bytes; last_modified = now } in
      let files = JsMap.set s.files n.key empty in
      ground (
        arith,
        get-set files n.key k file,
        get-set files n.key n.key file,
        get-set s.files n.key k empty,
        beq_refl n.key,
      )

  -- A full snapshot whose pages ascend, with old content as long as what stays of it, whose metadata JSON
  -- can write, and that is written under a key without a file or with an empty one, is got back with
  -- its branch, its time and its size, with the metadata that JSON gives back, and with the bytes of
  -- the database; the files of other keys stay.
  pub get_file-write_file :
      (json : M → Option M) (no_meta : M) (now : ℕ) (n : NewSnapshot M) (meta : M) (under : ℕ → ℕ)
      (s : Directory M)
      → IsWhole (in_full n) under
      → IsAscending n.pages
      → min n.visible n.size ≤ base_length n.base
      → json n.meta ≡ some meta
      → is_written (JsMap.get s.files n.key) ≡ false
      → let t = (write_file json no_meta now (in_full n) s).1 in
        (source : Bytes) × ((get_file no_meta t n.key
            ≡ some (record {
              info = record {
                key = n.key;
                branch = n.branch;
                meta = meta;
                created_at = now;
                size = n.size;
                parent = none;
              };
              source = source;
              delta = none;
            }))
          × (((q : ℕ) → byte_at source q ≡ held_byte (in_full n) under q)
              × ((k : String)
                  → JsMap.get t.files k
                    ≡ (if n.key == k then JsMap.get t.files n.key else JsMap.get s.files k))))
  get_file-write_file json no_meta now n meta under s w asc long kept fresh =
      let (bytes, (done, (len, same))) = full_file-held_byte (in_full n) under w asc long in
      let is = wrote json no_meta now meta n bytes s done kept fresh in
      (
        bytes,
        (
          ap (λ (t : Directory M). get_file no_meta t n.key) is
              ∙ (get_left no_meta now meta n bytes s
                  ∙ ap
                      (λ size. some (record {
                        info = record {
                          key = n.key;
                          branch = n.branch;
                          meta = meta;
                          created_at = now;
                          size = size;
                          parent = none;
                        };
                        source = bytes;
                        delta = none;
                      }))
                      len),
          (
            same,
            λ k.
                subst
                  (λ (t : Directory M).
                    JsMap.get t.files k
                    ≡ (if n.key == k then JsMap.get t.files n.key else JsMap.get s.files k))
                  (sym is) (others_left now meta n bytes s k),
          ),
        ),
      )
