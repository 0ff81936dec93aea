-- ===== src/Snapshots/StoreTests.antt =====
-- The theorems on the stores of snapshots.ts at concrete snapshots.
use sqlite_wasm.Prelude.{
  ℕ, ◌≡◌, refl, Option, none, some, [], ◌∷◌, arith, Bytes, byte_at, length, true, String, ◌==◌,
  string_eq, if◌then◌else◌, false, All, eqb,
}
use sqlite_wasm.JsMap
use sqlite_wasm.Snapshots.Directory.{
  Directory, is_written, get_file, write_file, full_file, parent_lost, start_file, create_file,
  lost_at, get_at, read_meta, meta_or, file_info, shown_size, source_of,
}
use sqlite_wasm.Snapshots.DirectoryDelta.{over, got_delta, get_file-write_delta}
use sqlite_wasm.Snapshots.LayerReads.{byte_over}
use sqlite_wasm.Snapshots.DirectoryRuns.{full_file-held_byte}
use sqlite_wasm.Snapshots.DirectorySaving.{in_full, get_file-write_file}
use sqlite_wasm.Snapshots.NewSnapshot.{NewSnapshot, DeltaOver}
use sqlite_wasm.Snapshots.MemoryStore.{composed_delta, layout_of}
use sqlite_wasm.Snapshots.SavedContent.{held_byte, IsWhole}
use sqlite_wasm.Snapshots.Keys.{encode_key, decode_key}
use sqlite_wasm.Snapshots.KeyNames.{encode_key-decode_key}
use sqlite_wasm.Snapshots.PageRuns.{per_run, page_runs}
use sqlite_wasm.Snapshots.Partition.{IsPartition, IsSmall, page_runs-write_bytes}
use sqlite_wasm.Snapshots.ComposeBlob.{compose_blob}
use sqlite_wasm.Snapshots.Composing.{compose_blob-held_byte}
use sqlite_wasm.Snapshots.IdbStore.{delta_blob, write_record, adds, removes, transact_all}
use sqlite_wasm.Snapshots.DeltaBlob.{delta_blob-composed_delta}
use sqlite_wasm.Snapshots.IdbSaving.{
  IsRecorded, IsLinked, write_record-IsRecorded, transact_all-IsLinked,
}

-- Two pages over old content of which four bytes stay
abbrev content : Bytes
content = 1 ∷ 2 ∷ 3 ∷ 4 ∷ []

abbrev saved : Option DeltaOver → NewSnapshot ℕ
saved delta = record {
  key = "a";
  branch = "main";
  meta = 0;
  base = some content;
  visible = 4;
  size = 6;
  chunk_size = 2;
  pages = 0 ∷ 2 ∷ [];
  page = λ i. 9 ∷ i ∷ [];
  delta = delta;
}

saved-IsWhole : (delta : Option DeltaOver) → IsWhole (saved delta) (byte_at content)
saved-IsWhole delta = record {
  cs_pos = omega arith;
  full = λ i h. refl;
  within = (omega arith, (omega arith, tt));
  base_is = λ i h. refl;
}

page_runs-write_bytes_example :
    IsPartition (4 ∷ 5 ∷ 7 ∷ []) (per_run 4096) true 0 (page_runs (4 ∷ 5 ∷ 7 ∷ []) 4096 true)
    × All (IsSmall 4096) (page_runs (4 ∷ 5 ∷ 7 ∷ []) 4096 true)
page_runs-write_bytes_example = page_runs-write_bytes (4 ∷ 5 ∷ 7 ∷ []) 4096 true

compose_blob-held_byte_example :
    (blob : Bytes) × ((compose_blob (saved none) ≡ some blob)
      × ((length blob ≡ 6)
          × ((q : ℕ) → byte_at blob q ≡ held_byte (saved none) (byte_at content) q)))
compose_blob-held_byte_example =
    compose_blob-held_byte (saved none) (byte_at content) (saved-IsWhole none)
      ((omega arith, tt), (tt, tt)) (omega arith)

delta_blob-composed_delta_example : delta_blob (saved none) ≡ composed_delta (saved none)
delta_blob-composed_delta_example =
    delta_blob-composed_delta (saved none) (omega arith) (λ i h. refl)

write_record-IsRecorded_example :
    IsRecorded (saved none) (byte_at content) [] (write_record 7 (saved none) [])
write_record-IsRecorded_example =
    write_record-IsRecorded 7 (saved none) (byte_at content) [] (saved-IsWhole none)
      ((omega arith, tt), (tt, tt)) (omega arith)

transact_all-IsLinked_example :
    IsLinked (transact_all (adds 7 (saved none) content ∷ removes "b" ∷ []) [])
transact_all-IsLinked_example =
    transact_all-IsLinked (adds 7 (saved none) content ∷ removes "b" ∷ [])

-- The key "v1.0/é"
encode_key-decode_key_example :
    (decode_key (encode_key (118 ∷ 49 ∷ 46 ∷ 48 ∷ 47 ∷ 195 ∷ 169 ∷ []))
      ≡ some (118 ∷ 49 ∷ 46 ∷ 48 ∷ 47 ∷ 195 ∷ 169 ∷ []))
    × All (λ c. eqb c 46 ≡ false) (encode_key (118 ∷ 49 ∷ 46 ∷ 48 ∷ 47 ∷ 195 ∷ 169 ∷ []))
encode_key-decode_key_example = encode_key-decode_key (118 ∷ 49 ∷ 46 ∷ 48 ∷ 47 ∷ 195 ∷ 169 ∷ []) (
  omega arith,
  (omega arith, (omega arith, (omega arith, (omega arith, (omega arith, (omega arith, tt)))))),
)

dotted_name : encode_key (97 ∷ 46 ∷ []) ≡ 97 ∷ 37 ∷ 50 ∷ 69 ∷ []
unfolding encode_key
dotted_name = refl

full_file-held_byte_example :
    (file : Bytes) × ((full_file (saved none) ≡ some file)
      × ((length file ≡ 6)
          × ((q : ℕ) → byte_at file q ≡ held_byte (saved none) (byte_at content) q)))
full_file-held_byte_example =
    full_file-held_byte (saved none) (byte_at content) (saved-IsWhole none)
      ((omega arith, tt), (tt, tt)) (omega arith)

-- Metadata that are numbers come back from JSON.
abbrev kept_json : ℕ → Option ℕ
kept_json = some

abbrev no_files : Directory ℕ
no_files = record { files = []; metas = [] }

get_file-write_file_example :
    let t = (write_file kept_json 0 7 (in_full (saved none)) no_files).1 in
    (source : Bytes) × ((get_file 0 t "a"
        ≡ some (record {
          info = record {
            key = "a";
            branch = "main";
            meta = 0;
            created_at = 7;
            size = 6;
            parent = none;
          };
          source = source;
          delta = none;
        }))
      × (((q : ℕ) → byte_at source q ≡ held_byte (in_full (saved none)) (byte_at content) q)
          × ((k : String)
              → JsMap.get t.files k
                ≡ (if "a" == k then JsMap.get t.files "a" else JsMap.get no_files.files k))))
get_file-write_file_example =
    get_file-write_file kept_json 0 7 (saved none) 0 (byte_at content) no_files (saved-IsWhole none)
      ((omega arith, tt), (tt, tt)) (omega arith) refl
      (unfold JsMap.get in unfold is_written in refl)

-- The snapshot "p" that a delta lies over
abbrev parent_file : Directory ℕ
parent_file = record {
  files = ("p", record { bytes = content; last_modified = 3 }) ∷ [];
  metas =
      ("p", record { branch = "main"; meta = 0; created_at = 3; size = none; delta = none }) ∷ [];
}

abbrev over_parent : DeltaOver
over_parent = record { parent = "p"; parent_created_at = 3; depth = 1; chain_bytes = 4 }

parent_found :
    parent_lost 0 (start_file 7 0 (over (saved none) over_parent) parent_file) (some over_parent)
    ≡ false
unfolding parent_lost start_file create_file get_file lost_at get_at read_meta meta_or file_info
    shown_size source_of JsMap.get JsMap.set
parent_found = refl

get_file-write_delta_example :
    let t = (write_file kept_json 0 7 (over (saved none) over_parent) parent_file).1 in
    (source : Bytes) × ((get_file 0 t "a" ≡ some (got_delta 7 0 (saved none) over_parent source))
      × (((q : ℕ)
            → byte_over
                (got_delta 7 0 (saved none) over_parent source)
                (byte_at content)
                (layout_of (saved none) (some over_parent))
                q
              ≡ held_byte (over (saved none) over_parent) (byte_at content) q)
          × ((k : String)
              → JsMap.get t.files k
                ≡ (if "a" == k then JsMap.get t.files "a" else JsMap.get parent_file.files k))))
get_file-write_delta_example =
    get_file-write_delta kept_json 0 7 (saved none) over_parent 0 (byte_at content) parent_file
      (saved-IsWhole (some over_parent)) refl (unfold JsMap.get in unfold is_written in refl)
      parent_found
