-- ===== src/IndexedDb/LoadTests.antt =====
-- Loading a concrete file, of indexeddb.ts.
use sqlite_wasm.Prelude.{
  ℕ, ◌*◌, ◌/◌, min, max, ◌≡◌, refl, none, some, [], ◌∷◌, ◌++◌, eqb, if◌then◌else◌, true, Bytes,
  length, zeros, arith, write_at, slice, subst,
}
use sqlite_wasm.IndexedDb.Batch.{Meta, Stored}
use sqlite_wasm.IndexedDb.Persistence.{ceil_div}
use sqlite_wasm.IndexedDb.Load.{
  Loader, magic, check_meta, check_header, is_power_of_two, starts_with, get_uint16, get_uint32,
  page_size_of, put_chunk, put_chunks, load_into, read_bytes,
}
use sqlite_wasm.IndexedDb.LoadReads.{AreWhole}
use sqlite_wasm.IndexedDb.Loading.{Loaded, load_into-Loaded}

-- A database that is the bytes loaded so far
abbrev appending : Loader Bytes
appending = record {
  malloc = λ n db. true;
  alinea_load =
      λ db bytes offset total cs. if eqb offset (length db) then some (db ++ bytes) else none;
}

appends :
    (db bytes : Bytes) (offset total cs : ℕ)
    → is_power_of_two cs 512 65536 ≡ true
    → offset ≡ length db
    → (t : Bytes) × ((appending.alinea_load db bytes offset total cs ≡ some t) × (t ≡ db ++ bytes))
appends db bytes offset total cs ok at = (db ++ bytes, (ground (arith, at), refl))

-- One page of 512 bytes
abbrev page : Bytes
page = magic ++ (2 ∷ 0 ∷ zeros 494)

abbrev one_page : Meta
one_page = record { size = 512; chunk_size = 512 }

abbrev file : Stored
file = record { chunks = λ i. some page; meta = some one_page }

page_length : length page ≡ 512
page_length = refl

page_read : put_chunks file.chunks 512 0 0 8192 (zeros 512) ≡ some page
unfolding put_chunks put_chunk write_at slice
page_read = refl

page_header : check_header page 512 ≡ true
unfolding check_header starts_with page_size_of get_uint16 get_uint32 is_power_of_two ceil_div
page_header = refl

file-AreWhole : AreWhole file.chunks 512
file-AreWhole i b e =
    let is : page ≡ b = ground (arith, e) in subst (λ b. length b ≡ 512) is page_length

part_header :
    (part : Bytes)
    → put_chunks file.chunks 512 0 0
        (max 1 (read_bytes / 512))
        (zeros (min (max 1 (read_bytes / 512) * 512) 512))
      ≡ some part
    → check_header part 512 ≡ true
part_header part e =
    let there : put_chunks file.chunks 512 0 0 8192 (zeros 512) ≡ some part = e in
    let is : page ≡ part = ground (arith, page_read, there) in
    subst (λ p. check_header p 512 ≡ true) is page_header

load_into-Loaded_example :
    (t : Bytes) × ((load_into appending file [] ≡ some (some 512, t))
      × Loaded file.chunks 512 512 t)
load_into-Loaded_example =
    load_into-Loaded appending (λ db. db) (λ n db. refl) appends file one_page [] refl
      (unfold check_meta is_power_of_two in refl) file-AreWhole part_header refl
