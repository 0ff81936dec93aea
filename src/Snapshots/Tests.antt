-- ===== src/Snapshots/Tests.antt =====
-- Concrete snapshots, reads and saves of snapshots.ts.
use sqlite_wasm.Prelude.{
  ℕ, ◌<◌, ◌+◌, ◌/◌, ◌≡◌, refl, none, some, [], ◌∷◌, arith, Bytes, byte_at, length, string_eq, false,
  nat_eq, get_or, write_at, slice, subst,
}
use sqlite_wasm.JsMap
use sqlite_wasm.Snapshots.Types.{DeltaLayout, StoredSnapshot, Layer, bottom, lying}
use sqlite_wasm.Snapshots.Runs.{runs, advance, own_goes_on, gap_goes_on, slots_of}
use sqlite_wasm.Snapshots.Tiling.{Tiles, runs-Tiles, own_loop_stops, gap_loop_stops}
use sqlite_wasm.Snapshots.Layers.{layer_read, layer_size}
use sqlite_wasm.Snapshots.LayerReads.{Reads, layer_byte, layer_read-Reads}
use sqlite_wasm.Snapshots.Content.{top, layer_content}
use sqlite_wasm.Snapshots.ContentReads.{IsSound, layer_content-layer_byte}
use sqlite_wasm.Snapshots.Blocks.{BlobState, read_blob}
use sqlite_wasm.Snapshots.BlockReads.{ReadsAs, read_blob-read_bytes}
use sqlite_wasm.Snapshots.NewSnapshot.{
  NewSnapshot, DeltaOver, Pages, snapshot_on, new_snapshot, live_pages, delta_for, delta_over,
  layer_depth,
}
use sqlite_wasm.Snapshots.MemoryStore.{
  MemoryStore, empty_store, write, remove, get, add_composed, add, compose, composed_full,
  composed_delta, put_in_order, put_base, put_in_place, stored_as, layout_of, is_missing,
}
use sqlite_wasm.Snapshots.StoreInvariant.{
  IsStore, Fits, Reached, created, after_write, after_remove, Reached-IsStore,
}
use sqlite_wasm.Snapshots.Resolve.{resolve, resolved, IsChain, resolve_stored}
use sqlite_wasm.Snapshots.SavedContent.{IsSaved}
use sqlite_wasm.Snapshots.Saving.{database_byte, save-IsSaved}

-- A full snapshot of two pages of two bytes
abbrev full : StoredSnapshot ℕ
full = record {
  info = record { key = "a"; branch = "main"; meta = 0; created_at = 5; size = 4; parent = none };
  source = 1 ∷ 2 ∷ 3 ∷ 4 ∷ [];
  delta = none;
}

-- A delta over it, whose second page is another and which ends with an empty one
abbrev layout : DeltaLayout
layout = record {
  parent = "a";
  parent_created_at = 5;
  chunk_size = 2;
  visible = 4;
  pages = 1 ∷ [];
  depth = 1;
  chain_bytes = 2;
}

abbrev over_full : StoredSnapshot ℕ
over_full = record {
  info = record {
    key = "b";
    branch = "main";
    meta = 0;
    created_at = 6;
    size = 6;
    parent = some "a";
  };
  source = 9 ∷ 8 ∷ [];
  delta = some layout;
}

abbrev layers : Layer ℕ
layers = lying over_full (bottom full)

layers-IsSound : IsSound layers
layers-IsSound = ((omega arith, refl, unfold layer_size in omega arith), (refl, refl))

runs-Tiles_example : Tiles layout 1 6 (runs layout 1 6)
runs-Tiles_example = runs-Tiles layout (omega arith) 1 6 (omega arith)

own_loop_stops_example :
    own_goes_on
      (slots_of layout)
      2
      4
      0
      (2 / 2)
      (advance 4 (own_goes_on (slots_of layout) 2 4 0 (2 / 2)) (2 / 2 + 1))
    ≡ false
own_loop_stops_example = own_loop_stops layout (omega arith) (slots_of layout) 2 4 0

gap_loop_stops_example :
    gap_goes_on (slots_of layout) 2 4 (advance 6 (gap_goes_on (slots_of layout) 2 4) (4 / 2 + 1))
    ≡ false
gap_loop_stops_example = gap_loop_stops layout (omega arith) (slots_of layout) 4 6 4 (omega arith)

layer_read-Reads_example : Reads (layer_read layers) (layer_byte layers) (layer_size layers)
layer_read-Reads_example = layer_read-Reads layers ((λ d e. ground (arith, e)), tt)

layer_content-layer_byte_example :
    (bytes : Bytes) × (layer_content layers 1 5 ≡ some bytes)
    × (length bytes ≡ 4)
    × ((i : ℕ) → i < 4 → byte_at bytes i ≡ layer_byte layers (1 + i))
layer_content-layer_byte_example =
    layer_content-layer_byte layers layers-IsSound 1 5 (omega arith)
      (unfold layer_size in omega arith)

abbrev nothing_kept : BlobState
nothing_kept = record { cached = []; previous_end = 0 }

read_blob-read_bytes_example :
    ReadsAs
      (1 ∷ 2 ∷ 3 ∷ [])
      2
      1
      (omega arith)
      nothing_kept
      (0 ∷ 0 ∷ [])
      1
      (read_blob (1 ∷ 2 ∷ 3 ∷ []) 2 1 nothing_kept (0 ∷ 0 ∷ []) 1)
read_blob-read_bytes_example =
    read_blob-read_bytes (1 ∷ 2 ∷ 3 ∷ []) 2 1 (omega arith) nothing_kept (0 ∷ 0 ∷ []) 1 (record {
      right = λ i found e. absurd (unfold JsMap.get in ground (arith, e));
      bounded = omega arith;
    })

abbrev held : Pages
held = record { chunk_size = 2; size = 4; visible = 4; pages = (1, 9 ∷ 8 ∷ []) ∷ [] }

abbrev saved : NewSnapshot ℕ
saved = snapshot_on held (some (bottom full)) "b" "main" 0 8

abbrev delta_saved : DeltaOver
delta_saved = record { parent = "a"; parent_created_at = 5; depth = 1; chain_bytes = 2 }

abbrev full_new : NewSnapshot ℕ
full_new = record {
  key = "a";
  branch = "main";
  meta = 0;
  base = none;
  visible = 0;
  size = 4;
  chunk_size = 2;
  pages = 0 ∷ 1 ∷ [];
  page = λ i. get_or ((1 ∷ 2 ∷ []) ∷ (3 ∷ 4 ∷ []) ∷ []) i [];
  delta = none;
}

abbrev one_stored : MemoryStore ℕ
one_stored = (write 5 full_new empty_store).1

abbrev two_stored : MemoryStore ℕ
two_stored = (write 6 saved one_stored).1

full_stored : get one_stored "a" ≡ some full
unfolding get write add_composed add compose composed_full put_base put_in_place write_at slice
    stored_as layout_of is_missing empty_store JsMap.get JsMap.set JsMap.has
full_stored = refl

full-Fits : Fits one_stored (some delta_saved)
full-Fits p e same =
    let there : get one_stored "a" ≡ some p = unfold get in e in
    let is : full ≡ p = ground (arith, full_stored, there) in
    subst (λ p. (1 ≡ layer_depth p.delta + 1) × (0 < p.info.size)) is (omega arith, omega arith)

two-Reached : Reached two_stored
unfolding snapshot_on live_pages delta_for delta_over
two-Reached =
    after_write 6 saved one_stored (after_write 5 full_new empty_store created tt) full-Fits

Reached-IsStore_example : IsStore (remove "a" false two_stored).1
Reached-IsStore_example =
    Reached-IsStore (remove "a" false two_stored).1 (after_remove "a" two_stored two-Reached)

abbrev delta_stored : StoredSnapshot ℕ
delta_stored = record {
  info = record {
    key = "b";
    branch = "main";
    meta = 0;
    created_at = 6;
    size = 4;
    parent = some "a";
  };
  source = 9 ∷ 8 ∷ [];
  delta = some layout;
}

delta_is_stored : get two_stored "b" ≡ some delta_stored
unfolding get write add_composed add compose composed_full composed_delta put_in_order put_base
    put_in_place write_at slice stored_as layout_of is_missing empty_store JsMap.get JsMap.set
    JsMap.has snapshot_on live_pages delta_for delta_over
delta_is_stored = refl

resolve_stored_example :
    (layer : Layer ℕ) × ((resolve two_stored "b" ≡ resolved layer)
      × ((top layer ≡ delta_stored) × IsChain two_stored layer))
resolve_stored_example =
    resolve_stored two_stored (Reached-IsStore two_stored two-Reached) "b" delta_stored
      delta_is_stored (omega arith) (omega arith)

save-IsSaved_example :
    IsSaved "b" 4
      (database_byte held (layer_byte (bottom full)))
      (layer_byte (bottom full))
      saved.delta
      one_stored
      (write 6 saved one_stored)
save-IsSaved_example =
    save-IsSaved 6 held (bottom full) "b" "main" 0 8 one_stored (omega arith) (refl, tt)
      (refl, refl) (unfold layer_size in omega arith) (unfold new_snapshot in refl)
