-- ===== src/Opfs/Tests.antt =====
-- Concrete handles on the files of opfs.ts.
use sqlite_wasm.Prelude.{
  some, String, List, none, ℕ, ◌+◌, ◌-◌, ◌<◌, leb, if◌then◌else◌, length, byte_at, ◌≡◌, refl, [],
  ◌∷◌, arith, nat_eq, string_eq, true,
}
use sqlite_wasm.JsMap
use sqlite_wasm.Opfs.Files.{
  Files, no_files, add, open_file, open_id, open_at, close, close_at, remove, remove_at, release_at,
  drop_file,
}
use sqlite_wasm.Snapshots.Layers.{Reader, read_bytes}
use sqlite_wasm.Snapshots.LayerReads.{read_bytes-Reads}
use sqlite_wasm.Opfs.Reads.{read, ioerr_short_read, read-Reads}
use sqlite_wasm.Opfs.Persistence
use sqlite_wasm.Opfs.Persistence.{
  Call, flushes, is_closing, closes as closes_file, create, run, called, closing, flush, run-once,
}
use sqlite_wasm.Opfs.Handles.{Fits}
use sqlite_wasm.Opfs.Opening.{Reached, created, added, opens, closes, Reached-Fits}

abbrev one : Files ℕ
one = add "db" 7 true no_files

abbrev two_open : Files ℕ
two_open = (open_file "db" (open_file "db" one).1).1

-- The second handle closes last, and the file is released.
abbrev after : Files ℕ
after = close 0 (close 0 two_open)

is_released : after.released ≡ 0 ∷ []
unfolding no_files add open_file open_id open_at close close_at remove remove_at release_at
    drop_file JsMap.get JsMap.set JsMap.delete
is_released = refl

after-Reached : Reached after []
unfolding no_files add open_file open_id open_at JsMap.get JsMap.set
after-Reached =
    closes (close 0 two_open) (0 ∷ []) 0
      (closes two_open (0 ∷ 0 ∷ []) 0
        (opens (open_file "db" one).1 (0 ∷ []) "db" 0
          (opens one [] "db" 0 (added no_files [] "db" 7 true created refl) refl) refl)
        (omega arith))
      (omega arith)

Reached-Fits_example : Fits after []
Reached-Fits_example = Reached-Fits after [] after-Reached

abbrev read_only : Files Reader
read_only = add "a" (read_bytes (1 ∷ 2 ∷ 3 ∷ [])) true no_files

read-Reads_example :
    ((read 0 (9 ∷ 9 ∷ []) 2 read_only).0 ≡ (if leb 2 (3 - 2) then 0 else ioerr_short_read))
    × (length (read 0 (9 ∷ 9 ∷ []) 2 read_only).1 ≡ 2)
    × ((i : ℕ)
        → i < 2
        → byte_at (read 0 (9 ∷ 9 ∷ []) 2 read_only).1 i ≡ byte_at (1 ∷ 2 ∷ 3 ∷ []) (2 + i))
read-Reads_example =
    read-Reads read_only 0 (read_bytes (1 ∷ 2 ∷ 3 ∷ [])) (byte_at (1 ∷ 2 ∷ 3 ∷ [])) 3 (9 ∷ 9 ∷ []) 2
      (unfold add no_files in refl) (read_bytes-Reads (1 ∷ 2 ∷ 3 ∷ []))

abbrev letting_go : List (Call String)
letting_go = flushes none ∷ is_closing (some "full") ∷ closes_file ∷ []

run-once_example :
    ((run letting_go create).released ≡ 1)
    × ((run (closes_file ∷ []) (run letting_go create)).released ≡ 1)
    × (flush none (run (closes_file ∷ []) (run letting_go create)) ≡ (run letting_go create).error)
run-once_example =
    run-once letting_go (closes_file ∷ []) none
      (unfold run called closing Persistence.close create in refl)
