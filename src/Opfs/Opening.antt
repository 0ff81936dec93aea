-- ===== src/Opfs/Opening.antt =====
-- Adding, opening and closing files of opfs.ts keeps the handles right.
use sqlite_wasm.Prelude.{
  ℕ, ◌<◌, ◌≡◌, refl, String, none, some, List, [], ◌∷◌, Bool, nat_eq, string_eq, arith,
}
use sqlite_wasm.JsMap
use sqlite_wasm.JsMap.{JsMap, get-set}
use sqlite_wasm.Opfs.Files.{Files, no_files, add, open_file, open_id, close, remove}
use sqlite_wasm.Opfs.Handles.{times, without_one, Fits, remove-Fits}
use sqlite_wasm.Opfs.OpenAt.{close_at-Fits, open_at-Fits}
use sqlite_wasm.Opfs.Adding.{add-Fits}

module _ {F : Type 0} where
  open_file-Fits :
      (s : Files F) (opened : List ℕ) (name : String) (id : ℕ)
      → Fits s opened
      → JsMap.get s.ids name ≡ some id
      → Fits (open_file name s).1 (id ∷ opened)
  unfolding open_file open_id
  open_file-Fits s opened name id fits at =
      rw at (open_at-Fits s opened name id fits at (JsMap.get s.handles id) refl)

  close-Fits :
      (s : Files F) (opened : List ℕ) (id : ℕ)
      → Fits s opened
      → 0 < times id opened
      → Fits (close id s) (without_one id opened)
  unfolding close
  close-Fits s opened id fits open' =
      close_at-Fits s opened id fits open' (JsMap.get s.handles id) refl

-- What SQLite and the storages do with the files, with the ids that SQLite has open: a file is added
-- under a name that is not in use, and removed by name only while SQLite has no handle on it.
pub data Reached {F : Type 0} : Files F → List ℕ → Type 0 where
  created : Reached no_files []
  added :
      (s : Files F) (opened : List ℕ) (name : String) (file : F) (releases : Bool)
      → Reached s opened
      → JsMap.get s.ids name ≡ none
      → Reached (add name file releases s) opened
  opens :
      (s : Files F) (opened : List ℕ) (name : String) (id : ℕ)
      → Reached s opened
      → JsMap.get s.ids name ≡ some id
      → Reached (open_file name s).1 (id ∷ opened)
  closes :
      (s : Files F) (opened : List ℕ) (id : ℕ)
      → Reached s opened
      → 0 < times id opened
      → Reached (close id s) (without_one id opened)
  removes :
      (s : Files F) (opened : List ℕ) (name : String) (id : ℕ)
      → Reached s opened
      → JsMap.get s.ids name ≡ some id
      → times id opened ≡ 0
      → Reached (remove name s) opened

module _ {F : Type 0} where
  -- Whatever files are added, opened, closed and removed, in any order, a file that SQLite has a
  -- handle on stays available; a file that is added with `release` counts its open handles; and a file
  -- whose `release` was called is gone, and it was called once. Files are added under names not in
  -- use, and removed by name only while no handle is open on them.
  pub Reached-Fits : (s : Files F) (opened : List ℕ) → Reached s opened → Fits s opened
  Reached-Fits s opened created =
      unfold no_files JsMap.get in
      (record {
        named = λ n i e. absurd (ground (arith, e));
        one_name = λ n m i e f. absurd (ground (arith, e));
        counted = λ i h e. absurd (ground (arith, e));
        there = λ i lt. absurd (omega (arith, lt));
        once = λ i lt. absurd (omega (arith, lt));
      })
  Reached-Fits s opened (added t o name file releases r fresh) =
      add-Fits t opened name file releases (Reached-Fits t opened r) fresh
  Reached-Fits s opened (opens t o name id r at) =
      open_file-Fits t o name id (Reached-Fits t o r) at
  Reached-Fits s opened (closes t o id r open') = close-Fits t o id (Reached-Fits t o r) open'
  Reached-Fits s opened (removes t o name id r at closed) =
      remove-Fits t opened name id (Reached-Fits t opened r) at closed
