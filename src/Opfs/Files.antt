-- ===== src/Opfs/Files.antt =====
-- The class `Files` of opfs.ts: the files that the VFS of a Wasm module answers with.
use sqlite_wasm.Prelude.{
  ℕ, zero, suc, ◌+◌, ◌-◌, String, Option, none, some, List, [], ◌∷◌, ◌++◌, eqb, if◌then◌else◌, Bool,
  length, nat_eq, string_eq,
}
use sqlite_wasm.JsMap
use sqlite_wasm.JsMap.{JsMap}

pub record Handle : Type 0 where
  pub name : String
  pub count : ℕ

-- `ids`, `files` and `handles`, and the ids of the files whose `release` was called, the last first.
pub record Files (F : Type 0) : Type 0 where
  pub ids : JsMap String ℕ
  pub files : List (Option F)
  pub handles : JsMap ℕ Handle
  pub released : List ℕ

-- `this.files[id] = undefined`
unfoldable pub drop_file {ℓ} : {F : Type ℓ} → List (Option F) → ℕ → List (Option F)
drop_file [] id = []
drop_file (file ∷ files) zero = none ∷ files
drop_file (file ∷ files) (suc id) = file ∷ drop_file files id

unfoldable pub count_of : Option Handle → ℕ
count_of none = 0
count_of (some h) = h.count

module _ {F : Type 0} where
  unfoldable pub no_files : Files F
  no_files = record { ids = []; files = []; handles = []; released = [] }

  unfoldable pub add : String → F → Bool → Files F → Files F
  add name file releases s =
      let id = length s.files in
      record {
        ids = JsMap.set s.ids name id;
        files = s.files ++ (some file ∷ []);
        handles =
            if releases
            then JsMap.set s.handles id (record { name = name; count = 0 })
            else s.handles;
        released = s.released;
      }

  unfoldable pub open_handles_at : Option ℕ → Files F → ℕ
  unfolding count_of
  open_handles_at none s = 0
  open_handles_at (some id) s = count_of (JsMap.get s.handles id)

  unfoldable pub open_handles : String → Files F → ℕ
  unfolding open_handles_at
  open_handles name s = open_handles_at (JsMap.get s.ids name) s

  -- The end of `remove`, which calls `release`
  unfoldable pub release_at : ℕ → Option Handle → Files F → Files F
  release_at id none s = s
  release_at id (some h) s = record s {
    handles = JsMap.delete s.handles id;
    released = id ∷ s.released;
  }

  unfoldable pub remove_at : String → Option ℕ → Files F → Files F
  unfolding drop_file release_at
  remove_at name none s = s
  remove_at name (some id) s =
      release_at id (JsMap.get s.handles id)
        (record s { ids = JsMap.delete s.ids name; files = drop_file s.files id })

  unfoldable pub remove : String → Files F → Files F
  unfolding remove_at
  remove name s = remove_at name (JsMap.get s.ids name) s

  unfoldable pub open_at : ℕ → Option Handle → Files F → Files F
  open_at id none s = s
  open_at id (some h) s = record s {
    handles = JsMap.set s.handles id (record { name = h.name; count = h.count + 1 });
  }

  unfoldable pub open_id : Option ℕ → Files F → Option ℕ × Files F
  unfolding open_at
  open_id none s = (none, s)
  open_id (some id) s = (some id, open_at id (JsMap.get s.handles id) s)

  -- `open`; `none` is -1.
  unfoldable pub open_file : String → Files F → Option ℕ × Files F
  unfolding open_id
  open_file name s = open_id (JsMap.get s.ids name) s

  -- SQLite closes handles that it opened, so a count that is closed is not 0.
  unfoldable pub close_at : ℕ → Option Handle → Files F → Files F
  unfolding remove
  close_at id none s = s
  close_at id (some h) s =
      let left = record s {
        handles = JsMap.set s.handles id (record { name = h.name; count = h.count - 1 });
      } in
      if eqb h.count 1 then remove h.name left else left

  unfoldable pub close : ℕ → Files F → Files F
  unfolding close_at
  close id s = close_at id (JsMap.get s.handles id) s
