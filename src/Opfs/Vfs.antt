-- ===== src/Opfs/Vfs.antt =====
-- The other calls of the VFS that the class `Files` of opfs.ts answers.
use sqlite_wasm.Prelude.{
  ℕ, zero, suc, String, Option, none, some, List, [], ◌∷◌, ltb, eqb, if◌then◌else◌, Bool, false,
  Bytes, length, get_or, ◌>>=◌, string_eq,
}
use sqlite_wasm.JsMap
use sqlite_wasm.Opfs.Files.{Files}

-- `SyncFile` of a file system: what its operations return, and the file after them; `none` is an
-- exception.
pub record SyncFile (F : Type 0) : Type 0 where
  pub write : F → Bytes → ℕ → Option (ℕ × F)
  pub truncate : F → ℕ → Option F
  pub flush : F → Option F
  pub get_size : F → Option ℕ

abbrev pub ioerr_write : ℕ
ioerr_write = 778

abbrev pub ioerr_fsync : ℕ
ioerr_fsync = 1034

abbrev pub ioerr_truncate : ℕ
ioerr_truncate = 1546

-- The files with the one of an id after an operation on it
unfoldable pub set_file : {F : Type 0} → List (Option F) → ℕ → F → List (Option F)
set_file [] id file = []
set_file (f ∷ files) zero file = some file ∷ files
set_file (f ∷ files) (suc id) file = f ∷ set_file files id file

module _ {F : Type 0} where
  unfoldable pub acted : ℕ → ℕ → Option (ℕ × F) → Files F → ℕ × Files F
  unfolding set_file
  acted id error none s = (error, s)
  acted id error (some (code, file)) s = (code, record s { files = set_file s.files id file })

  unfoldable pub use_at : ℕ → ℕ → Option F → (F → Option (ℕ × F)) → Files F → ℕ × Files F
  unfolding acted
  use_at id error none action s = (error, s)
  use_at id error (some file) action s = acted id error (action file) s

  -- `use`
  unfoldable pub use_file : ℕ → ℕ → (F → Option (ℕ × F)) → Files F → ℕ × Files F
  unfolding use_at
  use_file id error action s = use_at id error (get_or s.files id none) action s

  module _ (io : SyncFile F) where
    unfoldable pub written : Bytes → ℕ → F → Option (ℕ × F)
    written source offset file = do
      (count, after) ← io.write file source offset
      some (if eqb count (length source) then 0 else ioerr_write, after)

    unfoldable pub write : ℕ → Bytes → ℕ → Files F → ℕ × Files F
    unfolding use_file written
    write id source offset s = use_file id ioerr_write (written source offset) s

    unfoldable pub truncated : ℕ → F → Option (ℕ × F)
    truncated size file = do after ← io.truncate file size; some (0, after)

    unfoldable pub truncate : ℕ → ℕ → Files F → ℕ × Files F
    unfolding use_file truncated
    truncate id size s = use_file id ioerr_truncate (truncated size) s

    unfoldable pub flushed : F → Option (ℕ × F)
    flushed file = do after ← io.flush file; some (0, after)

    unfoldable pub sync : ℕ → Files F → ℕ × Files F
    unfolding use_file flushed
    sync id s = use_file id ioerr_fsync flushed s

    unfoldable pub size_of : Option F → Option ℕ
    size_of none = none
    size_of (some file) = io.get_size file

    -- `size`; `none` is -1.
    unfoldable pub size : ℕ → Files F → Option ℕ
    unfolding size_of
    size id s = size_of (get_or s.files id none)

    unfoldable pub is_positive : Option ℕ → Bool
    is_positive none = false
    is_positive (some n) = ltb 0 n

    -- `exists`, of the id of a name
    unfoldable pub exists_at : Option ℕ → Files F → Bool
    unfolding size is_positive
    exists_at none s = false
    exists_at (some id) s = is_positive (size id s)

    unfoldable pub exists_file : String → Files F → Bool
    unfolding exists_at
    exists_file name s = exists_at (JsMap.get s.ids name) s
