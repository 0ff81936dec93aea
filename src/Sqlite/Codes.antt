-- ===== src/Sqlite/Codes.antt =====
-- The result codes of sqlite3-types.ts, and SQLiteError.ts.
use sqlite_wasm.Prelude.{ℕ, ◌%◌, String, List, [], ◌∷◌, get_or}

abbrev pub code_ok : ℕ
code_ok = 0

abbrev pub code_error : ℕ
code_error = 1

abbrev pub code_busy : ℕ
code_busy = 5

abbrev pub code_misuse : ℕ
code_misuse = 21

abbrev pub code_row : ℕ
code_row = 100

abbrev pub code_done : ℕ
code_done = 101

abbrev pub type_integer : ℕ
type_integer = 1

abbrev pub type_float : ℕ
type_float = 2

abbrev pub type_text : ℕ
type_text = 3

abbrev pub type_blob : ℕ
type_blob = 4

-- `names`, by number
abbrev pub code_names : List String
code_names =
    "OK" ∷ "ERROR" ∷ "INTERNAL" ∷ "PERM" ∷ "ABORT" ∷ "BUSY" ∷ "LOCKED" ∷ "NOMEM" ∷ "READONLY"
    ∷ "INTERRUPT" ∷ "IOERR" ∷ "CORRUPT" ∷ "NOTFOUND" ∷ "FULL" ∷ "CANTOPEN" ∷ "PROTOCOL" ∷ "EMPTY"
    ∷ "SCHEMA" ∷ "TOOBIG" ∷ "CONSTRAINT" ∷ "MISMATCH" ∷ "MISUSE" ∷ "NOLFS" ∷ "AUTH" ∷ "FORMAT"
    ∷ "RANGE" ∷ "NOTADB" ∷ "NOTICE" ∷ "WARNING" ∷ []

-- `names[resultCode & 0xff] ?? 'ERROR'`, which follows `SQLITE_` in `code`; `& 0xff` is the remainder
-- by 256.
unfoldable pub code_name : ℕ → String
code_name result_code = get_or code_names (result_code % 256) "ERROR"
