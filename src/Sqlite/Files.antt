-- ===== src/Sqlite/Files.antt =====
-- How a `Database` of Database.ts is opened, and the files that it is read from and stored in.
use sqlite_wasm.Prelude.{
  ℕ, zero, suc, ◌+◌, ◌*◌, String, Bool, true, false, not, Option, none, some, List, [], ◌∷◌, eqb,
  ◌||◌, Bytes, if◌then◌else◌,
}
use sqlite_wasm.Sqlite.Codes.{code_ok, code_busy, code_misuse}
use sqlite_wasm.Sqlite.Wasm.{
  Engine, sqlite3_close_v2, sqlite3_errmsg, sqlite3_errstr, sqlite3_free, alinea_open_file,
  alinea_open_base, alinea_pages, alinea_rebase, alinea_attach_file, alinea_detach_file,
  alinea_flush, sqlite3_get_autocommit, stack_save, stack_alloc, stack_restore,
}
use sqlite_wasm.Sqlite.Actions.{
  Action, Failure, returned, thrown, give, modify, finally, ◌>>=◌, ◌>>◌, sqlite_error,
  database_closed,
}
use sqlite_wasm.Sqlite.Machine.{
  Machine, record_call, set_db, value_at, call, get_value, throw_code, succeed, if_open, on_db,
}
use sqlite_wasm.Sqlite.Database.{is_there, clear_statements, clear_functions}

-- `fail`
unfoldable pub fail : {A : Type 0} → String → ℕ → Action Machine A
unfolding record_call set_db
fail message code s =
    thrown (sqlite_error message code) (set_db 0 (record_call (sqlite3_close_v2 s.world.db_ptr) s))

unfoldable pub set_file : Option String → Machine → Machine
set_file file s = record s { file = file }

unfoldable pub set_attaching : Bool → Machine → Machine
set_attaching b s = record s { attaching = b }

-- `Pages`
pub record Pages : Type 0 where
  pub chunk_size : ℕ
  pub size : ℕ
  pub visible : ℕ
  pub pages : List (ℕ × ℕ)

-- The loop of `pages`, over `count` entries from `i`
unfoldable pub pages_from : Bytes → ℕ → ℕ → ℕ → ℕ → List (ℕ × ℕ)
unfolding value_at
pages_from heap indexes pointers i zero = []
pages_from heap indexes pointers i (suc count) =
    (value_at heap (indexes + 8 * i), value_at heap (pointers + 4 * i))
    ∷ pages_from heap indexes pointers (i + 1) count

module _ (E : Engine) where
  unfoldable pub fail_message : ℕ → Action Machine Unit
  unfolding record_call fail
  fail_message code s =
      let t = record_call (sqlite3_errmsg s.world.db_ptr) s in fail (E.text t.world.calls) code t

  -- The private `open`, with the result of the call before it
  unfoldable pub open_db : ℕ → Action Machine Unit
  unfolding get_value set_db clear_statements clear_functions fail_message
  open_db code = do
    ptr ← get_value E E.temp_int32
    modify (set_db ptr)
    modify clear_statements
    modify clear_functions
    (λ s. if eqb code code_ok then returned tt s else fail_message code s)

  unfoldable pub open_file : String → Action Machine Unit
  unfolding on_db call open_db set_file
  open_file file = do
    closed ← on_db E sqlite3_close_v2
    code ← call E (alinea_open_file file)
    open_db code
    modify (set_file (some file))

  unfoldable pub open_base : String → Action Machine Unit
  unfolding on_db call open_db
  open_base file = do
    closed ← on_db E sqlite3_close_v2
    code ← call E (alinea_open_base file)
    open_db code

  -- `attach` up to its `await`
  unfoldable pub start_attach : Action Machine Unit
  unfolding if_open is_there set_attaching
  start_attach = if_open E database_closed (λ s.
      if s.attaching || (is_there s.commit_listener || is_there s.file)
      then thrown (sqlite_error "Database is stored already" code_misuse) s
      else returned tt (set_attaching true s))

  -- `finally { this.attaching = false }`
  unfoldable pub end_attach : Machine → Machine
  unfolding set_attaching
  end_attach = set_attaching false

  unfoldable pub is_closed : Machine → Bool
  is_closed s = eqb s.world.db_ptr 0

  -- What `pages` returns, after it freed the indexes
  unfoldable pub pages_at : ℕ → ℕ → Action Machine Pages
  unfolding value_at pages_from record_call
  pages_at info sizes s =
      let heap = E.heap s.world.calls in
      let indexes = value_at heap (info + 8) in
      let pages =
        pages_from heap indexes (value_at heap (info + 12)) 0 (value_at heap (info + 4)) in
      let t = record_call (sqlite3_free indexes) s in
      let left = E.heap t.world.calls in
      returned
        (record {
          chunk_size = value_at left info;
          size = E.double_at left sizes;
          visible = E.double_at left (sizes + 8);
          pages = pages;
        })
        t

  unfoldable pub read_pages : Action Machine Pages
  unfolding call on_db succeed pages_at
  read_pages = do
    info ← call E (stack_alloc 16)
    sizes ← call E (stack_alloc 16)
    result ← on_db E (λ db. alinea_pages db info sizes)
    succeed E result
    pages_at info sizes

  unfoldable pub pages : Action Machine Pages
  unfolding if_open call record_call read_pages
  pages =
      if_open E database_closed
        (do stack ← call E stack_save; finally (record_call (stack_restore stack)) read_pages)

  -- `rebase`, on a snapshot by its pointer
  unfoldable pub rebase : ℕ → String → Action Machine Unit
  unfolding on_db succeed
  rebase snapshot file s =
      if eqb s.world.db_ptr 0 || eqb snapshot 0
      then thrown database_closed s
      else (on_db E (λ db. alinea_rebase db snapshot file) >>= succeed E) s

  unfoldable pub attach_file : String → Action Machine Unit
  unfolding if_open on_db succeed set_file
  attach_file file = if_open E database_closed (do
    result ← on_db E (λ db. alinea_attach_file db file)
    succeed E result
    modify (set_file (some file)))

  unfoldable pub detach_result : ℕ → Action Machine Unit
  unfolding throw_code
  detach_result code s =
      if eqb code code_ok
      then returned tt s
      else if eqb code code_busy
      then thrown (sqlite_error "Cannot detach a database during a write transaction" code) s
      else throw_code E code s

  -- The error of the last writes, if they failed
  unfoldable pub write_error : ℕ → Action Machine (Option Failure)
  unfolding record_call
  write_error code s =
      let t = record_call (sqlite3_errstr code) s in
      if eqb code code_ok
      then returned none s
      else returned (some (sqlite_error (E.text t.world.calls) code)) t

  unfoldable pub detach_file : Action Machine (Option Failure)
  unfolding is_there on_db detach_result set_file get_value write_error
  detach_file s =
      if eqb s.world.db_ptr 0 || not (is_there s.file)
      then returned none s
      else (do
        result ← on_db E alinea_detach_file
        detach_result result
        modify (set_file none)
        code ← get_value E E.temp_int32
        write_error code)
          s

  unfoldable pub in_transaction : Action Machine Bool
  unfolding on_db
  in_transaction s =
      if eqb s.world.db_ptr 0
      then returned false s
      else (on_db E sqlite3_get_autocommit >>= λ code. give (eqb code 0)) s

  unfoldable pub store_file : Action Machine Unit
  unfolding on_db succeed
  store_file s =
      if eqb s.world.db_ptr 0 then returned tt s else (on_db E alinea_flush >>= succeed E) s
