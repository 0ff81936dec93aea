-- ===== src/Sqlite/Machine.antt =====
-- The state of a `Database` of Database.ts, with its statements, its calls of the Wasm module and the
-- errors it throws.
use sqlite_wasm.Prelude.{
  ℕ, zero, suc, ◌+◌, ◌*◌, String, Bool, Option, List, [], ◌∷◌, eqb, Bytes, byte_at, if◌then◌else◌,
  get_or,
}
use sqlite_wasm.JsMap.{JsMap}
use sqlite_wasm.Sqlite.Wasm.{Engine, Call, sqlite3_errmsg, sqlite3_errstr}
use sqlite_wasm.Sqlite.Actions.{Action, Outcome, returned, thrown, sqlite_error, Failure}
use sqlite_wasm.Sqlite.Binding.{World, Statement, Scope, new_statement}

-- `commitWatch`, with its listeners by number
pub record Watch : Type 0 where
  pub pointer : ℕ
  pub listeners : List ℕ

-- The methods of a `Persistence` that a database calls
pub data Notice : Type 0 where
  notice_flush notice_close notice_detach notice_closing : Notice

-- `objects` are the statements that were made, by number; `notices` are the calls of `persistence`,
-- the newest first, which is there when `stored` is.
pub record Machine : Type 0 where
  pub world : World
  pub objects : List Statement
  pub functions : JsMap String ℕ
  pub commit_listener : Option ℕ
  pub commit_watch : Option Watch
  pub stored : Bool
  pub notices : List Notice
  pub file : Option String
  pub attaching : Bool

unfoldable pub record_call : Call → Machine → Machine
record_call c s = record s { world = record s.world { calls = c ∷ s.world.calls } }

unfoldable pub set_db : ℕ → Machine → Machine
set_db ptr s = record s { world = record s.world { db_ptr = ptr } }

-- `this.persistence?.close()` and the like
unfoldable pub notify : Notice → Machine → Machine
notify n s = record s { notices = if s.stored then n ∷ s.notices else s.notices }

-- The object with a number, after a method
unfoldable pub put_object : List Statement → ℕ → Statement → List Statement
put_object [] i x = []
put_object (y ∷ ys) zero x = x ∷ ys
put_object (y ∷ ys) (suc i) x = y ∷ put_object ys i x

unfoldable pub with_scope : ℕ → Scope → Machine → Machine
unfolding put_object
with_scope i t s = record s { world = t.world; objects = put_object s.objects i t.self }

unfoldable pub scope_of : ℕ → Machine → Scope
unfolding new_statement
scope_of i s = record { self = get_or s.objects i (new_statement 0); world = s.world }

-- A method of a statement
unfoldable pub back_in : {A : Type 0} → ℕ → Machine → Outcome Scope A → Outcome Machine A
unfolding with_scope
back_in i s (returned a t) = returned a (with_scope i t s)
back_in i s (thrown e t) = thrown e (with_scope i t s)

unfoldable pub on_statement : {A : Type 0} → ℕ → Action Scope A → Action Machine A
unfolding scope_of back_in
on_statement i m s = back_in i s (m (scope_of i s))

-- `getValue(ptr, 'i32')` and `getValue(ptr, '*')`, for numbers that are not negative
unfoldable pub value_at : Bytes → ℕ → ℕ
value_at heap ptr =
    byte_at heap ptr
    + (byte_at heap (ptr + 1) * 256
        + (byte_at heap (ptr + 2) * 65536 + byte_at heap (ptr + 3) * 16777216))

module _ (E : Engine) where
  unfoldable pub call : Call → Action Machine ℕ
  unfolding record_call
  call c s = let t = record_call c s in returned (E.answer t.world.calls) t

  unfoldable pub get_value : ℕ → Action Machine ℕ
  unfolding value_at
  get_value ptr s = returned (value_at (E.heap s.world.calls) ptr) s

  -- `throw new SQLiteError(sqlite3_errmsg(this.dbPtr), code)`
  unfoldable pub throw_message : {A : Type 0} → ℕ → Action Machine A
  unfolding record_call
  throw_message code s =
      let t = record_call (sqlite3_errmsg s.world.db_ptr) s in
      thrown (sqlite_error (E.text t.world.calls) code) t

  -- `throw new SQLiteError(sqlite3_errstr(code), code)`
  unfoldable pub throw_code : {A : Type 0} → ℕ → Action Machine A
  unfolding record_call
  throw_code code s =
      let t = record_call (sqlite3_errstr code) s in
      thrown (sqlite_error (E.text t.world.calls) code) t

  unfoldable pub handle_error : ℕ → Action Machine Unit
  unfolding throw_message
  handle_error code s = if eqb code 0 then returned tt s else throw_message code s

  -- `if (result !== OK) throw new SQLiteError(sqlite3_errstr(result), result)`
  unfoldable pub succeed : ℕ → Action Machine Unit
  unfolding throw_code
  succeed code s = if eqb code 0 then returned tt s else throw_code code s

  -- `if (!this.dbPtr) throw new Error('Database closed')`
  unfoldable pub if_open : {A : Type 0} → Failure → Action Machine A → Action Machine A
  if_open closed m s = if eqb s.world.db_ptr 0 then thrown closed s else m s

  -- A call with the database's pointer
  unfoldable pub on_db : (ℕ → Call) → Action Machine ℕ
  unfolding call
  on_db c s = call (c s.world.db_ptr) s
