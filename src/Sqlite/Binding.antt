-- ===== src/Sqlite/Binding.antt =====
-- The state of a statement and `bindValue` of Statement.ts, over the calls of the Wasm module.
use sqlite_wasm.Prelude.{
  ℕ, ◌+◌, String, Bool, true, false, Option, none, List, [], ◌∷◌, eqb, if◌then◌else◌, length, Bytes,
}
use sqlite_wasm.JsMap.{JsMap}
use sqlite_wasm.Sqlite.Codes.{code_ok}
use sqlite_wasm.Sqlite.Wasm.{
  Number, whole, Text, Engine, is_int32, Call, malloc, free_memory, heap_set, sqlite3_bind_text,
  sqlite3_bind_blob, sqlite3_bind_int, sqlite3_bind_double, sqlite3_bind_parameter_index,
  sqlite3_errmsg,
}
use sqlite_wasm.Sqlite.Actions.{
  Action, returned, thrown, give, throw, ◌>>=◌, ◌>>◌, sqlite_error, unknown_type,
}

-- The calls so far, the newest first, the database's pointer, and its `statements`: the number of
-- the object by its pointer.
pub record World : Type 0 where
  pub calls : List Call
  pub db_ptr : ℕ
  pub statements : JsMap ℕ ℕ

-- A pointer of 0 is closed. `allocatedmem` has its last element first.
pub record Statement : Type 0 where
  pub stmt : ℕ
  pub pos : ℕ
  pub allocatedmem : List ℕ
  pub column_names : Option (List String)

-- One statement, and the world around it
pub record Scope : Type 0 where
  pub self : Statement
  pub world : World

unfoldable pub new_statement : ℕ → Statement
new_statement ptr = record { stmt = ptr; pos = 1; allocatedmem = []; column_names = none }

-- A value to bind, by its `typeof`: `js_object` has no `length`, `js_other` is any other type.
pub data Value : Type 0 where
  js_null js_object js_other : Value
  js_number : Number → Value
  js_boolean : Bool → Value
  js_string : Text → Value
  js_bytes : Bytes → Value

pub data BindParams : Type 0 where
  undefined_params null_params : BindParams
  array_params : List Value → BindParams
  object_params : List (String × Value) → BindParams

unfoldable pub is_undefined : BindParams → Bool
is_undefined undefined_params = true
is_undefined params = false

-- What a column holds
pub data Cell : Type 0 where
  null_cell : Cell
  number_cell : Number → Cell
  text_cell : Text → Cell
  blob_cell : Bytes → Cell

-- `this.pos`, `this.allocatedmem` and `this.columnNames`
unfoldable pub set_pos : ℕ → Scope → Scope
set_pos n s = record s { self = record s.self { pos = n } }

unfoldable pub push_memory : ℕ → Scope → Scope
push_memory p s = record s { self = record s.self { allocatedmem = p ∷ s.self.allocatedmem } }

unfoldable pub set_names : Option (List String) → Scope → Scope
set_names names s = record s { self = record s.self { column_names = names } }

unfoldable pub log : Call → Scope → Scope
log c s = record s { world = record s.world { calls = c ∷ s.world.calls } }

-- The loop of `freemem`, which stops at a pointer of 0
unfoldable pub free_all : List ℕ → List Call → List ℕ × List Call
free_all [] calls = ([], calls)
free_all (p ∷ mem) calls =
    let rest = free_all mem (free_memory p ∷ calls) in if eqb p 0 then (mem, calls) else rest

unfoldable pub freemem : Scope → Scope
unfolding free_all
freemem s =
    let (mem, calls) = free_all s.self.allocatedmem s.world.calls in
    record { self = record s.self { allocatedmem = mem }; world = record s.world { calls = calls } }

module _ (E : Engine) where
  -- What the module answers to the newest call
  unfoldable pub answered : Scope → ℕ
  answered s = E.answer s.world.calls

  unfoldable pub ask : Call → Action Scope ℕ
  unfolding log answered
  ask c s = let t = log c s in returned (answered t) t

  -- `Database.handleError`
  unfoldable pub handle_error : ℕ → Action Scope Unit
  unfolding log
  handle_error code s =
      let t = log (sqlite3_errmsg s.world.db_ptr) s in
      if eqb code code_ok
      then returned tt s
      else thrown (sqlite_error (E.text t.world.calls) code) t

  unfoldable pub checked : Call → Action Scope Unit
  unfolding ask handle_error
  checked c = ask c >>= handle_error

  -- `bindString` and `bindBlob` up to the bind: the bytes and `extra` more in memory of their own
  unfoldable pub allocate : ℕ → Bytes → Bytes → Action Scope ℕ
  unfolding ask log push_memory
  allocate size bytes terminator s = elim (ask (malloc size) s) [
    | returned p t ↦
        let written = log (heap_set bytes p) t in
        let ended =
          if eqb (length terminator) 0
          then written
          else log (heap_set terminator (p + length bytes)) written in
        returned p (push_memory p ended)
    | thrown e t ↦ thrown e t
  ]

  unfoldable pub bind_string : Text → ℕ → Action Scope Unit
  unfolding allocate checked
  bind_string str pos s =
      let bytes = E.encode str in
      (do
        ptr ← allocate (length bytes + 1) bytes (0 ∷ [])
        checked (sqlite3_bind_text s.self.stmt pos ptr (length bytes)))
        s

  unfoldable pub bind_blob : Bytes → ℕ → Action Scope Unit
  unfolding allocate checked
  bind_blob bytes pos s =
      (do
        ptr ← allocate (length bytes) bytes []
        checked (sqlite3_bind_blob s.self.stmt pos ptr (length bytes)))
        s

  unfoldable pub bind_number : Number → ℕ → Action Scope Unit
  unfolding checked is_int32
  bind_number num pos s =
      if is_int32 num
      then checked (sqlite3_bind_int s.self.stmt pos num) s
      else checked (sqlite3_bind_double s.self.stmt pos num) s

  unfoldable pub bind_null : ℕ → Action Scope Unit
  unfolding checked
  bind_null pos s = checked (sqlite3_bind_blob s.self.stmt pos 0 0) s

  -- `bindValue`; a boolean is bound as 1 or 0.
  unfoldable pub bind_value : Value → ℕ → Action Scope Unit
  unfolding bind_string bind_blob bind_number bind_null
  bind_value (js_string str) pos = bind_string str pos
  bind_value (js_number num) pos = bind_number num pos
  bind_value (js_boolean b) pos = bind_number (whole false (if b then 1 else 0)) pos
  bind_value js_null pos = bind_null pos
  bind_value (js_bytes bytes) pos = bind_blob bytes pos
  bind_value js_object pos = throw unknown_type
  bind_value js_other pos = throw unknown_type

  unfoldable pub bind_from_array : List Value → ℕ → Action Scope Unit
  unfolding bind_value
  bind_from_array [] i = give tt
  bind_from_array (value ∷ values) i = bind_value value (i + 1) >> bind_from_array values (i + 1)

  unfoldable pub bind_named : Value → ℕ → Action Scope Unit
  unfolding bind_value
  bind_named value num s = if eqb num 0 then returned tt s else bind_value value num s

  unfoldable pub parameter_index : String → Action Scope ℕ
  unfolding ask
  parameter_index name s = ask (sqlite3_bind_parameter_index s.self.stmt name) s

  unfoldable pub bind_from_object : List (String × Value) → Action Scope Unit
  unfolding bind_named parameter_index
  bind_from_object [] = give tt
  bind_from_object ((name, value) ∷ values) = do
    num ← parameter_index name
    bind_named value num
    bind_from_object values
