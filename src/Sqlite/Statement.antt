-- ===== src/Sqlite/Statement.antt =====
-- The methods of the class `Statement` of Statement.ts.
use sqlite_wasm.Prelude.{
  ℕ, zero, suc, ◌+◌, String, Bool, true, false, Option, none, some, List, [], ◌∷◌, eqb,
  if◌then◌else◌, length, slice, ◌||◌, string_eq, nat_eq,
}
use sqlite_wasm.JsMap
use sqlite_wasm.JsMap.{JsMap}
use sqlite_wasm.Sqlite.Codes.{
  code_ok, code_row, code_done, type_integer, type_float, type_text, type_blob,
}
use sqlite_wasm.Sqlite.Wasm.{
  Engine, Call, sqlite3_clear_bindings, sqlite3_reset, sqlite3_step, sqlite3_finalize,
  sqlite3_data_count, sqlite3_column_name, sqlite3_column_type, sqlite3_column_double,
  sqlite3_column_text, sqlite3_column_blob, sqlite3_column_bytes,
}
use sqlite_wasm.Sqlite.Actions.{
  Action, returned, thrown, give, attempt, modify, ◌>>=◌, ◌>>◌, statement_closed,
}
use sqlite_wasm.Sqlite.Text.{decode_text}
use sqlite_wasm.Sqlite.Binding.{
  Scope, BindParams, undefined_params, null_params, array_params, object_params, is_undefined, Cell,
  null_cell, number_cell, text_cell, blob_cell, set_pos, set_names, log, freemem, ask, handle_error,
  bind_from_array, bind_from_object,
}

-- `delete this.db.statements[this.stmt]` and `this.stmt = NULL`
unfoldable pub forget : Scope → Scope
forget s = record {
  self = record s.self { stmt = 0 };
  world = record s.world { statements = JsMap.delete s.world.statements s.self.stmt };
}

module _ (E : Engine) where
  -- A call on the statement
  unfoldable pub on_stmt : (ℕ → Call) → Action Scope ℕ
  unfolding ask
  on_stmt c s = ask E (c s.self.stmt) s

  unfoldable pub reset_if_ok : ℕ → Action Scope Bool
  unfolding on_stmt
  reset_if_ok cleared s =
      if eqb cleared code_ok
      then (on_stmt sqlite3_reset >>= λ code. give (eqb code code_ok)) s
      else returned false s

  unfoldable pub reset : Action Scope Bool
  unfolding set_names freemem on_stmt reset_if_ok
  reset = do
    modify (set_names none)
    modify freemem
    cleared ← on_stmt sqlite3_clear_bindings
    reset_if_ok cleared

  unfoldable pub bind_params : BindParams → Action Scope Unit
  unfolding bind_from_array bind_from_object
  bind_params (array_params values) = bind_from_array E values 0
  bind_params (object_params values) = bind_from_object E values
  bind_params undefined_params = give tt
  bind_params null_params = give tt

  -- `if (!this.stmt) throw new Error('Statement closed')`
  unfoldable pub if_open : {A : Type 0} → Action Scope A → Action Scope A
  if_open m s = if eqb s.self.stmt 0 then thrown statement_closed s else m s

  unfoldable pub bind : BindParams → Action Scope Bool
  unfolding if_open reset bind_params
  bind params = if_open (do done ← reset; bind_params params; give true)

  -- The `switch` of `step`
  unfoldable pub step_result : ℕ → Action Scope Bool
  unfolding set_names handle_error
  step_result code s =
      if eqb code code_row
      then returned true s
      else if eqb code code_done
      then returned false (set_names none s)
      else (handle_error E code >> give false) s

  unfoldable pub step : Action Scope Bool
  unfolding if_open set_pos on_stmt step_result
  step = if_open (do modify (set_pos 1); code ← on_stmt sqlite3_step; step_result code)

  unfoldable pub step_with : BindParams → Action Scope Unit
  unfolding is_undefined bind step
  step_with params s =
      if is_undefined params
      then returned tt s
      else (do bound ← bind params; stepped ← step; give tt) s

  -- A call on the statement and a column
  unfoldable pub on_column : (ℕ → ℕ → Call) → ℕ → Action Scope ℕ
  unfolding ask
  on_column c col s = ask E (c s.self.stmt col) s

  unfoldable pub column_number : ℕ → Action Scope Cell
  unfolding log
  column_number col s =
      let t = log (sqlite3_column_double s.self.stmt col) s in
      returned (number_cell (E.number t.world.calls)) t

  unfoldable pub column_text : ℕ → Action Scope Cell
  unfolding on_column decode_text
  column_text col = do
    ptr ← on_column sqlite3_column_text col
    size ← on_column sqlite3_column_bytes col
    λ s. returned (text_cell (decode_text E.decode (E.heap s.world.calls) ptr size)) s

  unfoldable pub column_blob : ℕ → Action Scope Cell
  unfolding on_column
  column_blob col = do
    ptr ← on_column sqlite3_column_blob col
    size ← on_column sqlite3_column_bytes col
    λ s. returned (blob_cell (slice (E.heap s.world.calls) ptr (ptr + size))) s

  unfoldable pub column_of : ℕ → ℕ → Action Scope Cell
  unfolding column_number column_text column_blob
  column_of kind col s =
      if eqb kind type_integer || eqb kind type_float
      then column_number col s
      else if eqb kind type_text
      then column_text col s
      else if eqb kind type_blob
      then column_blob col s
      else returned null_cell s

  unfoldable pub column : ℕ → Action Scope Cell
  unfolding on_column column_of
  column col = do kind ← on_column sqlite3_column_type col; column_of kind col

  -- The loop of `get` over `count` columns from `col`
  unfoldable pub columns_from : ℕ → ℕ → Action Scope (List Cell)
  unfolding column
  columns_from zero col = give []
  columns_from (suc count) col = do
    cell ← column col
    cells ← columns_from count (col + 1)
    give (cell ∷ cells)

  unfoldable pub get : BindParams → Action Scope (List Cell)
  unfolding step_with on_stmt columns_from
  get params = do step_with params; count ← on_stmt sqlite3_data_count; columns_from count 0

  unfoldable pub column_name : ℕ → Action Scope String
  unfolding log
  column_name col s =
      let t = log (sqlite3_column_name s.self.stmt col) s in returned (E.text t.world.calls) t

  unfoldable pub names_from : ℕ → ℕ → Action Scope (List String)
  unfolding column_name
  names_from zero col = give []
  names_from (suc count) col = do
    name ← column_name col
    names ← names_from count (col + 1)
    give (name ∷ names)

  unfoldable pub get_column_names : Action Scope (List String)
  unfolding on_stmt names_from
  get_column_names = do count ← on_stmt sqlite3_data_count; names_from count 0

  -- `if (names.length) this.columnNames = names`
  unfoldable pub keep_names : List String → Action Scope (List String)
  unfolding set_names
  keep_names names s = returned names (if eqb (length names) 0 then s else set_names (some names) s)

  unfoldable pub names_or : Option (List String) → Action Scope (List String)
  unfolding get_column_names keep_names
  names_or (some names) = give names
  names_or none = get_column_names >>= keep_names

  unfoldable pub cached_column_names : Action Scope (List String)
  unfolding names_or
  cached_column_names s = names_or s.self.column_names s

  -- The loop of `getAsObject`, with the row so far
  unfoldable pub row_from : List String → ℕ → JsMap String Cell → Action Scope (JsMap String Cell)
  unfolding column
  row_from [] col row = give row
  row_from (name ∷ names) col row = do
    cell ← column col
    row_from names (col + 1) (JsMap.set row name cell)

  unfoldable pub get_as_object : BindParams → Action Scope (JsMap String Cell)
  unfolding step_with cached_column_names row_from
  get_as_object params = do step_with params; names ← cached_column_names; row_from names 0 []

  unfoldable pub bind_if : BindParams → Action Scope Unit
  unfolding is_undefined bind
  bind_if params s = if is_undefined params then returned tt s else (bind params >> give tt) s

  unfoldable pub run : BindParams → Action Scope Unit
  unfolding bind_if step reset
  run params = do bind_if params; stepped ← step; done ← reset; give tt

  unfoldable pub free : Action Scope Bool
  unfolding freemem on_stmt forget
  free = do modify freemem; code ← on_stmt sqlite3_finalize; modify forget; give (eqb code code_ok)

-- A call of one of the methods
pub data Method : Type 0 where
  call_step call_get_column_names call_reset call_freemem call_free : Method
  call_bind call_get call_get_as_object call_run : BindParams → Method

module _ (E : Engine) where
  -- A call whose caller catches what it throws
  unfoldable pub perform : Method → Scope → Scope
  unfolding bind step get get_as_object get_column_names run reset freemem free
  perform (call_bind params) = attempt (bind E params)
  perform call_step = attempt (step E)
  perform (call_get params) = attempt (get E params)
  perform (call_get_as_object params) = attempt (get_as_object E params)
  perform call_get_column_names = attempt (get_column_names E)
  perform (call_run params) = attempt (run E params)
  perform call_reset = attempt (reset E)
  perform call_freemem = freemem
  perform call_free = attempt (free E)

  unfoldable pub perform_all : List Method → Scope → Scope
  unfolding perform
  perform_all [] s = s
  perform_all (m ∷ ms) s = perform_all ms (perform m s)
