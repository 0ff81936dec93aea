-- ===== src/Sqlite/Callback.antt =====
-- The function that `create_function` of Database.ts puts into the table of the Wasm module: it reads its
-- arguments, calls the user's function, and sets the result.
use sqlite_wasm.Prelude.{
  ℕ, zero, suc, ◌+◌, ◌*◌, String, List, [], ◌∷◌, eqb, if◌then◌else◌, length, slice, Bytes,
}
use sqlite_wasm.Sqlite.Codes.{type_integer, type_float, type_text, type_blob}
use sqlite_wasm.Sqlite.Wasm.{
  Engine, Call, malloc, free_memory, heap_set, sqlite3_value_type, sqlite3_value_double,
  sqlite3_value_text, sqlite3_value_bytes, sqlite3_value_blob, sqlite3_result_error,
  sqlite3_result_int, sqlite3_result_double, sqlite3_result_text, sqlite3_result_blob,
  sqlite3_result_null,
}
use sqlite_wasm.Sqlite.Binding.{
  Cell, null_cell, number_cell, text_cell, blob_cell, Value, js_null, js_object, js_other,
  js_number, js_boolean, js_string, js_bytes,
}
use sqlite_wasm.Sqlite.Machine.{value_at}

-- What the user's function does with its arguments: it gives a value, where `js_bytes` is what
-- `HEAPU8.set` takes; or an object with a `length` at which `HEAPU8.set` throws, after it has set some
-- bytes, such as an array with a bigint; or it throws an error, by its text.
pub data Called : Type 0 where
  gave : Value → Called
  gave_unset : Bytes → ℕ → Called
  failed : String → Called

module _ (E : Engine) where
  -- `dataFunc(valuePtr)`, with the calls so far. A text is what its wrapper decodes of the answer.
  unfoldable pub value_of : (List Call → List ℕ) → ℕ → ℕ → List Call → Cell × List Call
  value_of text_of kind ptr calls =
      let number = sqlite3_value_double ptr ∷ calls in
      let text = sqlite3_value_text ptr ∷ calls in
      let sized = sqlite3_value_bytes ptr ∷ calls in
      let blob = sqlite3_value_blob ptr ∷ sized in
      if eqb kind type_integer
      then (number_cell (E.number number), number)
      else if eqb kind type_float
      then (number_cell (E.number number), number)
      else if eqb kind type_text
      then (text_cell (text_of text), text)
      else if eqb kind type_blob
      then (blob_cell (slice (E.heap blob) (E.answer blob) (E.answer blob + E.answer sized)), blob)
      else (null_cell, calls)

  -- The loop over `argc` arguments from the `i`th
  unfoldable pub arguments : (List Call → List ℕ) → ℕ → ℕ → ℕ → List Call → List Cell × List Call
  unfolding value_at value_of
  arguments text_of argv i zero calls = ([], calls)
  arguments text_of argv i (suc argc) calls =
      let ptr = value_at (E.heap calls) (argv + 4 * i) in
      let typed = sqlite3_value_type ptr ∷ calls in
      let read = value_of text_of (E.answer typed) ptr typed in
      let rest = arguments text_of argv (i + 1) argc read.1 in (read.0 ∷ rest.0, rest.1)

  -- The `switch` on the type of the result, in the context `context`
  unfoldable pub set_result : ℕ → Value → List Call → List Call
  set_result context (js_boolean b) calls = sqlite3_result_int context (if b then 1 else 0) ∷ calls
  set_result context (js_number n) calls = sqlite3_result_double context n ∷ calls
  set_result context (js_string text) calls = sqlite3_result_text context text ∷ calls
  set_result context js_null calls = sqlite3_result_null context ∷ calls
  set_result context (js_bytes bytes) calls =
      let taken = malloc (length bytes) ∷ calls in
      let ptr = E.answer taken in
      free_memory ptr ∷ sqlite3_result_blob context ptr (length bytes) ∷ heap_set bytes ptr ∷ taken
  set_result context js_object calls =
      sqlite3_result_error context "Wrong API use : tried to return a value of an unknown type"
      ∷ calls
  set_result context js_other calls = sqlite3_result_null context ∷ calls

  unfoldable pub finish_call : ℕ → Called → List Call → List Call
  unfolding set_result
  finish_call context (gave value) calls = set_result context value calls
  finish_call context (gave_unset bytes count) calls =
      let taken = malloc count ∷ calls in heap_set bytes (E.answer taken) ∷ taken
  finish_call context (failed error) calls = sqlite3_result_error context error ∷ calls

  -- `wrappedFunc` until it returns or throws, for a function of the user that makes no calls of the module itself
  unfoldable pub wrapped_func :
      (List Call → List ℕ) → (List Cell → Called) → ℕ → ℕ → ℕ → List Call → List Call
  unfolding arguments finish_call
  wrapped_func text_of func context argc argv calls =
      let read = arguments text_of argv 0 argc calls in finish_call context (func read.0) read.1
