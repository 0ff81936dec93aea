-- ===== src/Sqlite/Tests.antt =====
-- The theorems on statements and databases at concrete inputs, and tests.
use sqlite_wasm.Prelude.{ℕ, ◌+◌, ◌≡◌, refl, false, none, List, [], ◌∷◌, arith, length, slice}
use sqlite_wasm.Sqlite.Callback.{Called, gave, arguments, wrapped_func}
use sqlite_wasm.Sqlite.Results.{left_by, wrapped_func-frees}
use sqlite_wasm.Sqlite.Codes.{code_name}
use sqlite_wasm.Sqlite.Wasm.{Engine, Call, whole, malloc, sqlite3_step, add_function}
use sqlite_wasm.Sqlite.Actions.{thrown, after, statement_closed}
use sqlite_wasm.Sqlite.Text.{decode_text}
use sqlite_wasm.Sqlite.Binding.{Cell, js_bytes, World, array_params, is_undefined, js_string}
use sqlite_wasm.Sqlite.Statement.{
  bind, step, run, get, get_as_object, call_bind, call_step, call_free, call_reset, perform,
  perform_all,
}
use sqlite_wasm.Sqlite.Memory.{
  times_taken, times_freed, held, prepared, NeverNull, perform_all-Balanced, freed_at_free,
}
use sqlite_wasm.Sqlite.Errors.{closed_for_good}
use sqlite_wasm.Sqlite.Decoding.{decode_text-decode}
use sqlite_wasm.Sqlite.Machine.{Machine}
use sqlite_wasm.Sqlite.Database.{close, op_create, op_watch, op_close, operate, operate_all}
use sqlite_wasm.Sqlite.Table.{times_added, times_removed}
use sqlite_wasm.Sqlite.Opening.{opens_file, opened}
use sqlite_wasm.Sqlite.Closing.{IsReleased, close-IsReleased, functions_removed}

-- A module that answers a new pointer to each allocation, and that its statements are done
abbrev answer_of : List Call → ℕ
answer_of [] = 0
answer_of (malloc n ∷ calls) = 1000 + length calls
answer_of (add_function ∷ calls) = 7
answer_of (sqlite3_step p ∷ calls) = 101
answer_of (c ∷ calls) = 0

abbrev engine : Engine
engine = record {
  answer = answer_of;
  text = λ calls. "error";
  number = λ calls. whole false 0;
  heap = λ calls. 65 ∷ 66 ∷ 67 ∷ [];
  encode = λ text. text;
  decode = λ bytes. bytes;
  temp_int32 = 0;
  double_at = λ heap ptr. 0;
}

engine-NeverNull : NeverNull engine
engine-NeverNull n calls e = absurd (omega arith)

abbrev empty : World
empty = record { calls = []; db_ptr = 5; statements = [] }

perform_all-Balanced_example :
    let t =
      perform_all engine
        (call_bind (array_params (js_string (65 ∷ []) ∷ [])) ∷ call_step ∷ [])
        (prepared 3 empty) in
    times_taken engine 1002 t.world.calls + times_freed 1002 []
    ≡ times_taken engine 1002 [] + (times_freed 1002 t.world.calls + held 1002 t.self.allocatedmem)
perform_all-Balanced_example =
    perform_all-Balanced engine 3 empty
      (call_bind (array_params (js_string (65 ∷ []) ∷ [])) ∷ call_step ∷ []) 1002
      (λ e. absurd (omega (arith, e)))

freed_at_free_example :
    let t = perform engine call_free (
      perform_all engine
        (call_bind (array_params (js_string (65 ∷ []) ∷ [])) ∷ [])
        (prepared 3 empty)) in
    (t.self.allocatedmem ≡ [])
    × (times_taken engine 1002 t.world.calls + times_freed 1002 []
        ≡ times_taken engine 1002 [] + times_freed 1002 t.world.calls)
freed_at_free_example =
    freed_at_free engine engine-NeverNull 3 empty
      (call_bind (array_params (js_string (65 ∷ []) ∷ [])) ∷ []) 1002
      (λ e. absurd (omega (arith, e)))

closed_for_good_example :
    let t = perform_all engine (call_reset ∷ []) (perform engine call_free (prepared 3 empty)) in
    (bind engine (array_params []) t ≡ thrown statement_closed t)
    × ((step engine t ≡ thrown statement_closed t)
        × ((run engine (array_params []) t ≡ thrown statement_closed t)
            × ((get engine (array_params []) t ≡ thrown statement_closed t)
                × (get_as_object engine (array_params []) t ≡ thrown statement_closed t))))
closed_for_good_example =
    closed_for_good engine (prepared 3 empty) (call_reset ∷ []) (array_params [])
      (unfold is_undefined in refl)

decode_text-decode_example :
    decode_text (λ bytes. bytes) (65 ∷ 66 ∷ 67 ∷ []) 1 2 ≡ slice (65 ∷ 66 ∷ 67 ∷ []) 1 (1 + 2)
decode_text-decode_example =
    decode_text-decode (λ bytes. bytes) (λ bytes h. refl) (65 ∷ 66 ∷ 67 ∷ []) 1 2 (omega arith)

corrupt_name : code_name 267 ≡ "CORRUPT"
unfolding code_name
corrupt_name = refl

abbrev machine : Machine
machine = record {
  world = empty;
  objects = [];
  functions = [];
  commit_listener = none;
  commit_watch = none;
  stored = false;
  notices = [];
  file = none;
  attaching = false;
}

functions_removed_example :
    let t = operate engine op_close (
      operate_all engine
        (op_create "f" 1 ∷ op_create "f" 2 ∷ op_watch 0 ∷ [])
        (opened engine (opens_file "a") machine)) in
    times_added engine 7 t.world.calls + times_removed 7 []
    ≡ times_added engine 7 [] + times_removed 7 t.world.calls
functions_removed_example =
    functions_removed engine machine (opens_file "a")
      (op_create "f" 1 ∷ op_create "f" 2 ∷ op_watch 0 ∷ []) 7 refl refl refl

close-IsReleased_example :
    IsReleased
      (operate engine (op_create "f" 1) machine)
      (after (close engine (operate engine (op_create "f" 1) machine)))
close-IsReleased_example = close-IsReleased engine (operate engine (op_create "f" 1) machine)

-- A user's function that gives three bytes
abbrev gives_bytes : List Cell → Called
gives_bytes cells = gave (js_bytes (1 ∷ 2 ∷ 3 ∷ []))

wrapped_func-frees_example :
    let now = wrapped_func engine (λ calls. []) gives_bytes 9 1 0 [] in
    let read = arguments engine (λ calls. []) 0 0 1 [] in
    times_taken engine 1001 now + times_freed 1001 []
    ≡ left_by engine 1001 (gives_bytes read.0) read.1
      + (times_taken engine 1001 [] + times_freed 1001 now)
wrapped_func-frees_example = wrapped_func-frees engine 1001 (λ calls. []) gives_bytes 9 1 0 []
