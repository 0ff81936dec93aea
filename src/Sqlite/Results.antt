-- ===== src/Sqlite/Results.antt =====
-- The memory of the callback of `create_function` of Database.ts.
use sqlite_wasm.Prelude.{
  ℕ, zero, suc, ◌+◌, ◌*◌, ◌≡◌, refl, List, ◌∷◌, eqb, if_elim, if◌then◌else◌, arith,
}
use sqlite_wasm.Sqlite.Wasm.{Engine, Call, sqlite3_value_type, malloc}
use sqlite_wasm.Sqlite.Binding.{
  Cell, js_null, js_object, js_other, js_number, js_boolean, js_string, js_bytes,
}
use sqlite_wasm.Sqlite.Moves.{memory_use}
use sqlite_wasm.Sqlite.Memory.{times_taken, times_freed, taken_by, freed_by}
use sqlite_wasm.Sqlite.Machine.{value_at}
use sqlite_wasm.Sqlite.Callback.{
  Called, gave, gave_unset, failed, value_of, arguments, set_result, finish_call, wrapped_func,
}

module _ (E : Engine) (p : ℕ) where
  -- As much was taken as was given back.
  Even : List Call → List Call → Type 0
  Even before now =
      times_taken E p now + times_freed p before ≡ times_taken E p before + times_freed p now

  value_of-Even :
      (text_of : List Call → List ℕ) (kind ptr : ℕ) (calls : List Call)
      → Even calls (value_of E text_of kind ptr calls).1
  unfolding value_of Even times_taken times_freed memory_use taken_by freed_by
  value_of-Even text_of kind ptr calls =
      if_elim (λ (r : Cell × List Call). Even calls r.1) (eqb kind 1) (λ h. omega arith)
        (λ h.
          if_elim (λ (r : Cell × List Call). Even calls r.1) (eqb kind 2) (λ h. omega arith)
            (λ h.
              if_elim (λ (r : Cell × List Call). Even calls r.1) (eqb kind 3) (λ h. omega arith)
                (λ h.
                  if_elim (λ (r : Cell × List Call). Even calls r.1) (eqb kind 4) (λ h. omega arith)
                    (λ h. refl))))

  arguments-Even :
      (text_of : List Call → List ℕ) (argv i argc : ℕ) (calls : List Call)
      → Even calls (arguments E text_of argv i argc calls).1
  unfolding arguments Even times_taken times_freed memory_use taken_by freed_by
  arguments-Even text_of argv i zero calls = refl
  arguments-Even text_of argv i (suc argc) calls =
      let ptr = value_at (E.heap calls) (argv + 4 * i) in
      let typed = sqlite3_value_type ptr ∷ calls in
      let read = value_of E text_of (E.answer typed) ptr typed in
      omega (
        arith,
        value_of-Even text_of (E.answer typed) ptr typed,
        arguments-Even text_of argv (i + 1) argc read.1,
      )

  -- How often the callback leaves the pointer taken
  abbrev pub left_by : Called → List Call → ℕ
  left_by (gave value) calls = 0
  left_by (gave_unset bytes count) calls = if eqb (E.answer (malloc count ∷ calls)) p then 1 else 0
  left_by (failed error) calls = 0

  finish_call-Even :
      (context : ℕ) (c : Called) (calls : List Call)
      → times_taken E p (finish_call E context c calls) + times_freed p calls
        ≡ left_by c calls + (times_taken E p calls + times_freed p (finish_call E context c calls))
  unfolding finish_call set_result times_taken times_freed memory_use taken_by freed_by
  finish_call-Even context (gave (js_boolean b)) calls = omega arith
  finish_call-Even context (gave (js_number n)) calls = omega arith
  finish_call-Even context (gave (js_string text)) calls = omega arith
  finish_call-Even context (gave js_null) calls = omega arith
  finish_call-Even context (gave (js_bytes bytes)) calls = ground arith
  finish_call-Even context (gave js_object) calls = omega arith
  finish_call-Even context (gave js_other) calls = omega arith
  finish_call-Even context (gave_unset bytes count) calls = omega arith
  finish_call-Even context (failed error) calls = omega arith

-- Whatever a user's function returns or throws, its callback frees the memory that it takes, unless
-- `HEAPU8.set` throws at what the function returned: then exactly the memory for that is left.
pub wrapped_func-frees :
    (E : Engine) (p : ℕ) (text_of : List Call → List ℕ) (func : List Cell → Called)
    (context argc argv : ℕ) (calls : List Call)
    → let now = wrapped_func E text_of func context argc argv calls in
      let read = arguments E text_of argv 0 argc calls in
      times_taken E p now + times_freed p calls
      ≡ left_by E p (func read.0) read.1 + (times_taken E p calls + times_freed p now)
unfolding wrapped_func Even
wrapped_func-frees E p text_of func context argc argv calls =
    let read = arguments E text_of argv 0 argc calls in
    omega (
      arith,
      arguments-Even E p text_of argv 0 argc calls,
      finish_call-Even E p context (func read.0) read.1,
    )
