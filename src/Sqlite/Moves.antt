-- ===== src/Sqlite/Moves.antt =====
-- A statement's state machine: the moves that the methods of Statement.ts are made of.
use sqlite_wasm.Prelude.{
  ℕ, String, ◌≡◌, refl, ◌≢◌, false, Option, List, [], ◌∷◌, eqb, eqb_iff, if_elim, length,
  if◌then◌else◌, ◌+◌, Bytes,
}
use sqlite_wasm.Sqlite.Wasm.{
  Engine, Call, Number, whole, is_int32, malloc, free_memory, add_function, remove_function,
  heap_set, Text, sqlite3_bind_text, sqlite3_bind_blob, sqlite3_bind_int, sqlite3_bind_double,
  sqlite3_bind_parameter_index, sqlite3_errmsg,
}
use sqlite_wasm.Sqlite.Actions.{Action, Outcome, returned, thrown, after, moves-chain, ◌>>◌}
use sqlite_wasm.Sqlite.Statement.{forget}
use sqlite_wasm.Sqlite.Binding.{
  Scope, set_pos, set_names, push_memory, log, free_all, freemem, answered, ask, handle_error,
  checked, allocate, Value, js_string, js_number, js_boolean, js_null, js_bytes, js_object,
  js_other, bind_string, bind_blob, bind_number, bind_null, bind_value, bind_from_array, bind_named,
  parameter_index, bind_from_object,
}

-- What a call does to the memory of malloc, or to the table of functions
pub data MemoryUse : Type 0 where
  no_use takes adds_function : MemoryUse
  gives removes_function : ℕ → MemoryUse

unfoldable pub memory_use : Call → MemoryUse
memory_use (malloc n) = takes
memory_use (free_memory p) = gives p
memory_use add_function = adds_function
memory_use (remove_function p) = removes_function p
memory_use c = no_use

abbrev pub with_memory : Scope → List ℕ → List Call → Scope
with_memory s mem calls = record {
  self = record s.self { allocatedmem = mem };
  world = record s.world { calls = calls };
}

module _ (E : Engine) where
  pub data Move : Scope → Scope → Type 0 where
    called : (s : Scope) (c : Call) → memory_use c ≡ no_use → Move s (log c s)
    placed : (s : Scope) (pos : ℕ) → Move s (set_pos pos s)
    named : (s : Scope) (names : Option (List String)) → Move s (set_names names s)
    taken :
        (s : Scope) (n : ℕ)
        → Move s (push_memory (answered E (log (malloc n) s)) (log (malloc n) s))
    freed :
        (s : Scope) (p : ℕ) (mem : List ℕ) (calls : List Call)
        → p ≢ 0
        → Move (with_memory s (p ∷ mem) calls) (with_memory s mem (free_memory p ∷ calls))
    dropped :
        (s : Scope) (mem : List ℕ) (calls : List Call)
        → Move (with_memory s (0 ∷ mem) calls) (with_memory s mem calls)
    forgot : (s : Scope) → Move s (forget s)

  pub data Moves : Scope → Scope → Type 0 where
    start : {s : Scope} → Moves s s
    more : {s t u : Scope} → Move s t → Moves t u → Moves s u

  pub Moves-trans : (s t u : Scope) → Moves s t → Moves t u → Moves s u
  Moves-trans s t u start k = k
  Moves-trans s t u (more m ms) k = more m (Moves-trans _ t u ms k)

  -- An action that goes by moves from any state
  abbrev pub Goes : {A : Type 0} → Action Scope A → Type 0
  Goes m = (s : Scope) → Moves s (after (m s))

  pub chain :
      {A B : Type 0} (m : Action Scope A) (f : A → Action Scope B)
      → Goes m
      → ((a : A) → Goes (f a))
      → Goes (λ s. elim (m s) [ returned a t ↦ f a t | thrown e t ↦ thrown e t ])
  chain m f = moves-chain Moves Moves-trans m f

  pub free_all-Moves :
      (s : Scope) (mem : List ℕ) (calls : List Call)
      → Moves
          (with_memory s mem calls)
          (with_memory s (free_all mem calls).0 (free_all mem calls).1)
  unfolding free_all
  free_all-Moves s [] calls = start
  free_all-Moves s (p ∷ mem) calls =
      if_elim
        (λ (r : List ℕ × List Call). Moves (with_memory s (p ∷ mem) calls) (with_memory s r.0 r.1))
        (eqb p 0) (λ h. rw ((eqb_iff p 0).0 h) (more (dropped s mem calls) start))
        (λ h.
          more (freed s p mem calls (λ e. cc (h, (eqb_iff p 0).1 e)))
            (free_all-Moves s mem (free_memory p ∷ calls)))

  pub freemem-Moves : (s : Scope) → Moves s (freemem s)
  unfolding freemem
  freemem-Moves s = free_all-Moves s s.self.allocatedmem s.world.calls

  pub ask-Goes : (c : Call) → memory_use c ≡ no_use → Goes (ask E c)
  unfolding ask
  ask-Goes c h s = more (called s c h) start

  pub handle_error-Goes : (code : ℕ) → Goes (handle_error E code)
  unfolding handle_error memory_use
  handle_error-Goes code s =
      if_elim (λ (r : Outcome Scope Unit). Moves s (after r)) (eqb code 0) (λ h. start)
        (λ h. more (called s (sqlite3_errmsg s.world.db_ptr) refl) start)

  pub checked-Goes : (c : Call) → memory_use c ≡ no_use → Goes (checked E c)
  unfolding checked
  checked-Goes c h = chain (ask E c) (handle_error E) (ask-Goes c h) handle_error-Goes

  pub allocate-Goes :
      (size : ℕ) (bytes terminator : Bytes) → Goes (allocate E size bytes terminator)
  unfolding allocate ask memory_use push_memory log answered
  allocate-Goes size bytes terminator s =
      let p = answered E (log (malloc size) s) in
      let written = log (heap_set bytes p) (log (malloc size) s) in
      more (taken s size) (
        more (called _ (heap_set bytes p) refl) (
          if_elim (λ (r : Scope). Moves (push_memory p written) (push_memory p r))
            (eqb (length terminator) 0) (λ h. start)
            (λ h. more (called _ (heap_set terminator (p + length bytes)) refl) start)))

  pub bind_string-Goes : (str : Text) (pos : ℕ) → Goes (bind_string E str pos)
  unfolding bind_string memory_use
  bind_string-Goes str pos s =
      let n = length (E.encode str) in
      chain (allocate E (n + 1) (E.encode str) (0 ∷ []))
        (λ ptr. checked E (sqlite3_bind_text s.self.stmt pos ptr n))
        (allocate-Goes (n + 1) (E.encode str) (0 ∷ []))
        (λ ptr. checked-Goes (sqlite3_bind_text s.self.stmt pos ptr n) refl) s

  pub bind_blob-Goes : (bytes : Bytes) (pos : ℕ) → Goes (bind_blob E bytes pos)
  unfolding bind_blob memory_use
  bind_blob-Goes bytes pos s =
      let n = length bytes in
      chain (allocate E n bytes []) (λ ptr. checked E (sqlite3_bind_blob s.self.stmt pos ptr n))
        (allocate-Goes n bytes [])
        (λ ptr. checked-Goes (sqlite3_bind_blob s.self.stmt pos ptr n) refl) s

  pub bind_number-Goes : (num : Number) (pos : ℕ) → Goes (bind_number E num pos)
  unfolding bind_number memory_use
  bind_number-Goes num pos s =
      if_elim (λ (r : Outcome Scope Unit). Moves s (after r)) (is_int32 num)
        (λ h. checked-Goes (sqlite3_bind_int s.self.stmt pos num) refl s)
        (λ h. checked-Goes (sqlite3_bind_double s.self.stmt pos num) refl s)

  pub bind_value-Goes : (value : Value) (pos : ℕ) → Goes (bind_value E value pos)
  unfolding bind_value bind_null memory_use
  bind_value-Goes (js_string str) pos = bind_string-Goes str pos
  bind_value-Goes (js_number num) pos = bind_number-Goes num pos
  bind_value-Goes (js_boolean b) pos = bind_number-Goes (whole false (if b then 1 else 0)) pos
  bind_value-Goes js_null pos = λ s. checked-Goes (sqlite3_bind_blob s.self.stmt pos 0 0) refl s
  bind_value-Goes (js_bytes bytes) pos = bind_blob-Goes bytes pos
  bind_value-Goes js_object pos = λ s. start
  bind_value-Goes js_other pos = λ s. start

  pub bind_from_array-Goes : (values : List Value) (i : ℕ) → Goes (bind_from_array E values i)
  unfolding bind_from_array
  bind_from_array-Goes [] i = λ s. start
  bind_from_array-Goes (value ∷ values) i =
      chain (bind_value E value (i + 1)) (λ u. bind_from_array E values (i + 1))
        (bind_value-Goes value (i + 1)) (λ u. bind_from_array-Goes values (i + 1))

  pub bind_named-Goes : (value : Value) (num : ℕ) → Goes (bind_named E value num)
  unfolding bind_named
  bind_named-Goes value num s =
      if_elim (λ (r : Outcome Scope Unit). Moves s (after r)) (eqb num 0) (λ h. start)
        (λ h. bind_value-Goes value num s)

  pub bind_from_object-Goes : (values : List (String × Value)) → Goes (bind_from_object E values)
  unfolding bind_from_object parameter_index memory_use
  bind_from_object-Goes [] = λ s. start
  bind_from_object-Goes ((name, value) ∷ values) =
      chain (parameter_index E name) (λ num. bind_named E value num >> bind_from_object E values)
        (λ s. ask-Goes (sqlite3_bind_parameter_index s.self.stmt name) refl s)
        (λ num.
          chain (bind_named E value num) (λ u. bind_from_object E values)
            (bind_named-Goes value num) (λ u. bind_from_object-Goes values))
