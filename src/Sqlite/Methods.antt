-- ===== src/Sqlite/Methods.antt =====
-- The methods of Statement.ts go by the moves of the state machine.
use sqlite_wasm.Prelude.{
  string_eq, ℕ, zero, suc, String, ◌≡◌, refl, Bool, Option, none, some, List, [], ◌∷◌, eqb, slice,
  if_elim, if◌then◌else◌, ◌||◌, ◌+◌, length,
}
use sqlite_wasm.JsMap.{JsMap}
use sqlite_wasm.JsMap
use sqlite_wasm.Sqlite.Wasm.{
  Engine, Call, sqlite3_column_double, sqlite3_column_text, sqlite3_column_bytes,
  sqlite3_column_blob, sqlite3_column_name, sqlite3_step, sqlite3_reset, sqlite3_clear_bindings,
  sqlite3_data_count, sqlite3_column_type, sqlite3_finalize,
}
use sqlite_wasm.Sqlite.Actions.{Action, Outcome, returned, after, ◌>>=◌, give}
use sqlite_wasm.Sqlite.Text.{decode_text}
use sqlite_wasm.Sqlite.Binding.{
  Scope, set_names, set_pos, freemem, Cell, text_cell, blob_cell, BindParams, undefined_params,
  null_params, array_params, object_params, is_undefined, handle_error,
}
use sqlite_wasm.Sqlite.Statement.{
  on_stmt, reset_if_ok, reset, bind_params, if_open, bind, step_result, step, step_with, on_column,
  column_number, column_text, column_blob, column_of, column, columns_from, get, column_name,
  names_from, get_column_names, keep_names, names_or, cached_column_names, row_from, get_as_object,
  bind_if, run, free, forget,
}
use sqlite_wasm.Sqlite.Moves.{
  memory_use, no_use, Moves, Moves-trans, Goes, start, more, called, named, forgot, placed, chain,
  freemem-Moves, ask-Goes, handle_error-Goes, bind_from_array-Goes, bind_from_object-Goes,
}

module _ (E : Engine) where
  on_stmt-Goes : (c : ℕ → Call) → ((p : ℕ) → memory_use (c p) ≡ no_use) → Goes E (on_stmt E c)
  unfolding on_stmt
  on_stmt-Goes c h s = ask-Goes E (c s.self.stmt) (h s.self.stmt) s

  -- An action under a test
  choose :
      {A : Type 0} (b : Bool) (s : Scope) (x y : Outcome Scope A)
      → Moves E s (after x)
      → Moves E s (after y)
      → Moves E s (after (if b then x else y))
  choose {A = A} b s x y hx hy =
      if_elim (λ (r : Outcome Scope A). Moves E s (after r)) b (λ h. hx) (λ h. hy)

  -- A change of the state, and an action after it
  after-Goes :
      {A : Type 0} (g : Scope → Scope) (m : Action Scope A)
      → ((s : Scope) → Moves E s (g s))
      → Goes E m
      → Goes E (λ s. m (g s))
  after-Goes g m hg hm s = Moves-trans E s (g s) (after (m (g s))) (hg s) (hm (g s))

  reset_if_ok-Goes : (cleared : ℕ) → Goes E (reset_if_ok E cleared)
  unfolding reset_if_ok memory_use
  reset_if_ok-Goes cleared s =
      choose (eqb cleared 0) s _ _
        (chain E (on_stmt E sqlite3_reset) (λ code. give (eqb code 0))
          (on_stmt-Goes sqlite3_reset (λ p. refl)) (λ code t. start) s)
        start

  pub reset-Goes : Goes E (reset E)
  unfolding reset memory_use
  reset-Goes =
      after-Goes (set_names none)
        (λ s. (on_stmt E sqlite3_clear_bindings >>= reset_if_ok E) (freemem s))
        (λ s. more (named s none) start)
        (after-Goes freemem (on_stmt E sqlite3_clear_bindings >>= reset_if_ok E) (freemem-Moves E) (
          chain E (on_stmt E sqlite3_clear_bindings) (reset_if_ok E)
            (on_stmt-Goes sqlite3_clear_bindings (λ p. refl)) reset_if_ok-Goes))

  pub bind_params-Goes : (params : BindParams) → Goes E (bind_params E params)
  unfolding bind_params
  bind_params-Goes (array_params values) = bind_from_array-Goes E values 0
  bind_params-Goes (object_params values) = bind_from_object-Goes E values
  bind_params-Goes undefined_params = λ s. start
  bind_params-Goes null_params = λ s. start

  if_open-Goes : {A : Type 0} (m : Action Scope A) → Goes E m → Goes E (if_open E m)
  unfolding if_open
  if_open-Goes m h s = choose (eqb s.self.stmt 0) s _ _ start (h s)

  pub bind-Goes : (params : BindParams) → Goes E (bind E params)
  unfolding bind
  bind-Goes params = if_open-Goes _ (
      chain E (reset E) _ reset-Goes
        (λ u. chain E (bind_params E params) _ (bind_params-Goes params) (λ u s. start)))

  step_result-Goes : (code : ℕ) → Goes E (step_result E code)
  unfolding step_result
  step_result-Goes code s = choose (eqb code 100) s _ _ start (
      choose (eqb code 101) s _ _ (more (named s none) start)
        (chain E (handle_error E code) _ (handle_error-Goes E code) (λ u t. start) s))

  pub step-Goes : Goes E (step E)
  unfolding step memory_use
  step-Goes = if_open-Goes _ (
      after-Goes (set_pos 1) (on_stmt E sqlite3_step >>= step_result E)
        (λ s. more (placed s 1) start)
        (chain E (on_stmt E sqlite3_step) (step_result E) (on_stmt-Goes sqlite3_step (λ p. refl))
          step_result-Goes))

  step_with-Goes : (params : BindParams) → Goes E (step_with E params)
  unfolding step_with
  step_with-Goes params s = choose (is_undefined params) s _ _ start (
      chain E (bind E params) _ (bind-Goes params)
        (λ u. chain E (step E) _ step-Goes (λ v t. start)) s)

  on_column-Goes :
      (c : ℕ → ℕ → Call) (col : ℕ)
      → ((p : ℕ) → memory_use (c p col) ≡ no_use)
      → Goes E (on_column E c col)
  unfolding on_column
  on_column-Goes c col h s = ask-Goes E (c s.self.stmt col) (h s.self.stmt) s

  -- A pointer and a size, and what they point at
  pointed-Goes :
      (c d : ℕ → ℕ → Call) (col : ℕ) (f : ℕ → ℕ → Scope → Cell)
      → ((p : ℕ) → memory_use (c p col) ≡ no_use)
      → ((p : ℕ) → memory_use (d p col) ≡ no_use)
      → Goes E
          (on_column E c col >>= λ ptr. on_column E d col >>= λ size s. returned (f ptr size s) s)
  pointed-Goes c d col f hc hd =
      chain E (on_column E c col) (λ ptr. on_column E d col >>= λ size s. returned (f ptr size s) s)
        (on_column-Goes c col hc)
        (λ ptr.
          chain E (on_column E d col) (λ size s. returned (f ptr size s) s)
            (on_column-Goes d col hd) (λ size s. start))

  column_text-Goes : (col : ℕ) → Goes E (column_text E col)
  unfolding column_text memory_use
  column_text-Goes col =
      pointed-Goes sqlite3_column_text sqlite3_column_bytes col
        (λ ptr size s. text_cell (decode_text E.decode (E.heap s.world.calls) ptr size)) (λ p. refl)
        (λ p. refl)

  column_blob-Goes : (col : ℕ) → Goes E (column_blob E col)
  unfolding column_blob memory_use
  column_blob-Goes col =
      pointed-Goes sqlite3_column_blob sqlite3_column_bytes col
        (λ ptr size s. blob_cell (slice (E.heap s.world.calls) ptr (ptr + size))) (λ p. refl)
        (λ p. refl)

  column_of-Goes : (kind col : ℕ) → Goes E (column_of E kind col)
  unfolding column_of column_number memory_use
  column_of-Goes kind col s =
      choose (eqb kind 1 || eqb kind 2) s _ _
        (more (called s (sqlite3_column_double s.self.stmt col) refl) start)
        (choose (eqb kind 3) s _ _ (column_text-Goes col s)
          (choose (eqb kind 4) s _ _ (column_blob-Goes col s) start))

  pub column-Goes : (col : ℕ) → Goes E (column E col)
  unfolding column memory_use
  column-Goes col =
      chain E (on_column E sqlite3_column_type col) (λ kind. column_of E kind col)
        (on_column-Goes sqlite3_column_type col (λ p. refl)) (λ kind. column_of-Goes kind col)

  -- The head and then the rest of a list
  list-Goes :
      {A : Type 0} (m : Action Scope A) (k : Action Scope (List A))
      → Goes E m
      → Goes E k
      → Goes E (m >>= λ x. k >>= λ xs. give (x ∷ xs))
  list-Goes {A = A} m k hm hk =
      chain E m (λ x. k >>= λ xs. give (x ∷ xs)) hm
        (λ x. chain E k (λ xs. give (x ∷ xs)) hk (λ xs s. start))

  columns_from-Goes : (count col : ℕ) → Goes E (columns_from E count col)
  unfolding columns_from
  columns_from-Goes zero col = λ s. start
  columns_from-Goes (suc count) col =
      list-Goes (column E col) (columns_from E count (col + 1)) (column-Goes col)
        (columns_from-Goes count (col + 1))

  pub get-Goes : (params : BindParams) → Goes E (get E params)
  unfolding get memory_use
  get-Goes params =
      chain E (step_with E params)
        (λ u. on_stmt E sqlite3_data_count >>= λ count. columns_from E count 0)
        (step_with-Goes params)
        (λ u.
          chain E (on_stmt E sqlite3_data_count) (λ count. columns_from E count 0)
            (on_stmt-Goes sqlite3_data_count (λ p. refl)) (λ count. columns_from-Goes count 0))

  column_name-Goes : (col : ℕ) → Goes E (column_name E col)
  unfolding column_name memory_use
  column_name-Goes col s = more (called s (sqlite3_column_name s.self.stmt col) refl) start

  names_from-Goes : (count col : ℕ) → Goes E (names_from E count col)
  unfolding names_from
  names_from-Goes zero col = λ s. start
  names_from-Goes (suc count) col =
      list-Goes (column_name E col) (names_from E count (col + 1)) (column_name-Goes col)
        (names_from-Goes count (col + 1))

  pub get_column_names-Goes : Goes E (get_column_names E)
  unfolding get_column_names memory_use
  get_column_names-Goes =
      chain E (on_stmt E sqlite3_data_count) (λ count. names_from E count 0)
        (on_stmt-Goes sqlite3_data_count (λ p. refl)) (λ count. names_from-Goes count 0)

  keep_names-Goes : (names : List String) → Goes E (keep_names E names)
  unfolding keep_names
  keep_names-Goes names s =
      if_elim (λ r. Moves E s r) (eqb (length names) 0) (λ h. start)
        (λ h. more (named s (some names)) start)

  names_or-Goes : (names : Option (List String)) → Goes E (names_or E names)
  unfolding names_or
  names_or-Goes (some names) = λ s. start
  names_or-Goes none = chain E (get_column_names E) _ get_column_names-Goes keep_names-Goes

  row_from-Goes :
      (names : List String) (col : ℕ) (row : JsMap String Cell) → Goes E (row_from E names col row)
  unfolding row_from
  row_from-Goes [] col row = λ s. start
  row_from-Goes (name ∷ names) col row =
      chain E (column E col) _ (column-Goes col)
        (λ cell. row_from-Goes names (col + 1) (JsMap.set row name cell))

  pub get_as_object-Goes : (params : BindParams) → Goes E (get_as_object E params)
  unfolding get_as_object cached_column_names
  get_as_object-Goes params = chain E (step_with E params) _ (step_with-Goes params) (λ u.
      chain E (cached_column_names E) _ (λ s. names_or-Goes s.self.column_names s)
        (λ names. row_from-Goes names 0 []))

  bind_if-Goes : (params : BindParams) → Goes E (bind_if E params)
  unfolding bind_if
  bind_if-Goes params s =
      choose (is_undefined params) s _ _ start
        (chain E (bind E params) _ (bind-Goes params) (λ u t. start) s)

  pub run-Goes : (params : BindParams) → Goes E (run E params)
  unfolding run
  run-Goes params =
      chain E (bind_if E params) _ (bind_if-Goes params)
        (λ u. chain E (step E) _ step-Goes (λ v. chain E (reset E) _ reset-Goes (λ w s. start)))

  pub free-Goes : Goes E (free E)
  unfolding free memory_use
  free-Goes =
      after-Goes freemem (on_stmt E sqlite3_finalize >>= λ code s. returned (eqb code 0) (forget s))
        (freemem-Moves E)
        (chain E (on_stmt E sqlite3_finalize) (λ code s. returned (eqb code 0) (forget s))
          (on_stmt-Goes sqlite3_finalize (λ p. refl)) (λ code s. more (forgot s) start))
