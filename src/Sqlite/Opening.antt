-- ===== src/Sqlite/Opening.antt =====
-- How a new `Database` of Database.ts comes to its file, before its methods are used: `openFile` and
-- `openBase` replace a new database, which has no functions yet.
use sqlite_wasm.Prelude.{ℕ, ◌≡◌, refl, String, some, [], eqb, if_elim}
use sqlite_wasm.Sqlite.Wasm.{
  Engine, Call, sqlite3_close_v2, sqlite3_errmsg, alinea_open_file, alinea_open_base,
}
use sqlite_wasm.Sqlite.Actions.{Outcome, after, attempt, modify, ◌>>=◌, moves-chain}
use sqlite_wasm.Sqlite.Moves.{memory_use, no_use}
use sqlite_wasm.Sqlite.Machine.{Machine, record_call, set_db, call, on_db, get_value, value_at}
use sqlite_wasm.Sqlite.Database.{clear_statements, clear_functions}
use sqlite_wasm.Sqlite.Files.{fail, fail_message, open_db, set_file, open_file, open_base}
use sqlite_wasm.Sqlite.Table.{in_use, Keeps, Keeps-same, Keeps-trans, record_call-Keeps}

-- The database stays as its constructor made it, or is replaced.
pub data Opening : Type 0 where
  opens_new : Opening
  opens_file opens_base : String → Opening

module _ (E : Engine) where
  unfoldable pub opened : Opening → Machine → Machine
  unfolding open_file open_base
  opened opens_new s = s
  opened (opens_file file) s = attempt (open_file E file) s
  opened (opens_base file) s = attempt (open_base E file) s

module _ (E : Engine) (p : ℕ) where
  -- A database without functions still has none, and the table is as it was.
  abbrev Opens : Machine → Machine → Type 0
  Opens s t = s.functions ≡ [] → (t.functions ≡ []) × Keeps E p s t

  Opens-trans : (s t u : Machine) → Opens s t → Opens t u → Opens s u
  Opens-trans s t u h k e = let (f, a) = h e in let (g, b) = k f in (g, Keeps-trans E p s t u a b)

  call-Opens : (c : Call) → memory_use c ≡ no_use → (s : Machine) → Opens s (after (call E c s))
  unfolding call record_call
  call-Opens c h s e = (e, unfold record_call in record_call-Keeps E p c h s)

  on_db-Opens :
      (c : ℕ → Call)
      → ((db : ℕ) → memory_use (c db) ≡ no_use)
      → (s : Machine) → Opens s (after (on_db E c s))
  unfolding on_db
  on_db-Opens c h s = call-Opens (c s.world.db_ptr) (h s.world.db_ptr) s

  set_db-Opens : (ptr : ℕ) (s : Machine) → Opens s (set_db ptr s)
  unfolding set_db Keeps in_use
  set_db-Opens ptr s e = (e, λ d. (d, refl))

  set_file-Opens : (file : String) (s : Machine) → Opens s (set_file (some file) s)
  unfolding set_file Keeps in_use
  set_file-Opens file s e = (e, λ d. (d, refl))

  clear_statements-Opens : (s : Machine) → Opens s (clear_statements s)
  unfolding clear_statements Keeps in_use
  clear_statements-Opens s e = (e, λ d. (d, refl))

  clear_functions-Opens : (s : Machine) → Opens s (clear_functions s)
  unfolding clear_functions Keeps in_use
  clear_functions-Opens s e = (refl, λ d. rw e (tt, refl))

  fail_message-Opens : (code : ℕ) (s : Machine) → Opens s (after (fail_message E code s))
  unfolding fail_message fail memory_use
  fail_message-Opens code s =
      let t = record_call (sqlite3_errmsg s.world.db_ptr) s in
      let u = record_call (sqlite3_close_v2 t.world.db_ptr) t in
      Opens-trans s t (set_db 0 u)
        (λ e.
          unfold record_call in (e, record_call-Keeps E p (sqlite3_errmsg s.world.db_ptr) refl s))
        (Opens-trans t u (set_db 0 u)
          (λ e.
            unfold record_call in
            (e, record_call-Keeps E p (sqlite3_close_v2 t.world.db_ptr) refl t))
          (set_db-Opens 0 u))

  open_db-Opens : (code : ℕ) (s : Machine) → Opens s (after (open_db E code s))
  unfolding open_db get_value
  open_db-Opens code s =
      let a = set_db (value_at (E.heap s.world.calls) E.temp_int32) s in
      let b = clear_statements a in
      let c = clear_functions b in
      let here : Opens s c =
        Opens-trans s a c (set_db-Opens (value_at (E.heap s.world.calls) E.temp_int32) s)
          (Opens-trans a b c (clear_statements-Opens a) (clear_functions-Opens b)) in
      if_elim (λ (o : Outcome Machine Unit). Opens s (after o)) (eqb code 0) (λ h. here)
        (λ h. Opens-trans s c (after (fail_message E code c)) here (fail_message-Opens code c))

  pub opened-Opens : (o : Opening) (s : Machine) → Opens s (opened E o s)
  unfolding opened open_file open_base memory_use
  opened-Opens opens_new s = λ e. (e, Keeps-same E p s)
  opened-Opens (opens_file file) s =
      moves-chain Opens Opens-trans (on_db E sqlite3_close_v2)
        (λ closed. call E (alinea_open_file file) >>= λ code.
          open_db E code >>= λ u. modify (set_file (some file)))
        (on_db-Opens sqlite3_close_v2 (λ db. refl))
        (λ closed.
          moves-chain Opens Opens-trans (call E (alinea_open_file file))
            (λ code. open_db E code >>= λ u. modify (set_file (some file)))
            (call-Opens (alinea_open_file file) refl)
            (λ code.
              moves-chain Opens Opens-trans (open_db E code) (λ u. modify (set_file (some file)))
                (open_db-Opens code) (λ u. set_file-Opens file)))
        s
  opened-Opens (opens_base file) s =
      moves-chain Opens Opens-trans (on_db E sqlite3_close_v2)
        (λ closed. call E (alinea_open_base file) >>= λ code. open_db E code)
        (on_db-Opens sqlite3_close_v2 (λ db. refl))
        (λ closed.
          moves-chain Opens Opens-trans (call E (alinea_open_base file)) (λ code. open_db E code)
            (call-Opens (alinea_open_base file) refl) open_db-Opens)
        s
