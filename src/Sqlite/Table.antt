-- ===== src/Sqlite/Table.antt =====
-- The functions that a `Database` of Database.ts puts into the table of the Wasm module.
use sqlite_wasm.Prelude.{
  ℕ, ◌+◌, ◌≡◌, refl, ◌∙◌, Bool, false, String, Option, none, some, List, [], ◌∷◌, eqb,
  if◌then◌else◌, if_elim, arith, string_eq,
}
use sqlite_wasm.JsMap
use sqlite_wasm.JsMap.{JsMap}
use sqlite_wasm.Sqlite.Wasm.{Engine, Call, sqlite3_errmsg}
use sqlite_wasm.Sqlite.Actions.{Action, Outcome, returned, thrown, after, Failure, moves-chain}
use sqlite_wasm.Sqlite.Moves.{
  MemoryUse, memory_use, no_use, adds_function, removes_function, Move, Moves, called, placed,
  named, taken, freed, dropped, forgot, start, more,
}
use sqlite_wasm.Sqlite.Binding.{Scope, log, set_pos, set_names, push_memory, answered}
use sqlite_wasm.Sqlite.Statement.{forget}
use sqlite_wasm.Sqlite.Database.{checked}
use sqlite_wasm.Sqlite.Machine.{
  Machine, Watch, record_call, call, on_db, handle_error, throw_message, if_open, on_statement,
  scope_of, back_in, with_scope,
}

unfoldable pub added_by : MemoryUse → ℕ → ℕ → ℕ
added_by adds_function answer p = if eqb answer p then 1 else 0
added_by kind answer p = 0

unfoldable pub removed_by : MemoryUse → ℕ → ℕ
removed_by (removes_function q) p = if eqb q p then 1 else 0
removed_by kind p = 0

-- How often `addFunction` answered a pointer, and how often it was given to `removeFunction`
unfoldable pub times_added : Engine → ℕ → List Call → ℕ
unfolding added_by memory_use
times_added E p [] = 0
times_added E p (c ∷ calls) =
    added_by (memory_use c) (E.answer (c ∷ calls)) p + times_added E p calls

unfoldable pub times_removed : ℕ → List Call → ℕ
unfolding removed_by memory_use
times_removed p [] = 0
times_removed p (c ∷ calls) = removed_by (memory_use c) p + times_removed p calls

unfoldable pub in_functions : ℕ → JsMap String ℕ → ℕ
in_functions p [] = 0
in_functions p ((name, q) ∷ m) = (if eqb q p then 1 else 0) + in_functions p m

unfoldable pub in_listener : ℕ → Option ℕ → ℕ
in_listener p none = 0
in_listener p (some q) = if eqb q p then 1 else 0

unfoldable pub in_watch : ℕ → Option Watch → ℕ
in_watch p none = 0
in_watch p (some w) = if eqb w.pointer p then 1 else 0

-- How many of a database's fields hold the pointer of a function
unfoldable pub in_use : ℕ → Machine → ℕ
unfolding in_functions in_listener in_watch
in_use p s =
    in_functions p s.functions + (in_listener p s.commit_listener + in_watch p s.commit_watch)

pub in_functions-set :
    (p : ℕ) (m : JsMap String ℕ) (name : String) (q : ℕ)
    → JsMap.has m name ≡ false
    → in_functions p (JsMap.set m name q) ≡ (if eqb q p then 1 else 0) + in_functions p m
unfolding in_functions JsMap.set JsMap.has
in_functions-set p [] name q h = refl
in_functions-set p ((j, w) ∷ m) name q h = ground (arith, in_functions-set p m name q)

pub in_functions-delete :
    (p : ℕ) (m : JsMap String ℕ) (name : String) (q : ℕ)
    → JsMap.IsDistinct m
    → JsMap.get m name ≡ some q
    → (if eqb q p then 1 else 0) + in_functions p (JsMap.delete m name) ≡ in_functions p m
unfolding in_functions JsMap.delete JsMap.get
in_functions-delete p [] name q d h = cc
in_functions-delete p ((j, w) ∷ m) name q d h = ground (
  arith,
  in_functions-delete p m name q d.1,
  JsMap.delete_absent m name,
  d.0,
  string_eq.beq_iff j name,
)

module _ (E : Engine) where
  -- From one state to another, a pointer was added as often as it was removed or came to be in use;
  -- and no function has two entries.
  unfoldable pub Keeps : ℕ → Machine → Machine → Type 0
  Keeps p s t =
      JsMap.IsDistinct s.functions
      → JsMap.IsDistinct t.functions
        × (times_added E p t.world.calls + (times_removed p s.world.calls + in_use p s)
            ≡ times_added E p s.world.calls + (times_removed p t.world.calls + in_use p t))

  pub Keeps-trans : (p : ℕ) (s t u : Machine) → Keeps p s t → Keeps p t u → Keeps p s u
  unfolding Keeps
  Keeps-trans p s t u h k d = let (dt, e) = h d in let (du, f) = k dt in (du, omega arith)

  abbrev pub Holds : ℕ → {A : Type 0} → Action Machine A → Type 0
  Holds p m = (s : Machine) → Keeps p s (after (m s))

  pub Keeps-same : (p : ℕ) (s : Machine) → Keeps p s s
  unfolding Keeps
  Keeps-same p s d = (d, refl)

  -- The calls that leave the table as it is
  abbrev pub IsQuiet : List Call → List Call → Type 0
  IsQuiet before now =
      (p : ℕ)
      → (times_added E p now ≡ times_added E p before)
        × (times_removed p now ≡ times_removed p before)

  pub IsQuiet-call :
      (c : Call) (calls : List Call) → memory_use c ≡ no_use → IsQuiet calls (c ∷ calls)
  unfolding times_added times_removed added_by removed_by
  IsQuiet-call c calls h p = rw h (omega arith, omega arith)

  Move-IsQuiet : (s t : Scope) → Move E s t → IsQuiet s.world.calls t.world.calls
  unfolding times_added times_removed added_by removed_by memory_use log set_pos set_names
      push_memory answered forget
  Move-IsQuiet _ _ (called s c h) p = IsQuiet-call c s.world.calls h p
  Move-IsQuiet _ _ (placed s pos) p = (refl, refl)
  Move-IsQuiet _ _ (named s names) p = (refl, refl)
  Move-IsQuiet _ _ (taken s n) p = (omega arith, omega arith)
  Move-IsQuiet _ _ (freed s q mem calls e) p = (omega arith, omega arith)
  Move-IsQuiet _ _ (dropped s mem calls) p = (refl, refl)
  Move-IsQuiet _ _ (forgot s) p = (refl, refl)

  Moves-IsQuiet : (s t : Scope) → Moves E s t → IsQuiet s.world.calls t.world.calls
  Moves-IsQuiet s _ start p = (refl, refl)
  Moves-IsQuiet s u (more {t = t} m ms) p =
      let a = Move-IsQuiet s t m p in let b = Moves-IsQuiet t u ms p in (b.0 ∙ a.0, b.1 ∙ a.1)

  back_in-Keeps :
      {A : Type 0} (p i : ℕ) (s : Machine) (o : Outcome Scope A)
      → IsQuiet s.world.calls (after o).world.calls
      → Keeps p s (after (back_in i s o))
  unfolding back_in with_scope Keeps in_use
  back_in-Keeps p i s (returned a t) h d = (d, omega (arith, (h p).0, (h p).1))
  back_in-Keeps p i s (thrown e t) h d = (d, omega (arith, (h p).0, (h p).1))

  -- A method of a statement leaves the functions of the database as they are.
  pub on_statement-Keeps :
      {A : Type 0} (p i : ℕ) (m : Action Scope A)
      → ((s : Scope) → Moves E s (after (m s)))
      → Holds p (on_statement i m)
  unfolding on_statement scope_of
  on_statement-Keeps p i m h s =
      let b = scope_of i s in back_in-Keeps p i s (m b) (Moves-IsQuiet b (after (m b)) (h b))

  -- So does a call of anything but the table.
  pub record_call-Keeps :
      (p : ℕ) (c : Call) → memory_use c ≡ no_use → (s : Machine) → Keeps p s (record_call c s)
  unfolding record_call Keeps in_use
  record_call-Keeps p c h s d =
      let q = IsQuiet-call c s.world.calls h p in (d, omega (arith, q.0, q.1))

  pub chain :
      {A B : Type 0} (p : ℕ) (m : Action Machine A) (f : A → Action Machine B)
      → Holds p m
      → ((a : A) → Holds p (f a))
      → Holds p (λ s. elim (m s) [ returned a t ↦ f a t | thrown e t ↦ thrown e t ])
  chain p m f = moves-chain (Keeps p) (Keeps-trans p) m f

  -- A change of the state, and an action after it
  pub after-Keeps :
      {A : Type 0} (p : ℕ) (g : Machine → Machine) (m : Action Machine A)
      → ((s : Machine) → Keeps p s (g s))
      → Holds p m
      → Holds p (λ s. m (g s))
  after-Keeps p g m hg hm s = Keeps-trans p s (g s) (after (m (g s))) (hg s) (hm (g s))

  pub choose-Keeps :
      {A : Type 0} (p : ℕ) (b : Bool) (s : Machine) (x y : Outcome Machine A)
      → Keeps p s (after x)
      → Keeps p s (after y)
      → Keeps p s (after (if b then x else y))
  choose-Keeps {A = A} p b s x y hx hy =
      if_elim (λ (r : Outcome Machine A). Keeps p s (after r)) b (λ h. hx) (λ h. hy)

  pub call-Keeps : (p : ℕ) (c : Call) → memory_use c ≡ no_use → Holds p (call E c)
  unfolding call
  call-Keeps p c h = record_call-Keeps p c h

  pub on_db-Keeps :
      (p : ℕ) (c : ℕ → Call) → ((db : ℕ) → memory_use (c db) ≡ no_use) → Holds p (on_db E c)
  unfolding on_db
  on_db-Keeps p c h s = call-Keeps p (c s.world.db_ptr) (h s.world.db_ptr) s

  pub handle_error-Keeps : (p code : ℕ) → Holds p (handle_error E code)
  unfolding handle_error throw_message memory_use
  handle_error-Keeps p code s =
      choose-Keeps p (eqb code 0) s _ _ (Keeps-same p s)
        (record_call-Keeps p (sqlite3_errmsg s.world.db_ptr) refl s)

  pub checked-Keeps :
      (p : ℕ) (c : ℕ → Call) → ((db : ℕ) → memory_use (c db) ≡ no_use) → Holds p (checked E c)
  unfolding checked
  checked-Keeps p c h =
      chain p (on_db E c) (handle_error E) (on_db-Keeps p c h) (handle_error-Keeps p)

  pub if_open-Keeps :
      {A : Type 0} (p : ℕ) (e : Failure) (m : Action Machine A)
      → Holds p m
      → Holds p (if_open E e m)
  unfolding if_open
  if_open-Keeps p e m h s = choose-Keeps p (eqb s.world.db_ptr 0) s _ _ (Keeps-same p s) (h s)
