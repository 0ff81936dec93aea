-- ===== src/Sqlite/Closing.antt =====
-- What `close` of Database.ts leaves: no statement is open, and no function is in the table.
use sqlite_wasm.Prelude.{
  ℕ, zero, suc, ◌+◌, ◌≡◌, refl, sym, ap, ◌∙◌, Option, none, some, List, [], ◌∷◌, eqb, eqb_iff,
  if◌then◌else◌, if_elim, arith, All, get_or, subst,
}
use sqlite_wasm.JsMap.{JsMap}
use sqlite_wasm.Sqlite.Wasm.{Engine, Call, sqlite3_close_v2, sqlite3_errmsg}
use sqlite_wasm.Sqlite.Actions.{Outcome, after, finally, modify, moves-chain, moves-finally}
use sqlite_wasm.Sqlite.Binding.{Statement, new_statement, freemem, log, ask}
use sqlite_wasm.Sqlite.Statement.{free, forget, on_stmt}
use sqlite_wasm.Sqlite.Machine.{
  Machine, Watch, Notice, notice_close, record_call, set_db, notify, on_statement, scope_of,
  back_in, with_scope, put_object, call, on_db, handle_error, throw_message,
}
use sqlite_wasm.Sqlite.Database.{
  checked, free_statement, set_listener, stop_at, stop_commits, free_statements, clear_statements,
  remove_functions, clear_functions, set_watch, stop_watch, release_all, close_inner, close,
  Operation, op_close, operate, operate_all,
}
use sqlite_wasm.Sqlite.Table.{
  times_added, times_removed, in_functions, in_listener, in_watch, in_use, Keeps,
}
use sqlite_wasm.Sqlite.Opening.{Opening, opened, opened-Opens}
use sqlite_wasm.Sqlite.Functions.{operate-Keeps, operate_all-Keeps, remove_functions_calls}

get_or-put_object :
    (xs : List Statement) (i j : ℕ) (x d : Statement)
    → d.stmt ≡ 0
    → x.stmt ≡ 0
    → (get_or (put_object xs i x) j d).stmt ≡ (if eqb i j then 0 else (get_or xs j d).stmt)
unfolding put_object
get_or-put_object [] i j x d h k = ground (arith, h)
get_or-put_object (y ∷ ys) zero zero x d h k = k
get_or-put_object (y ∷ ys) zero (suc j) x d h k = ground arith
get_or-put_object (y ∷ ys) (suc i) zero x d h k = ground arith
get_or-put_object (y ∷ ys) (suc i) (suc j) x d h k =
    ground (arith, get_or-put_object ys i j x d h k)

-- The statement with a number is closed, or there is none.
abbrev pub IsFreed : Machine → ℕ → Type 0
IsFreed s i = (get_or s.objects i (new_statement 0)).stmt ≡ 0

-- What two states have in common when one comes from the other by calls of the module
record Same (s t : Machine) : Type 0 where
  objects : t.objects ≡ s.objects
  statements : t.world.statements ≡ s.world.statements
  functions : t.functions ≡ s.functions
  commit_listener : t.commit_listener ≡ s.commit_listener
  commit_watch : t.commit_watch ≡ s.commit_watch

Same-trans : (s t u : Machine) → Same s t → Same t u → Same s u
Same-trans s t u h k = record {
  objects = k.objects ∙ h.objects;
  statements = k.statements ∙ h.statements;
  functions = k.functions ∙ h.functions;
  commit_listener = k.commit_listener ∙ h.commit_listener;
  commit_watch = k.commit_watch ∙ h.commit_watch;
}

Same-refl : (s : Machine) → Same s s
Same-refl s = record {
  objects = refl;
  statements = refl;
  functions = refl;
  commit_listener = refl;
  commit_watch = refl;
}

call-Same : (c : Call) (s : Machine) → Same s (record_call c s)
unfolding record_call
call-Same c s = record {
  objects = refl;
  statements = refl;
  functions = refl;
  commit_listener = refl;
  commit_watch = refl;
}

notify-Same : (n : Notice) (s : Machine) → Same s (notify n s)
unfolding notify
notify-Same n s = record {
  objects = refl;
  statements = refl;
  functions = refl;
  commit_listener = refl;
  commit_watch = refl;
}

set_db-Same : (ptr : ℕ) (s : Machine) → Same s (set_db ptr s)
unfolding set_db
set_db-Same ptr s = record {
  objects = refl;
  statements = refl;
  functions = refl;
  commit_listener = refl;
  commit_watch = refl;
}

module _ (E : Engine) where
  free_statement-frees :
      (i j : ℕ) (s : Machine)
      → (get_or (free_statement E i s).objects j (new_statement 0)).stmt
        ≡ (if eqb i j then 0 else (get_or s.objects j (new_statement 0)).stmt)
  unfolding free_statement on_statement scope_of back_in with_scope free freemem on_stmt ask log
      forget new_statement
  free_statement-frees i j s = get_or-put_object s.objects i j _ (new_statement 0) refl refl

  free_statements-keep :
      (m : JsMap ℕ ℕ) (j : ℕ) (s : Machine) → IsFreed s j → IsFreed (free_statements E m s) j
  unfolding free_statements
  free_statements-keep [] j s h = h
  free_statements-keep ((ptr, i) ∷ m) j s h =
      free_statements-keep m j (free_statement E i s) (ground (arith, free_statement-frees i j s))

  free_statements-free :
      (m : JsMap ℕ ℕ) (s : Machine) → All (λ e. IsFreed (free_statements E m s) e.1) m
  unfolding free_statements
  free_statements-free [] s = tt
  free_statements-free ((ptr, i) ∷ m) s = (
    free_statements-keep m i (free_statement E i s)
        (ground (arith, free_statement-frees i i s, (eqb_iff i i).1 refl)),
    free_statements-free m (free_statement E i s),
  )

  checked-Same : (c : ℕ → Call) (s : Machine) → Same s (after (checked E c s))
  unfolding checked on_db call handle_error throw_message
  checked-Same c s =
      let t = record_call (c s.world.db_ptr) s in
      if_elim (λ (r : Outcome Machine Unit). Same s (after r)) (eqb (E.answer t.world.calls) 0)
        (λ h. call-Same (c s.world.db_ptr) s)
        (λ h.
          Same-trans s t _ (call-Same (c s.world.db_ptr) s)
            (call-Same (sqlite3_errmsg t.world.db_ptr) t))

  close-Same : (s : Machine) → Same (release_all E s) (after (close E s))
  unfolding close close_inner
  close-Same s =
      moves-chain Same Same-trans (finally (notify notice_close) (checked E sqlite3_close_v2))
        (λ u. modify (set_db 0))
        (moves-finally Same Same-trans (checked E sqlite3_close_v2) (notify notice_close)
          (checked-Same sqlite3_close_v2) (notify-Same notice_close))
        (λ u. set_db-Same 0) (release_all E s)

stop_watch-none :
    (w : Option Watch) (s : Machine)
    → s.commit_watch ≡ w
    → let t = stop_watch w s in
      (t.commit_watch ≡ none)
      × ((t.objects ≡ s.objects)
          × ((t.world.statements ≡ s.world.statements)
              × ((t.functions ≡ s.functions) × (t.commit_listener ≡ s.commit_listener))))
unfolding stop_watch set_watch record_call
stop_watch-none none s e = (e, (refl, (refl, (refl, refl))))
stop_watch-none (some w) s e = (refl, (refl, (refl, (refl, refl))))

stop_at-none :
    (l : Option ℕ) (s : Machine)
    → s.commit_listener ≡ l
    → let t = stop_at l s in
      (t.commit_listener ≡ none)
      × ((t.objects ≡ s.objects)
          × ((t.world.statements ≡ s.world.statements) × (t.functions ≡ s.functions)))
unfolding stop_at set_listener record_call
stop_at-none none s e = (e, (refl, (refl, refl)))
stop_at-none (some l) s e = (refl, (refl, (refl, refl)))

none-in_use :
    (p : ℕ) (s : Machine)
    → s.functions ≡ []
    → s.commit_listener ≡ none
    → s.commit_watch ≡ none
    → in_use p s ≡ 0
unfolding in_use in_functions in_listener in_watch
none-in_use p s f l w = rw (f, l, w) (omega arith)

-- What `_close` has let go of, of a database that was in the state `s`
abbrev pub IsReleased : Machine → Machine → Type 0
IsReleased s t =
    (t.functions ≡ [])
    × ((t.commit_listener ≡ none)
        × ((t.commit_watch ≡ none)
            × ((t.world.statements ≡ []) × All (λ e. IsFreed t e.1) s.world.statements)))

All-IsFreed :
    (m : JsMap ℕ ℕ) (s t : Machine)
    → t.objects ≡ s.objects
    → All (λ e. IsFreed s e.1) m
    → All (λ e. IsFreed t e.1) m
All-IsFreed m s t h = subst (λ xs. All (λ e. (get_or xs e.1 (new_statement 0)).stmt ≡ 0) m) (sym h)

module _ (E : Engine) where
  release_all-IsReleased : (s : Machine) → IsReleased s (release_all E s)
  unfolding release_all clear_statements clear_functions notify stop_commits
  release_all-IsReleased s =
      let inner = free_statements E s.world.statements s in
      let freed = clear_statements inner in
      let removed = clear_functions (remove_functions freed.functions freed) in
      let stopped = stop_commits removed in
      let a = stop_at-none removed.commit_listener removed refl in
      let b = stop_watch-none stopped.commit_watch stopped refl in
      let c = (remove_functions_calls E 0 freed.functions freed).1.1 in
      (
        b.1.1.1.0 ∙ a.1.1.1,
        (
          b.1.1.1.1 ∙ a.0,
          (
            b.0,
            (
              b.1.1.0 ∙ (a.1.1.0 ∙ ap (λ (u : Machine). u.world.statements) c),
              All-IsFreed s.world.statements inner (release_all E s)
                  (b.1.0 ∙ (a.1.0 ∙ ap (λ (u : Machine). u.objects) c))
                  (free_statements-free E s.world.statements s),
            ),
          ),
        ),
      )

  -- After `close`, also when it throws, each statement that the database knew is closed, and the
  -- database has no statements, functions, listeners or hooks any more.
  pub close-IsReleased : (s : Machine) → IsReleased s (after (close E s))
  close-IsReleased s =
      let h = close-Same E s in
      let r = release_all-IsReleased s in
      (
        h.functions ∙ r.0,
        (
          h.commit_listener ∙ r.1.0,
          (
            h.commit_watch ∙ r.1.1.0,
            (
              h.statements ∙ r.1.1.1.0,
              All-IsFreed s.world.statements (release_all E s) (after (close E s)) h.objects
                  r.1.1.1.1,
            ),
          ),
        ),
      )

  -- A new database, which has no functions, listeners and hooks, that may be opened with `openFile` or
  -- `openBase`, on which then any of `prepare`, `run`, the methods of its statements, `watchCommits` and
  -- its undoing, `create_function`, `onCommit`, `persistAll`, `detach`, `export` and `close` are called,
  -- also ones that throw, and which is then closed, has removed each function from the table as often
  -- as it added it.
  pub functions_removed :
      (s : Machine) (o : Opening) (os : List Operation) (p : ℕ)
      → s.functions ≡ []
      → s.commit_listener ≡ none
      → s.commit_watch ≡ none
      → let t = operate E op_close (operate_all E os (opened E o s)) in
        times_added E p t.world.calls + times_removed p s.world.calls
        ≡ times_added E p s.world.calls + times_removed p t.world.calls
  unfolding Keeps operate
  functions_removed s o os p f l w =
      let v = opened E o s in
      let u = operate_all E os v in
      let (dv, g) = (opened-Opens E p o s f).1 (rw f tt) in
      let (du, h) = operate_all-Keeps E p os v dv in
      let (dt, k) = operate-Keeps E p op_close u du in
      let r = close-IsReleased u in
      omega
        (arith, g, h, k, none-in_use p s f l w, none-in_use p (after (close E u)) r.0 r.1.0 r.1.1.0)
