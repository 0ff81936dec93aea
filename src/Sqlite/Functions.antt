-- ===== src/Sqlite/Functions.antt =====
-- Each method of the class `Database` removes the functions that it replaces from the table.
use sqlite_wasm.Prelude.{
  ℕ, ◌+◌, ◌≡◌, refl, ap, false, String, Option, none, some, List, [], ◌∷◌, eqb, arith, string_eq,
  beq_refl,
}
use sqlite_wasm.JsMap
use sqlite_wasm.JsMap.{JsMap}
use sqlite_wasm.Sqlite.Wasm.{
  Engine, add_function, remove_function, sqlite3_close_v2, sqlite3_create_function_v2, sqlite3_free,
  alinea_serialize,
}
use sqlite_wasm.Sqlite.Actions.{returned, after, modify, finally, moves-finally, database_closed}
use sqlite_wasm.Sqlite.Statement.{perform}
use sqlite_wasm.Sqlite.Moves.{memory_use}
use sqlite_wasm.Sqlite.Memory.{perform-Moves}
use sqlite_wasm.Sqlite.Machine.{
  Machine, notice_close, notice_closing, record_call, set_db, notify, call, get_value, on_db,
}
use sqlite_wasm.Sqlite.Database.{
  checked, free_statement, stop_commits, free_statements, clear_statements, remove_functions,
  clear_functions, stop_watch, release_all, close_inner, close, exported, export, drop_function,
  set_function, create_function, Operation, op_prepare, op_run, op_statement, op_watch, op_unwatch,
  op_create, op_on_commit, op_persist_all, op_detach, op_export, op_close, operate, operate_all,
}
use sqlite_wasm.Sqlite.Table.{
  times_added, times_removed, added_by, removed_by, in_functions, in_listener, in_watch, in_use,
  in_functions-set, in_functions-delete, Keeps, Keeps-trans, Keeps-same, Holds, on_statement-Keeps,
  record_call-Keeps, chain, after-Keeps, choose-Keeps, on_db-Keeps, checked-Keeps, if_open-Keeps,
}
use sqlite_wasm.Sqlite.Preparing.{prepare-Keeps, free_statement-Keeps, run-Keeps}
use sqlite_wasm.Sqlite.Hooks.{
  watch_commits-Keeps, unwatch-Keeps, on_commit-Keeps, persist_all-Keeps, notify-Keeps,
  stop_commits-Keeps, detach-Keeps, stop_watch-Keeps,
}

module _ (E : Engine) (p : ℕ) where
  free_statements-Keeps : (m : JsMap ℕ ℕ) (s : Machine) → Keeps E p s (free_statements E m s)
  unfolding free_statements
  free_statements-Keeps [] s = Keeps-same E p s
  free_statements-Keeps ((ptr, i) ∷ m) s =
      let t = free_statement E i s in
      Keeps-trans E p s t (free_statements E m t) (free_statement-Keeps E p i s)
        (free_statements-Keeps m t)

  clear_statements-Keeps : (s : Machine) → Keeps E p s (clear_statements s)
  unfolding clear_statements Keeps in_use
  clear_statements-Keeps s d = (d, refl)

  -- The functions are removed that the map holds.
  pub remove_functions_calls :
      (m : JsMap String ℕ) (s : Machine)
      → let t = remove_functions m s in
        (times_added E p t.world.calls ≡ times_added E p s.world.calls)
        × ((times_removed p t.world.calls ≡ in_functions p m + times_removed p s.world.calls)
            × (t ≡ record s { world = record s.world { calls = t.world.calls } }))
  unfolding remove_functions record_call in_functions times_added times_removed memory_use added_by
      removed_by
  remove_functions_calls [] s = (refl, (omega arith, refl))
  remove_functions_calls ((name, q) ∷ m) s =
      let h = remove_functions_calls m (record_call (remove_function q) s) in
      (omega (arith, h.0), (ground (arith, h.1.0), h.1.1))

  clear_functions-Keeps :
      (s : Machine) → Keeps E p s (clear_functions (remove_functions s.functions s))
  unfolding clear_functions Keeps in_use in_functions
  clear_functions-Keeps s d =
      let h = remove_functions_calls s.functions s in
      let l = ap (λ (u : Machine). in_listener p u.commit_listener) h.1.1 in
      let w = ap (λ (u : Machine). in_watch p u.commit_watch) h.1.1 in
      (tt, omega (arith, h.0, h.1.0, l, w))

  release_all-Keeps : (s : Machine) → Keeps E p s (release_all E s)
  unfolding release_all
  release_all-Keeps s =
      let freed = clear_statements (free_statements E s.world.statements s) in
      let removed = clear_functions (remove_functions freed.functions freed) in
      let stopped = stop_commits removed in
      let unhooked = stop_watch stopped.commit_watch stopped in
      let then_ : (a b c : Machine) → Keeps E p a b → Keeps E p b c → Keeps E p a c =
        Keeps-trans E p in
      let inner = free_statements E s.world.statements s in
      then_ s inner (notify notice_closing unhooked) (free_statements-Keeps s.world.statements s) (
        then_ inner freed (notify notice_closing unhooked) (clear_statements-Keeps inner) (
          then_ freed removed (notify notice_closing unhooked) (clear_functions-Keeps freed) (
            then_ removed stopped (notify notice_closing unhooked) (stop_commits-Keeps E p removed)
              (then_ stopped unhooked (notify notice_closing unhooked)
                (stop_watch-Keeps E p stopped.commit_watch stopped refl)
                (notify-Keeps E p notice_closing unhooked)))))

  set_db-Keeps : (ptr : ℕ) (s : Machine) → Keeps E p s (set_db ptr s)
  unfolding set_db Keeps in_use
  set_db-Keeps ptr s d = (d, refl)

  close_inner-Keeps : Holds E p (close_inner E)
  unfolding close_inner memory_use
  close_inner-Keeps =
      after-Keeps E p (release_all E) (finally (notify notice_close) (checked E sqlite3_close_v2))
        release_all-Keeps
        (moves-finally (Keeps E p) (Keeps-trans E p) (checked E sqlite3_close_v2)
          (notify notice_close) (checked-Keeps E p sqlite3_close_v2 (λ db. refl))
          (notify-Keeps E p notice_close))

  close-Keeps : Holds E p (close E)
  unfolding close
  close-Keeps =
      chain E p (close_inner E) (λ u. modify (set_db 0)) close_inner-Keeps (λ u. set_db-Keeps 0)

  exported-Keeps : (ptr : ℕ) → Holds E p (exported E ptr)
  unfolding exported get_value memory_use
  exported-Keeps ptr s =
      choose-Keeps E p (eqb ptr 0) s _ _ (Keeps-same E p s)
        (record_call-Keeps E p (sqlite3_free ptr) refl s)

  export-Keeps : Holds E p (export E)
  unfolding export memory_use
  export-Keeps = if_open-Keeps E p database_closed _ (
      chain E p (on_db E alinea_serialize) (exported E)
        (on_db-Keeps E p alinea_serialize (λ db. refl)) exported-Keeps)

  drop_function-Keeps :
      (name : String) (o : Option ℕ) (s : Machine)
      → JsMap.get s.functions name ≡ o
      → Keeps E p s (drop_function name o s)
  unfolding drop_function record_call Keeps in_use times_added times_removed memory_use added_by
      removed_by
  drop_function-Keeps name none s e d = (d, refl)
  drop_function-Keeps name (some q) s e d = (
    JsMap.delete-IsDistinct s.functions name d,
    ground (arith, in_functions-delete p s.functions name q d e),
  )

  drop_function-has :
      (name : String) (o : Option ℕ) (s : Machine)
      → JsMap.get s.functions name ≡ o
      → JsMap.has (drop_function name o s).functions name ≡ false
  unfolding drop_function record_call
  drop_function-has name none s e = JsMap.has-none s.functions name e
  drop_function-has name (some q) s e =
      ground (arith, JsMap.has-delete s.functions name name, beq_refl name)

  -- A function that is added under a name without one
  add_function-Keeps :
      (name : String) (s : Machine)
      → JsMap.has s.functions name ≡ false
      → Keeps E p s
          (set_function name (E.answer (add_function ∷ s.world.calls)) (record_call add_function s))
  unfolding set_function record_call Keeps in_use times_added times_removed memory_use added_by
      removed_by
  add_function-Keeps name s h d = (
    JsMap.set-IsDistinct s.functions name (E.answer (add_function ∷ s.world.calls)) d,
    omega (arith, in_functions-set p s.functions name (E.answer (add_function ∷ s.world.calls)) h),
  )

  create_function-Keeps : (name : String) (arity : ℕ) → Holds E p (create_function E name arity)
  unfolding create_function call memory_use
  create_function-Keeps name arity s =
      let dropped = drop_function name (JsMap.get s.functions name) s in
      let ptr = E.answer (add_function ∷ dropped.world.calls) in
      let added = set_function name ptr (record_call add_function dropped) in
      let m = checked E (λ db. sqlite3_create_function_v2 db name arity ptr) in
      Keeps-trans E p s dropped (after (m added))
        (drop_function-Keeps name (JsMap.get s.functions name) s refl)
        (Keeps-trans E p dropped added (after (m added))
          (add_function-Keeps name dropped
            (drop_function-has name (JsMap.get s.functions name) s refl))
          (checked-Keeps E p (λ db. sqlite3_create_function_v2 db name arity ptr) (λ db. refl)
            added))

  pub operate-Keeps : (o : Operation) (s : Machine) → Keeps E p s (operate E o s)
  unfolding operate
  operate-Keeps (op_prepare sql params) = prepare-Keeps E p sql params
  operate-Keeps (op_run sql params) = run-Keeps E p sql params
  operate-Keeps (op_statement i m) =
      on_statement-Keeps E p i (λ s. returned tt (perform E m s)) (perform-Moves E m)
  operate-Keeps (op_watch n) = watch_commits-Keeps E p n
  operate-Keeps (op_unwatch n) = λ s. unwatch-Keeps E p n s.commit_watch s refl
  operate-Keeps (op_create name arity) = create_function-Keeps name arity
  operate-Keeps op_on_commit = on_commit-Keeps E p
  operate-Keeps op_persist_all = persist_all-Keeps E p
  operate-Keeps op_detach = detach-Keeps E p
  operate-Keeps op_export = export-Keeps
  operate-Keeps op_close = close-Keeps

  pub operate_all-Keeps : (os : List Operation) (s : Machine) → Keeps E p s (operate_all E os s)
  unfolding operate_all
  operate_all-Keeps [] s = Keeps-same E p s
  operate_all-Keeps (o ∷ os) s =
      Keeps-trans E p s (operate E o s) (operate_all E os (operate E o s)) (operate-Keeps o s)
        (operate_all-Keeps os (operate E o s))
