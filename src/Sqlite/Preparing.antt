-- ===== src/Sqlite/Preparing.antt =====
-- `prepare` and `run` of the class `Database`, with the functions in the table of the Wasm module.
use sqlite_wasm.Prelude.{ℕ, refl, String, eqb, if_elim, string_eq}
use sqlite_wasm.Sqlite.Wasm.{Engine, set_value, sqlite3_prepare_v2, sqlite3_exec}
use sqlite_wasm.Sqlite.Actions.{Action, give, modify, ◌>>=◌, ◌>>◌, moves-finally, database_closed}
use sqlite_wasm.Sqlite.Binding.{BindParams, is_undefined}
use sqlite_wasm.Sqlite.Statement.{bind, step, free}
use sqlite_wasm.Sqlite.Moves.{memory_use}
use sqlite_wasm.Sqlite.Methods.{bind-Goes, step-Goes, free-Goes}
use sqlite_wasm.Sqlite.Machine.{Machine, record_call, on_statement, get_value}
use sqlite_wasm.Sqlite.Database.{
  set_statement, make_statement, is_given, checked, bind_new, prepared_at, prepare, free_statement,
  step_and_free, run,
}
use sqlite_wasm.Sqlite.Table.{
  in_use, Keeps, Keeps-trans, Keeps-same, Holds, on_statement-Keeps, record_call-Keeps, chain,
  after-Keeps, choose-Keeps, checked-Keeps, if_open-Keeps,
}

module _ (E : Engine) (p : ℕ) where
  bind_new-Keeps : (params : BindParams) (i : ℕ) → Holds E p (bind_new E params i)
  unfolding bind_new
  bind_new-Keeps params i s = choose-Keeps E p (is_undefined params) s _ _ (Keeps-same E p s) (
      chain E p (on_statement i (bind E params)) (λ done. give tt)
        (on_statement-Keeps E p i (bind E params) (bind-Goes E params)) (λ done t. Keeps-same E p t)
        s)

  make_statement-Keeps : (ptr : ℕ) → Holds E p (make_statement ptr)
  unfolding make_statement Keeps in_use
  make_statement-Keeps ptr s d = (d, refl)

  set_statement-Keeps : (ptr i : ℕ) (s : Machine) → Keeps E p s (set_statement ptr i s)
  unfolding set_statement Keeps in_use
  set_statement-Keeps ptr i s d = (d, refl)

  prepared_at-Keeps : (params : BindParams) (ptr : ℕ) → Holds E p (prepared_at E params ptr)
  unfolding prepared_at
  prepared_at-Keeps params ptr s = choose-Keeps E p (eqb ptr 0) s _ _ (Keeps-same E p s) (
      chain E p (make_statement ptr)
        (λ i. bind_new E params i >> (modify (set_statement ptr i) >> give i))
        (make_statement-Keeps ptr)
        (λ i.
          chain E p (bind_new E params i) (λ u. modify (set_statement ptr i) >> give i)
            (bind_new-Keeps params i) (λ u. set_statement-Keeps ptr i))
        s)

  get_value-Keeps : (ptr : ℕ) → Holds E p (get_value E ptr)
  unfolding get_value
  get_value-Keeps ptr s = Keeps-same E p s

  pub prepare-Keeps : (sql : String) (params : BindParams) → Holds E p (prepare E sql params)
  unfolding prepare memory_use
  prepare-Keeps sql params =
      let m = get_value E E.temp_int32 >>= prepared_at E params in
      after-Keeps E p (record_call (set_value E.temp_int32 0))
        (checked E (λ db. sqlite3_prepare_v2 db sql) >> m)
        (record_call-Keeps E p (set_value E.temp_int32 0) refl)
        (chain E p (checked E (λ db. sqlite3_prepare_v2 db sql)) (λ u. m)
          (checked-Keeps E p (λ db. sqlite3_prepare_v2 db sql) (λ db. refl))
          (λ u.
            chain E p (get_value E E.temp_int32) (prepared_at E params)
              (get_value-Keeps E.temp_int32) (prepared_at-Keeps params)))

  pub free_statement-Keeps : (i : ℕ) (s : Machine) → Keeps E p s (free_statement E i s)
  unfolding free_statement
  free_statement-Keeps i s = on_statement-Keeps E p i (free E) (free-Goes E) s

  step_and_free-Keeps : (i : ℕ) → Holds E p (step_and_free E i)
  unfolding step_and_free
  step_and_free-Keeps i =
      moves-finally (Keeps E p) (Keeps-trans E p) (on_statement i (step E)) (free_statement E i)
        (on_statement-Keeps E p i (step E) (step-Goes E)) (free_statement-Keeps i)

  prepare_and_step-Keeps :
      (sql : String) (params : BindParams)
      → Holds E p (prepare E sql params >>= step_and_free E >>= λ stepped. give tt)
  prepare_and_step-Keeps sql params =
      chain E p (prepare E sql params >>= step_and_free E) (λ stepped. give tt)
        (chain E p (prepare E sql params) (step_and_free E) (prepare-Keeps sql params)
          step_and_free-Keeps)
        (λ b. Keeps-same E p)

  pub run-Keeps : (sql : String) (params : BindParams) → Holds E p (run E sql params)
  unfolding run memory_use
  run-Keeps sql params = if_open-Keeps E p database_closed _ (
      if_elim (λ (m : Action Machine Unit). Holds E p m) (is_given params)
        (λ h. prepare_and_step-Keeps sql params)
        (λ h. checked-Keeps E p (λ db. sqlite3_exec db sql) (λ db. refl)))
