-- ===== src/Sqlite/Errors.antt =====
-- What the methods of Statement.ts throw once a statement is closed.
use sqlite_wasm.Prelude.{◌≡◌, refl, ap, ◌∙◌, true, false, List, [], eqb_iff, if◌then◌else◌}
use sqlite_wasm.Sqlite.Wasm.{Engine, sqlite3_step, sqlite3_data_count}
use sqlite_wasm.Sqlite.Actions.{
  Action, Failure, returned, thrown, give, modify, ◌>>=◌, ◌>>◌, statement_closed,
}
use sqlite_wasm.Sqlite.Binding.{
  Scope, BindParams, is_undefined, set_pos, set_names, push_memory, log, ask, freemem, answered,
}
use sqlite_wasm.Sqlite.Statement.{
  Method, call_free, perform, perform_all, bind, step, get, get_as_object, run, free, forget,
  if_open, step_with, bind_if, bind_params, step_result, reset, columns_from, cached_column_names,
  row_from, on_stmt,
}
use sqlite_wasm.Sqlite.Moves.{
  Move, Moves, called, placed, named, taken, freed, dropped, forgot, start, more,
}
use sqlite_wasm.Sqlite.Memory.{perform_all-Moves}

-- What throws first, throws.
chain_thrown :
    {S A B : Type 0} (m : Action S A) (f : A → Action S B) (s : S) {e : Failure}
    → m s ≡ thrown e s
    → (m >>= f) s ≡ thrown e s
chain_thrown m f s h = ap (λ o. elim o [ returned a t ↦ f a t | thrown e t ↦ thrown e t ]) h

module _ (E : Engine) where
  Move-closed : (s t : Scope) → Move E s t → s.self.stmt ≡ 0 → t.self.stmt ≡ 0
  unfolding log set_pos set_names push_memory answered forget
  Move-closed _ _ (called s c e) h = h
  Move-closed _ _ (placed s pos) h = h
  Move-closed _ _ (named s names) h = h
  Move-closed _ _ (taken s n) h = h
  Move-closed _ _ (freed s q mem calls e) h = h
  Move-closed _ _ (dropped s mem calls) h = h
  Move-closed _ _ (forgot s) h = refl

  Moves-closed : (s t : Scope) → Moves E s t → s.self.stmt ≡ 0 → t.self.stmt ≡ 0
  Moves-closed s _ start h = h
  Moves-closed s u (more {t = t} m ms) h = Moves-closed t u ms (Move-closed s t m h)

  free_closes : (s : Scope) → (perform E call_free s).self.stmt ≡ 0
  unfolding perform free freemem on_stmt ask log forget
  free_closes s = refl

  if_open-closed :
      {A : Type 0} (m : Action Scope A) (t : Scope)
      → t.self.stmt ≡ 0
      → if_open E m t ≡ thrown statement_closed t
  unfolding if_open
  if_open-closed m t h =
      ap (λ b. if b then thrown statement_closed t else m t) ((eqb_iff t.self.stmt 0).1 h)

  step-closed : (t : Scope) → t.self.stmt ≡ 0 → step E t ≡ thrown statement_closed t
  unfolding step
  step-closed =
      if_open-closed (modify (set_pos 1) >> (on_stmt E sqlite3_step >>= λ code. step_result E code))

  bind-closed :
      (params : BindParams) (t : Scope)
      → t.self.stmt ≡ 0
      → bind E params t ≡ thrown statement_closed t
  unfolding bind
  bind-closed params = if_open-closed (reset E >>= λ done. bind_params E params >> give true)

  step_with-closed :
      (params : BindParams) (t : Scope)
      → t.self.stmt ≡ 0
      → is_undefined params ≡ false
      → step_with E params t ≡ thrown statement_closed t
  unfolding step_with
  step_with-closed params t h k =
      let m = bind E params >>= λ bound. step E >>= λ stepped. give tt in
      ap (λ b. if b then returned tt t else m t) k
      ∙ chain_thrown (bind E params) (λ bound. step E >>= λ stepped. give tt) t
          (bind-closed params t h)

  bind_if-closed :
      (params : BindParams) (t : Scope)
      → t.self.stmt ≡ 0
      → is_undefined params ≡ false
      → bind_if E params t ≡ thrown statement_closed t
  unfolding bind_if
  bind_if-closed params t h k =
      ap (λ b. if b then returned tt t else (bind E params >> give tt) t) k
      ∙ chain_thrown (bind E params) (λ bound. give tt) t (bind-closed params t h)

  closed_throws :
      (params : BindParams) (t : Scope)
      → t.self.stmt ≡ 0
      → is_undefined params ≡ false
      → (bind E params t ≡ thrown statement_closed t)
        × ((step E t ≡ thrown statement_closed t)
            × ((run E params t ≡ thrown statement_closed t)
                × ((get E params t ≡ thrown statement_closed t)
                    × (get_as_object E params t ≡ thrown statement_closed t))))
  unfolding run get get_as_object
  closed_throws params t h k =
      let w = step_with-closed params t h k in
      (
        bind-closed params t h,
        (
          step-closed t h,
          (
            chain_thrown (bind_if E params) (λ u. step E >>= λ v. reset E >>= λ d. give tt) t
                (bind_if-closed params t h k),
            (
              chain_thrown (step_with E params)
                  (λ u. on_stmt E sqlite3_data_count >>= λ count. columns_from E count 0) t w,
              chain_thrown (step_with E params)
                  (λ u. cached_column_names E >>= λ names. row_from E names 0 []) t w,
            ),
          ),
        ),
      )

  -- After `free`, whatever else is called, each call that binds or steps throws that the statement is
  -- closed, and changes nothing: neither the statement nor the Wasm module.
  pub closed_for_good :
      (s : Scope) (ms : List Method) (params : BindParams)
      → is_undefined params ≡ false
      → let t = perform_all E ms (perform E call_free s) in
        (bind E params t ≡ thrown statement_closed t)
        × ((step E t ≡ thrown statement_closed t)
            × ((run E params t ≡ thrown statement_closed t)
                × ((get E params t ≡ thrown statement_closed t)
                    × (get_as_object E params t ≡ thrown statement_closed t))))
  closed_for_good s ms params k =
      let u = perform E call_free s in
      closed_throws params (perform_all E ms u)
        (Moves-closed u (perform_all E ms u) (perform_all-Moves E ms u) (free_closes s)) k
