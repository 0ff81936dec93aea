-- ===== src/Sqlite/Hooks.antt =====
-- The listeners and hooks of the class `Database`, with the functions in the table of the Wasm module.
use sqlite_wasm.Prelude.{
  ℕ, ◌+◌, ◌≡◌, refl, Option, none, some, List, ◌∷◌, eqb, if◌then◌else◌, if_elim, arith, string_eq,
}
use sqlite_wasm.Sqlite.Wasm.{
  Engine, Call, add_function, sqlite3_errstr, alinea_persist, alinea_persist_all,
}
use sqlite_wasm.Sqlite.Actions.{after, modify, ◌>>=◌, database_closed}
use sqlite_wasm.Sqlite.Moves.{memory_use}
use sqlite_wasm.Sqlite.Machine.{
  Machine, Watch, Notice, notice_close, notice_detach, record_call, notify, call, succeed,
  throw_code, on_db,
}
use sqlite_wasm.Sqlite.Database.{
  is_there, add_listener, set_watch, unwatch, make_watch, watch_or, watch_commits, remove_listener,
  set_listener, tracked, on_commit, persist_all, stop_at, stop_commits, detach_memory, detach,
  stop_watch, unwatched,
}
use sqlite_wasm.Sqlite.Table.{
  times_added, times_removed, added_by, removed_by, in_listener, in_watch, in_use, Keeps,
  Keeps-trans, Keeps-same, Holds, record_call-Keeps, chain, choose-Keeps, on_db-Keeps,
  if_open-Keeps,
}

module _ (E : Engine) (p : ℕ) where
  watched-Keeps :
      (n : ℕ) (w : Option Watch) (s : Machine)
      → s.commit_watch ≡ w
      → Keeps E p s
          (after ((watch_or E w >>= λ watch. modify (set_watch (some (add_listener n watch)))) s))
  unfolding watch_or make_watch call record_call set_watch add_listener Keeps in_use in_watch
      times_added times_removed memory_use added_by removed_by
  watched-Keeps n none s h d = (d, ground arith)
  watched-Keeps n (some w) s h d = (d, ground arith)

  pub watch_commits-Keeps : (n : ℕ) → Holds E p (watch_commits E n)
  unfolding watch_commits
  watch_commits-Keeps n =
      if_open-Keeps E p database_closed _ (λ s. watched-Keeps n s.commit_watch s refl)

  pub unwatch-Keeps :
      (n : ℕ) (w : Option Watch) (s : Machine)
      → s.commit_watch ≡ w
      → Keeps E p s (set_watch (unwatched n w) s)
  unfolding set_watch unwatched unwatch Keeps in_use in_watch
  unwatch-Keeps n none s h d = (d, ground arith)
  unwatch-Keeps n (some w) s h d = (d, ground arith)

  -- A callback that was added is removed, or takes the place of the listener, which is removed.
  tracked-Keeps :
      (callback size : ℕ) (s : Machine) (calls : List Call)
      → times_added E p calls ≡ (if eqb callback p then 1 else 0) + times_added E p s.world.calls
      → times_removed p calls ≡ times_removed p s.world.calls
      → (l : Option ℕ) → s.commit_listener ≡ l
      → Keeps E p s
          (after (tracked callback size (record s { world = record s.world { calls = calls } })))
  unfolding tracked record_call remove_listener set_listener Keeps in_use in_listener times_added
      times_removed memory_use added_by removed_by
  tracked-Keeps callback size s calls h k none e =
      choose-Keeps E p (eqb size 0) s _ _ (λ d. (d, ground arith)) (λ d. rw e (d, ground arith))
  tracked-Keeps callback size s calls h k (some q) e =
      choose-Keeps E p (eqb size 0) s _ _ (λ d. (d, ground arith)) (λ d. rw e (d, ground arith))

  pub on_commit-Keeps : Holds E p (on_commit E)
  unfolding on_commit call on_db record_call times_added times_removed memory_use added_by
      removed_by
  on_commit-Keeps s =
      let added = add_function ∷ s.world.calls in
      let calls = alinea_persist s.world.db_ptr (E.answer added) ∷ added in
      tracked-Keeps (E.answer added) (E.answer calls) s calls (omega arith) (omega arith)
        s.commit_listener refl

  succeed-Keeps : (code : ℕ) → Holds E p (succeed E code)
  unfolding succeed throw_code memory_use
  succeed-Keeps code s =
      choose-Keeps E p (eqb code 0) s _ _ (Keeps-same E p s)
        (record_call-Keeps E p (sqlite3_errstr code) refl s)

  pub persist_all-Keeps : Holds E p (persist_all E)
  unfolding persist_all memory_use
  persist_all-Keeps =
      chain E p (on_db E alinea_persist_all) (succeed E)
        (on_db-Keeps E p alinea_persist_all (λ db. refl)) succeed-Keeps

  pub notify-Keeps : (n : Notice) (s : Machine) → Keeps E p s (notify n s)
  unfolding notify Keeps in_use
  notify-Keeps n s d = (d, refl)

  stop_at-Keeps : (l : Option ℕ) (s : Machine) → s.commit_listener ≡ l → Keeps E p s (stop_at l s)
  unfolding stop_at record_call set_listener Keeps in_use in_listener times_added times_removed
      memory_use added_by removed_by
  stop_at-Keeps none s e d = (d, refl)
  stop_at-Keeps (some q) s e d = (d, rw e (ground arith))

  pub stop_commits-Keeps : (s : Machine) → Keeps E p s (stop_commits s)
  unfolding stop_commits
  stop_commits-Keeps s = stop_at-Keeps s.commit_listener s refl

  detach_memory-Keeps : (l : Option ℕ) (s : Machine) → Keeps E p s (detach_memory l s)
  unfolding detach_memory
  detach_memory-Keeps none s = Keeps-same E p s
  detach_memory-Keeps (some q) s =
      Keeps-trans E p s (stop_commits s) (notify notice_close (stop_commits s))
        (stop_commits-Keeps s) (notify-Keeps notice_close (stop_commits s))

  pub detach-Keeps : (s : Machine) → Keeps E p s (detach s)
  unfolding detach
  detach-Keeps s =
      if_elim (Keeps E p s) (is_there s.file) (λ h. notify-Keeps notice_detach s)
        (λ h. detach_memory-Keeps s.commit_listener s)

  pub stop_watch-Keeps :
      (w : Option Watch) (s : Machine) → s.commit_watch ≡ w → Keeps E p s (stop_watch w s)
  unfolding stop_watch record_call set_watch Keeps in_use in_watch times_added times_removed
      memory_use added_by removed_by
  stop_watch-Keeps none s e d = (d, refl)
  stop_watch-Keeps (some q) s e d = (d, rw e (ground arith))
