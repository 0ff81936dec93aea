-- ===== src/Sqlite/Database.antt =====
-- The class `Database` of Database.ts: its statements, its listeners and its functions.
use sqlite_wasm.Prelude.{
  ℕ, ◌+◌, String, Bool, true, false, not, Option, none, some, List, [], ◌∷◌, ◌++◌, eqb, ltb, any,
  keep, Bytes, slice, length, if◌then◌else◌, string_eq,
}
use sqlite_wasm.JsMap
use sqlite_wasm.JsMap.{JsMap}
use sqlite_wasm.Sqlite.Wasm.{
  Engine, Call, sqlite3_prepare_v2, sqlite3_exec, sqlite3_close_v2, sqlite3_commit_hook,
  sqlite3_create_function_v2, sqlite3_free, alinea_persist, alinea_persist_all, alinea_serialize,
  add_function, remove_function, set_value,
}
use sqlite_wasm.Sqlite.Actions.{
  Action, returned, thrown, give, modify, attempt, finally, ◌>>=◌, ◌>>◌, database_closed,
  nothing_to_prepare, unable_to_track, unable_to_serialize,
}
use sqlite_wasm.Sqlite.Binding.{
  BindParams, undefined_params, null_params, is_undefined, new_statement,
}
use sqlite_wasm.Sqlite.Statement.{bind, step, free, Method, perform}
use sqlite_wasm.Sqlite.Machine.{
  Machine, Watch, notice_close, notice_closing, notice_detach, record_call, set_db, notify,
  on_statement, call, get_value, handle_error, succeed, if_open, on_db,
}

unfoldable pub is_there {ℓ} : {A : Type ℓ} → Option A → Bool
is_there none = false
is_there (some a) = true

-- `this.statements[ptr] = stmt`; the keys are numbers, which an object keeps in order.
unfoldable pub put_in_order : JsMap ℕ ℕ → ℕ → ℕ → JsMap ℕ ℕ
put_in_order [] k v = (k, v) ∷ []
put_in_order ((j, w) ∷ m) k v =
    let rest = put_in_order m k v in
    if eqb j k then (k, v) ∷ m else if ltb k j then (k, v) ∷ (j, w) ∷ m else (j, w) ∷ rest

unfoldable pub set_statement : ℕ → ℕ → Machine → Machine
unfolding put_in_order
set_statement ptr i s = record s {
  world = record s.world { statements = put_in_order s.world.statements ptr i };
}

-- `new Statement(ptr, this)`, and its number
unfoldable pub make_statement : ℕ → Action Machine ℕ
unfolding new_statement
make_statement ptr s =
    returned (length s.objects) (record s { objects = s.objects ++ (new_statement ptr ∷ []) })

-- `if (params)`
unfoldable pub is_given : BindParams → Bool
is_given undefined_params = false
is_given null_params = false
is_given params = true

unfoldable pub includes_number : List ℕ → ℕ → Bool
includes_number ns n = any (eqb n) ns

-- A set keeps the place of what it has.
unfoldable pub add_listener : ℕ → Watch → Watch
unfolding includes_number
add_listener n w = record w {
  listeners = if includes_number w.listeners n then w.listeners else w.listeners ++ (n ∷ []);
}

unfoldable pub set_watch : Option Watch → Machine → Machine
set_watch w s = record s { commit_watch = w }

-- The function that `watchCommits` returns
unfoldable pub unwatch : ℕ → Watch → Watch
unwatch n w = record w { listeners = keep (λ m. not (eqb n m)) w.listeners }

-- The callback of `watchCommits`: `listen` is what each listener does to a state of its own.
unfoldable pub call_listeners : {S : Type 0} → (ℕ → Action S Unit) → List ℕ → S → S
call_listeners listen [] s = s
call_listeners listen (n ∷ ns) s = call_listeners listen ns (attempt (listen n) s)

-- `if (this.commitListener) removeFunction(this.commitListener)`
unfoldable pub remove_listener : Option ℕ → Machine → Machine
unfolding record_call
remove_listener none s = s
remove_listener (some ptr) s = record_call (remove_function ptr) s

unfoldable pub set_listener : Option ℕ → Machine → Machine
set_listener ptr s = record s { commit_listener = ptr }

unfoldable pub stop_at : Option ℕ → Machine → Machine
unfolding record_call set_listener
stop_at none s = s
stop_at (some ptr) s =
    set_listener none
      (record_call (remove_function ptr) (record_call (alinea_persist s.world.db_ptr 0) s))

unfoldable pub stop_commits : Machine → Machine
unfolding stop_at
stop_commits s = stop_at s.commit_listener s

unfoldable pub detach_memory : Option ℕ → Machine → Machine
unfolding stop_commits notify
detach_memory none s = s
detach_memory (some ptr) s = notify notice_close (stop_commits s)

-- `detach`; every persistence of a file has the method.
unfoldable pub detach : Machine → Machine
unfolding is_there notify detach_memory
detach s = if is_there s.file then notify notice_detach s else detach_memory s.commit_listener s

unfoldable pub clear_statements : Machine → Machine
clear_statements s = record s { world = record s.world { statements = [] } }

unfoldable pub remove_functions : JsMap String ℕ → Machine → Machine
unfolding record_call
remove_functions [] s = s
remove_functions ((name, ptr) ∷ m) s = remove_functions m (record_call (remove_function ptr) s)

unfoldable pub clear_functions : Machine → Machine
clear_functions s = record s { functions = [] }

unfoldable pub stop_watch : Option Watch → Machine → Machine
unfolding record_call set_watch
stop_watch none s = s
stop_watch (some w) s =
    set_watch none (
      record_call (remove_function w.pointer)
        (record_call (sqlite3_commit_hook s.world.db_ptr 0) s))

unfoldable pub drop_function : String → Option ℕ → Machine → Machine
unfolding record_call
drop_function name none s = s
drop_function name (some ptr) s =
    let t = record_call (remove_function ptr) s in
    record t { functions = JsMap.delete t.functions name }

unfoldable pub set_function : String → ℕ → Machine → Machine
set_function name ptr s = record s { functions = JsMap.set s.functions name ptr }

unfoldable pub tracked : ℕ → ℕ → Action Machine ℕ
unfolding record_call remove_listener set_listener
tracked callback chunk_size s =
    if eqb chunk_size 0
    then thrown unable_to_track (record_call (remove_function callback) s)
    else returned chunk_size (set_listener (some callback) (remove_listener s.commit_listener s))

module _ (E : Engine) where
  unfoldable pub checked : (ℕ → Call) → Action Machine Unit
  unfolding on_db handle_error
  checked c = on_db E c >>= handle_error E

  unfoldable pub bind_new : BindParams → ℕ → Action Machine Unit
  unfolding is_undefined on_statement bind
  bind_new params i s =
      if is_undefined params
      then returned tt s
      else (on_statement i (bind E params) >>= λ done. give tt) s

  -- The end of `prepare`, with the pointer of the statement
  unfoldable pub prepared_at : BindParams → ℕ → Action Machine ℕ
  unfolding make_statement bind_new set_statement
  prepared_at params ptr s =
      if eqb ptr 0
      then thrown nothing_to_prepare s
      else (do i ← make_statement ptr; bind_new params i; modify (set_statement ptr i); give i) s

  unfoldable pub prepare : String → BindParams → Action Machine ℕ
  unfolding record_call checked get_value prepared_at
  prepare sql params = do
    modify (record_call (set_value E.temp_int32 0))
    checked (λ db. sqlite3_prepare_v2 db sql)
    ptr ← get_value E E.temp_int32
    prepared_at params ptr

  unfoldable pub free_statement : ℕ → Machine → Machine
  unfolding on_statement free
  free_statement i = attempt (on_statement i (free E))

  -- `try { stmt.step() } finally { stmt.free() }`
  unfoldable pub step_and_free : ℕ → Action Machine Bool
  unfolding on_statement step free_statement
  step_and_free i = finally (free_statement i) (on_statement i (step E))

  unfoldable pub run : String → BindParams → Action Machine Unit
  unfolding if_open is_given prepare step_and_free checked
  run sql params = if_open E database_closed (
      if is_given params
      then (prepare sql params >>= step_and_free >>= λ stepped. give tt)
      else checked (λ db. sqlite3_exec db sql))

  unfoldable pub make_watch : Action Machine Watch
  unfolding call record_call set_watch
  make_watch = do
    ptr ← call E add_function
    let watch : Watch = record { pointer = ptr; listeners = [] }
    modify (λ s. record_call (sqlite3_commit_hook s.world.db_ptr ptr) s)
    give watch

  unfoldable pub watch_or : Option Watch → Action Machine Watch
  unfolding make_watch
  watch_or none = make_watch
  watch_or (some watch) = give watch

  unfoldable pub watch_commits : ℕ → Action Machine Unit
  unfolding if_open watch_or add_listener set_watch
  watch_commits listener = if_open E database_closed (do
    watch ← (λ s. watch_or s.commit_watch s)
    modify (set_watch (some (add_listener listener watch))))

  unfoldable pub on_commit : Action Machine ℕ
  unfolding call on_db tracked
  on_commit = do
    callback ← call E add_function
    chunk_size ← on_db E (λ db. alinea_persist db callback)
    tracked callback chunk_size

  unfoldable pub persist_all : Action Machine Unit
  unfolding on_db succeed
  persist_all = on_db E alinea_persist_all >>= succeed E

  unfoldable pub free_statements : JsMap ℕ ℕ → Machine → Machine
  unfolding free_statement
  free_statements [] s = s
  free_statements ((ptr, i) ∷ m) s = free_statements m (free_statement i s)

  -- `_close` up to the call that closes
  unfoldable pub release_all : Machine → Machine
  unfolding free_statements clear_statements remove_functions clear_functions stop_commits
      stop_watch notify
  release_all s =
      let freed = clear_statements (free_statements s.world.statements s) in
      let removed = clear_functions (remove_functions freed.functions freed) in
      let stopped = stop_commits removed in
      notify notice_closing (stop_watch stopped.commit_watch stopped)

  unfoldable pub close_inner : Action Machine Unit
  unfolding release_all checked notify
  close_inner = do modify release_all; finally (notify notice_close) (checked sqlite3_close_v2)

  unfoldable pub close : Action Machine Unit
  unfolding close_inner set_db
  close = close_inner >> modify (set_db 0)

  -- The bytes that `export` copies before it frees them
  unfoldable pub exported : ℕ → Action Machine Bytes
  unfolding record_call get_value
  exported ptr s =
      if eqb ptr 0
      then thrown unable_to_serialize s
      else (do
        size ← get_value E E.temp_int32
        λ t.
            returned (slice (E.heap t.world.calls) ptr (ptr + size))
              (record_call (sqlite3_free ptr) t))
          s

  unfoldable pub export : Action Machine Bytes
  unfolding if_open on_db exported
  export = if_open E database_closed (on_db E alinea_serialize >>= exported)

  -- `create_function`, of a function of `arity` parameters; its table holds what was put there.
  unfoldable pub create_function : String → ℕ → Action Machine Unit
  unfolding drop_function call set_function checked
  create_function name arity = do
    modify (λ s. drop_function name (JsMap.get s.functions name) s)
    ptr ← call E add_function
    modify (set_function name ptr)
    checked (λ db. sqlite3_create_function_v2 db name arity ptr)

-- A call of one of the methods, on a statement by its number
pub data Operation : Type 0 where
  op_prepare op_run : String → BindParams → Operation
  op_statement : ℕ → Method → Operation
  op_watch op_unwatch : ℕ → Operation
  op_create : String → ℕ → Operation
  op_on_commit op_persist_all op_detach op_export op_close : Operation

unfoldable pub unwatched : ℕ → Option Watch → Option Watch
unfolding unwatch
unwatched n none = none
unwatched n (some w) = some (unwatch n w)

module _ (E : Engine) where
  -- A call whose caller catches what it throws
  unfoldable pub operate : Operation → Machine → Machine
  unfolding prepare run on_statement perform watch_commits unwatched set_watch create_function
      on_commit persist_all detach export close
  operate (op_prepare sql params) = attempt (prepare E sql params)
  operate (op_run sql params) = attempt (run E sql params)
  operate (op_statement i m) = attempt (on_statement i (λ s. returned tt (perform E m s)))
  operate (op_watch n) = attempt (watch_commits E n)
  operate (op_unwatch n) = λ s. set_watch (unwatched n s.commit_watch) s
  operate (op_create name arity) = attempt (create_function E name arity)
  operate op_on_commit = attempt (on_commit E)
  operate op_persist_all = attempt (persist_all E)
  operate op_detach = detach
  operate op_export = attempt (export E)
  operate op_close = attempt (close E)

  unfoldable pub operate_all : List Operation → Machine → Machine
  unfolding operate
  operate_all [] s = s
  operate_all (o ∷ os) s = operate_all os (operate o s)
