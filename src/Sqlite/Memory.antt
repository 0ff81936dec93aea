-- ===== src/Sqlite/Memory.antt =====
-- The memory that bound parameters take, over all sequences of calls on a statement of Statement.ts.
use sqlite_wasm.Prelude.{
  ℕ, suc, ◌+◌, ◌≡◌, refl, ◌≢◌, ap, Bool, List, [], ◌∷◌, eqb, eqb_iff, if◌then◌else◌, arith, All,
}
use sqlite_wasm.Sqlite.Wasm.{Engine, Call, malloc, free_memory}
use sqlite_wasm.Sqlite.Binding.{
  Scope, World, new_statement, set_pos, set_names, push_memory, log, free_all, freemem, answered,
  ask,
}
use sqlite_wasm.Sqlite.Statement.{
  forget, free, on_stmt, Method, call_step, call_get_column_names, call_reset, call_freemem,
  call_free, call_bind, call_get, call_get_as_object, call_run, perform, perform_all,
}
use sqlite_wasm.Sqlite.Moves.{
  memory_use, MemoryUse, takes, gives, Move, Moves, called, placed, named, taken, freed, dropped,
  forgot, start, more, Moves-trans, freemem-Moves,
}
use sqlite_wasm.Sqlite.Methods.{
  bind-Goes, step-Goes, get-Goes, get_as_object-Goes, get_column_names-Goes, run-Goes, reset-Goes,
  free-Goes,
}

abbrev pub count_if : Bool → ℕ → ℕ
count_if b n = if b then suc n else n

-- How often a pointer is in a list
unfoldable pub held : ℕ → List ℕ → ℕ
held p [] = 0
held p (q ∷ mem) = count_if (eqb q p) (held p mem)

unfoldable pub taken_by : MemoryUse → ℕ → ℕ → ℕ
taken_by takes answer p = if eqb answer p then 1 else 0
taken_by kind answer p = 0

unfoldable pub freed_by : MemoryUse → ℕ → ℕ
freed_by (gives q) p = if eqb q p then 1 else 0
freed_by kind p = 0

-- How often `_malloc` answered a pointer, and how often it was given to `_free`
unfoldable pub times_taken : Engine → ℕ → List Call → ℕ
unfolding taken_by memory_use
times_taken E p [] = 0
times_taken E p (c ∷ calls) =
    taken_by (memory_use c) (E.answer (c ∷ calls)) p + times_taken E p calls

unfoldable pub times_freed : ℕ → List Call → ℕ
unfolding freed_by memory_use
times_freed p [] = 0
times_freed p (c ∷ calls) = freed_by (memory_use c) p + times_freed p calls

module _ (E : Engine) where
  pub perform-Moves : (m : Method) (s : Scope) → Moves E s (perform E m s)
  unfolding perform
  perform-Moves (call_bind params) = bind-Goes E params
  perform-Moves call_step = step-Goes E
  perform-Moves (call_get params) = get-Goes E params
  perform-Moves (call_get_as_object params) = get_as_object-Goes E params
  perform-Moves call_get_column_names = get_column_names-Goes E
  perform-Moves (call_run params) = run-Goes E params
  perform-Moves call_reset = reset-Goes E
  perform-Moves call_freemem = freemem-Moves E
  perform-Moves call_free = free-Goes E

  pub perform_all-Moves : (ms : List Method) (s : Scope) → Moves E s (perform_all E ms s)
  unfolding perform_all
  perform_all-Moves [] s = start
  perform_all-Moves (m ∷ ms) s =
      Moves-trans E s (perform E m s) (perform_all E ms (perform E m s)) (perform-Moves m s)
        (perform_all-Moves ms (perform E m s))

  -- The calls since one state have taken what they freed, and what is held more than before.
  Balanced : ℕ → Scope → Scope → Type 0
  Balanced p s t =
      times_taken E p t.world.calls + (times_freed p s.world.calls + held p s.self.allocatedmem)
      ≡ times_taken E p s.world.calls + (times_freed p t.world.calls + held p t.self.allocatedmem)

  Move-Balanced : (p : ℕ) → p ≢ 0 → (s t : Scope) → Move E s t → Balanced p s t
  unfolding times_taken times_freed memory_use taken_by freed_by held Balanced log set_pos set_names
      push_memory answered forget
  Move-Balanced p h _ _ (called s c e) = rw e (omega arith)
  Move-Balanced p h _ _ (placed s pos) = refl
  Move-Balanced p h _ _ (named s names) = refl
  Move-Balanced p h _ _ (taken s n) = ground arith
  Move-Balanced p h _ _ (freed s q mem calls e) = ground arith
  Move-Balanced p h _ _ (dropped s mem calls) = ground (arith, eqb_iff 0 p)
  Move-Balanced p h _ _ (forgot s) = refl

  Moves-Balanced : (p : ℕ) → p ≢ 0 → (s t : Scope) → Moves E s t → Balanced p s t
  unfolding Balanced
  Moves-Balanced p h s _ start = refl
  Moves-Balanced p h s u (more {t = t} m ms) =
      omega (arith, Move-Balanced p h s t m, Moves-Balanced p h t u ms)

  -- `_malloc` never answers NULL.
  abbrev pub NeverNull : Type 0
  NeverNull = (n : ℕ) (calls : List Call) → E.answer (malloc n ∷ calls) ≢ 0

  abbrev NoNull : Scope → Type 0
  NoNull s = All (λ p. p ≢ 0) s.self.allocatedmem

  Move-NoNull : NeverNull → (s t : Scope) → Move E s t → NoNull s → NoNull t
  unfolding log set_pos set_names push_memory answered forget
  Move-NoNull k _ _ (called s c e) h = h
  Move-NoNull k _ _ (placed s pos) h = h
  Move-NoNull k _ _ (named s names) h = h
  Move-NoNull k _ _ (taken s n) h = (k n s.world.calls, h)
  Move-NoNull k _ _ (freed s q mem calls e) h = h.1
  Move-NoNull k _ _ (dropped s mem calls) h = h.1
  Move-NoNull k _ _ (forgot s) h = h

  Moves-NoNull : NeverNull → (s t : Scope) → Moves E s t → NoNull s → NoNull t
  Moves-NoNull k s _ start h = h
  Moves-NoNull k s u (more {t = t} m ms) h = Moves-NoNull k t u ms (Move-NoNull k s t m h)

free_all-empties :
    (mem : List ℕ) (calls : List Call) → All (λ p. p ≢ 0) mem → (free_all mem calls).0 ≡ []
unfolding free_all
free_all-empties [] calls h = refl
free_all-empties (p ∷ mem) calls h =
    ground (arith, eqb_iff p 0, h.0, free_all-empties mem (free_memory p ∷ calls) h.1)

-- A new statement in a world
abbrev pub prepared : ℕ → World → Scope
prepared ptr w = record { self = new_statement ptr; world = w }

module _ (E : Engine) where
  -- Whatever methods of a new statement are called, also when they throw, each pointer but NULL was
  -- freed as often as it was allocated, up to those that the statement still holds.
  pub perform_all-Balanced :
      (ptr : ℕ) (w : World) (ms : List Method) (p : ℕ)
      → p ≢ 0
      → let t = perform_all E ms (prepared ptr w) in
        times_taken E p t.world.calls + times_freed p w.calls
        ≡ times_taken E p w.calls + (times_freed p t.world.calls + held p t.self.allocatedmem)
  unfolding Balanced new_statement held
  perform_all-Balanced ptr w ms p h = omega (
    arith,
    Moves-Balanced E p h (prepared ptr w) (perform_all E ms (prepared ptr w))
        (perform_all-Moves E ms (prepared ptr w)),
  )

  free-empties :
      (s : Scope)
      → All (λ p. p ≢ 0) s.self.allocatedmem
      → (perform E call_free s).self.allocatedmem ≡ []
  unfolding perform free freemem on_stmt ask log forget
  free-empties s h = free_all-empties s.self.allocatedmem s.world.calls h

  -- When `_malloc` never answers NULL, a statement that is freed, whatever was called before, holds no
  -- memory any more, and each pointer was freed as often as it was allocated.
  pub freed_at_free :
      NeverNull E
      → (ptr : ℕ) (w : World) (ms : List Method) (p : ℕ) → p ≢ 0
      → let t = perform E call_free (perform_all E ms (prepared ptr w)) in
        (t.self.allocatedmem ≡ [])
        × (times_taken E p t.world.calls + times_freed p w.calls
            ≡ times_taken E p w.calls + times_freed p t.world.calls)
  unfolding Balanced new_statement held
  freed_at_free k ptr w ms p h =
      let s = prepared ptr w in
      let t = perform_all E ms s in
      let u = perform E call_free t in
      let goes = perform_all-Moves E ms s in
      let ends = perform-Moves E call_free t in
      let empties = free-empties t (Moves-NoNull E k s t goes tt) in
      let nothing : held p u.self.allocatedmem ≡ 0 = ap (held p) empties in
      (
        empties,
        omega (arith, nothing, Moves-Balanced E p h s t goes, Moves-Balanced E p h t u ends),
      )
