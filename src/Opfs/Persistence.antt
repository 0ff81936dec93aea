-- ===== src/Opfs/Persistence.antt =====
-- The class `FilePersistence` of opfs.ts: when a database lets go of its file.
use sqlite_wasm.Prelude.{
  ℕ, ◌+◌, ◌≡◌, refl, ◌∙◌, Option, none, some, List, [], ◌∷◌, Bool, true, false, if◌then◌else◌,
  arith,
}

-- `released` is how often `release` was called.
pub record FilePersistence (E : Type 0) : Type 0 where
  pub closed : Bool
  pub error : Option E
  pub released : ℕ

-- What `db.detachFile()` does: it throws, or returns the error that the last try at storing had.
pub data Detached (E : Type 0) : Type 0 where
  threw : E → Detached E
  detached : Option E → Detached E

module _ {E : Type 0} where
  unfoldable pub create : FilePersistence E
  create = record { closed = false; error = none; released = 0 }

  -- `flush`: what it throws, where `stored` is what `db.storeFile()` throws
  unfoldable pub flush : Option E → FilePersistence E → Option E
  flush stored p = if p.closed then p.error else stored

  unfoldable pub close : FilePersistence E → FilePersistence E
  close p = record {
    closed = true;
    error = p.error;
    released = if p.closed then p.released else p.released + 1;
  }

  unfoldable pub kept_error : Option E → Option E → Option E
  kept_error none error = error
  kept_error (some e) error = some e

  unfoldable pub closing : Option E → FilePersistence E → FilePersistence E
  unfolding kept_error
  closing stored p = record p { error = if p.closed then p.error else kept_error stored p.error }

  -- `detach`, which throws where `detachFile` does
  unfoldable pub detach : Detached E → FilePersistence E → FilePersistence E
  unfolding close
  detach (threw e) p = p
  detach (detached error) p = close (record p { error = if p.closed then p.error else error })

-- The calls that a database makes, with what it answers to each.
pub data Call (E : Type 0) : Type 0 where
  flushes : Option E → Call E
  detaches : Detached E → Call E
  is_closing : Option E → Call E
  closes : Call E

module _ {E : Type 0} where
  unfoldable pub called : Call E → FilePersistence E → FilePersistence E
  unfolding flush detach closing close
  called (flushes stored) p = p
  called (detaches d) p = detach d p
  called (is_closing stored) p = closing stored p
  called closes p = close p

  unfoldable pub run : List (Call E) → FilePersistence E → FilePersistence E
  unfolding called
  run [] p = p
  run (c ∷ calls) p = run calls (called c p)

  abbrev IsReleased : FilePersistence E → Type 0
  IsReleased p = p.released ≡ (if p.closed then 1 else 0)

  called-IsReleased : (c : Call E) (p : FilePersistence E) → IsReleased p → IsReleased (called c p)
  unfolding called flush detach closing close
  called-IsReleased (flushes stored) p h = h
  called-IsReleased (detaches (threw e)) p h = h
  called-IsReleased (detaches (detached error)) p h = ground (arith, h)
  called-IsReleased (is_closing stored) p h = h
  called-IsReleased closes p h = ground (arith, h)

  run-IsReleased :
      (calls : List (Call E)) (p : FilePersistence E) → IsReleased p → IsReleased (run calls p)
  unfolding run
  run-IsReleased [] p h = h
  run-IsReleased (c ∷ calls) p h = run-IsReleased calls (called c p) (called-IsReleased c p h)

  called-closed :
      (c : Call E) (p : FilePersistence E)
      → p.closed ≡ true
      → ((called c p).closed ≡ true) × ((called c p).error ≡ p.error)
  unfolding called flush detach closing close
  called-closed (flushes stored) p h = (h, refl)
  called-closed (detaches (threw e)) p h = (h, refl)
  called-closed (detaches (detached error)) p h = (refl, ground (arith, h))
  called-closed (is_closing stored) p h = (h, ground (arith, h))
  called-closed closes p h = (refl, refl)

  run-closed :
      (calls : List (Call E)) (p : FilePersistence E)
      → p.closed ≡ true
      → ((run calls p).closed ≡ true) × ((run calls p).error ≡ p.error)
  unfolding run
  run-closed [] p h = (h, refl)
  run-closed (c ∷ calls) p h =
      let (still, same) = called-closed c p h in
      let (end, rest) = run-closed calls (called c p) still in (end, rest ∙ same)

  -- Whatever a database calls, in any order and whatever it answers: once the persistence is closed,
  -- the file was released once, and whatever is called after, it is not released again, and every
  -- flush throws the same: the error that was kept when it closed, if any.
  pub run-once :
      (before after : List (Call E)) (stored : Option E)
      → (run before create).closed ≡ true
      → ((run before create).released ≡ 1)
        × ((run after (run before create)).released ≡ 1)
        × (flush stored (run after (run before create)) ≡ (run before create).error)
  unfolding flush
  run-once before after stored closed =
      let once = run-IsReleased before create (unfold create in refl) in
      let (still, same) = run-closed after (run before create) closed in
      let later = run-IsReleased after (run before create) once in
      (ground (arith, once, closed), ground (arith, later, still), ground (arith, still, same))
