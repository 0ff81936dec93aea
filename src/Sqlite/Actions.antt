-- ===== src/Sqlite/Actions.antt =====
-- Code with a state and exceptions: what was changed before a throw stays changed.
use sqlite_wasm.Prelude.{ℕ, String}

-- The errors that are thrown, by their texts, and a SQLiteError by its message and its code.
pub data Failure : Type 0 where
  statement_closed database_closed unknown_type nothing_to_prepare : Failure
  no_callback unable_to_track unable_to_serialize transaction_open : Failure
  by_caller : Failure
  sqlite_error : String → ℕ → Failure

pub data Outcome (S : Type 0) (A : Type 0) : Type 0 where
  returned : A → S → Outcome S A
  thrown : Failure → S → Outcome S A

abbrev pub Action : Type 0 → Type 0 → Type 0
Action S A = S → Outcome S A

abbrev pub after : {S A : Type 0} → Outcome S A → S
after (returned a s) = s
after (thrown e s) = s

infixl 5 ◌>>=◌ ◌>>◌
abbrev pub ◌>>=◌ : {S A B : Type 0} → Action S A → (A → Action S B) → Action S B
◌>>=◌ m f s = elim (m s) [ returned a t ↦ f a t | thrown e t ↦ thrown e t ]

abbrev pub ◌>>◌ : {S A B : Type 0} → Action S A → Action S B → Action S B
m >> k = m >>= λ _. k

module _ {S A : Type 0} where
  abbrev pub give : A → Action S A
  give a s = returned a s

  abbrev pub throw : Failure → Action S A
  throw e s = thrown e s

  abbrev pub finish : (S → S) → Outcome S A → Outcome S A
  finish f (returned a s) = returned a (f s)
  finish f (thrown e s) = thrown e (f s)

  -- `try { m } finally { f }`, for an `f` that does not throw
  abbrev pub finally : (S → S) → Action S A → Action S A
  finally f m s = finish f (m s)

  -- A call whose caller catches what it throws and goes on
  abbrev pub attempt : Action S A → S → S
  attempt m s = after (m s)

abbrev pub modify : {S : Type 0} → (S → S) → Action S Unit
modify f s = returned tt (f s)

-- What every part of a chain moves by, the whole moves by.
module _ {S : Type 0} (R : S → S → Type 0) (trans : (s t u : S) → R s t → R t u → R s u) where
  pub moves-chain :
      {A B : Type 0} (m : Action S A) (f : A → Action S B)
      → ((s : S) → R s (after (m s)))
      → ((a : A) (s : S) → R s (after (f a s)))
      → (s : S) → R s (after ((m >>= f) s))
  moves-chain {A = A} m f hm hf s = via (m s) (hm s)
    where
      via :
          (o : Outcome S A)
          → R s (after o)
          → R s (after (elim o [ returned a t ↦ f a t | thrown e t ↦ thrown e t ]))
      via (returned a t) h = trans s t (after (f a t)) h (hf a t)
      via (thrown e t) h = h

  pub moves-finally :
      {A : Type 0} (m : Action S A) (f : S → S)
      → ((s : S) → R s (after (m s)))
      → ((s : S) → R s (f s))
      → (s : S) → R s (after (finally f m s))
  moves-finally {A = A} m f hm hf s = via (m s) (hm s)
    where
      via : (o : Outcome S A) → R s (after o) → R s (after (finish f o))
      via (returned a t) h = trans s t (f t) h (hf t)
      via (thrown e t) h = trans s t (f t) h (hf t)
