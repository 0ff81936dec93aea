-- ===== src/IndexedDb/Merge.antt =====
-- What a batch makes of the stored file, and that merging batches is applying them in turn.
use sqlite_wasm.Prelude.{
  ℕ, ◌≡◌, refl, fun_ext, true, false, Option, none, some, [], ◌∷◌, arith, ◌==◌, if◌then◌else◌,
  Bytes, nat_eq, Bool-cases, inl, inr,
}
use sqlite_wasm.JsMap
use sqlite_wasm.JsMap.{JsMap, IsDistinct, get-set, has-set, has-get, set-IsDistinct}
use sqlite_wasm.IndexedDb.Batch.{
  Extended, infinity, lt_ext, at_or_past, Batch, empty_batch, delete_past, set_all, or_else, merge,
  Stored, Meta, delete_range, put_all, write_batch,
}

-- The file that `batch` makes of `stored`: its chunks over those that it does not delete.
unfoldable pub chunk_over : Batch → (ℕ → Option Bytes) → ℕ → Option Bytes
chunk_over batch chunks index =
    or_else (JsMap.get batch.chunks index)
      (if at_or_past index batch.truncate then none else chunks index)

abbrev pub over : Batch → Stored → Stored
over batch stored = record {
  chunks = chunk_over batch stored.chunks;
  meta = or_else batch.meta stored.meta;
}

get-delete_past :
    (bound : Extended) (m : JsMap ℕ Bytes) (i : ℕ)
    → JsMap.get (delete_past bound m) i ≡ (if at_or_past i bound then none else JsMap.get m i)
unfolding delete_past JsMap.get
get-delete_past bound [] i = ground arith
get-delete_past bound ((j, c) ∷ m) i = ground (arith, get-delete_past bound m i)

get-set_all :
    (into m : JsMap ℕ Bytes) (i : ℕ)
    → IsDistinct m
    → JsMap.get (set_all into m) i ≡ or_else (JsMap.get m i) (JsMap.get into i)
unfolding set_all JsMap.get
get-set_all into [] i d = refl
get-set_all into ((j, c) ∷ m) i d =
    ground (arith, get-set_all (JsMap.set into j c) m i d.1, get-set into j i c, has-get m j)

put_all_lem :
    (chunks : ℕ → Option Bytes) (m : JsMap ℕ Bytes) (i : ℕ)
    → IsDistinct m
    → put_all chunks m i ≡ or_else (JsMap.get m i) (chunks i)
unfolding put_all JsMap.get
put_all_lem chunks [] i d = refl
put_all_lem chunks ((j, c) ∷ m) i d =
    ground (arith, put_all_lem (λ k. if j == k then some c else chunks k) m i d.1, has-get m j)

-- The lower bound of the two truncations decides, as deleting from both does.
at_or_past-merge :
    (i : ℕ) (a b : Extended)
    → at_or_past i (if lt_ext b a then b else a) ≡ (if at_or_past i b then true else at_or_past i a)
unfolding at_or_past lt_ext
at_or_past-merge i a b = ground arith

at_or_past_infinity :
    (i : ℕ) (bound : Extended) → lt_ext bound infinity ≡ false → at_or_past i bound ≡ false
unfolding at_or_past lt_ext
at_or_past_infinity i bound h = ground arith

or_else_assoc {ℓ} :
    {A : Type ℓ} (a b c : Option A) → or_else (or_else a b) c ≡ or_else a (or_else b c)
or_else_assoc none b c = refl
or_else_assoc (some a) b c = refl

write_chunks :
    (batch : Batch) (stored : Stored) (i : ℕ)
    → IsDistinct batch.chunks
    → (write_batch batch stored).chunks i ≡ chunk_over batch stored.chunks i
unfolding write_batch chunk_over
write_chunks batch stored i d = elim (Bool-cases (lt_ext batch.truncate infinity)) [
  | inl finite ↦
      rw finite (put_all_lem (delete_range batch.truncate stored.chunks) batch.chunks i d)
  | inr endless ↦ rw endless (
      ground (
        arith,
        put_all_lem stored.chunks batch.chunks i d,
        at_or_past_infinity i batch.truncate endless,
      ))
]

chunk_over-merge :
    (a b : Batch) (chunks : ℕ → Option Bytes) (i : ℕ)
    → IsDistinct b.chunks
    → chunk_over (merge a b) chunks i ≡ chunk_over b (chunk_over a chunks) i
unfolding chunk_over merge
chunk_over-merge a b chunks i d = elim (Bool-cases (lt_ext b.truncate infinity)) [
  | inl finite ↦ rw finite (
      ground (
        arith,
        get-set_all (delete_past b.truncate a.chunks) b.chunks i d,
        get-delete_past b.truncate a.chunks i,
        at_or_past-merge i a.truncate b.truncate,
      ))
  | inr endless ↦ rw endless (
      ground (
        arith,
        get-set_all a.chunks b.chunks i d,
        at_or_past-merge i a.truncate b.truncate,
        at_or_past_infinity i b.truncate endless,
      ))
]

pub Stored-path : {a b : Stored} → ((i : ℕ) → a.chunks i ≡ b.chunks i) → a.meta ≡ b.meta → a ≡ b
Stored-path p q = λ k. record { chunks = fun_ext p k; meta = q k }

-- Storing the merged batch makes the same file as storing the earlier batch and then the later,
-- where the later batch holds each chunk once.
pub over-merge :
    (a b : Batch) (stored : Stored)
    → IsDistinct b.chunks
    → over (merge a b) stored ≡ over b (over a stored)
over-merge a b stored d =
    Stored-path (λ i. chunk_over-merge a b stored.chunks i d)
      (unfold merge in or_else_assoc b.meta a.meta stored.meta)

-- A transaction that completes makes the file that its batch describes, for a batch that has a
-- commit's meta and holds each chunk once.
pub write_batch-over :
    (batch : Batch) (stored : Stored) {m : Meta}
    → batch.meta ≡ some m
    → IsDistinct batch.chunks
    → write_batch batch stored ≡ over batch stored
write_batch-over batch stored h d =
    Stored-path (λ i. write_chunks batch stored i d) (unfold write_batch in rw h)

pub over-empty_batch : (stored : Stored) → over empty_batch stored ≡ stored
over-empty_batch stored =
    Stored-path (λ i. unfold chunk_over empty_batch at_or_past JsMap.get in refl)
      (unfold empty_batch in refl)

pub set_all-IsDistinct : (into m : JsMap ℕ Bytes) → IsDistinct into → IsDistinct (set_all into m)
unfolding set_all
set_all-IsDistinct into [] d = d
set_all-IsDistinct into ((j, c) ∷ m) d =
    set_all-IsDistinct (JsMap.set into j c) m (set-IsDistinct into j c d)

has-delete_past :
    (bound : Extended) (m : JsMap ℕ Bytes) (i : ℕ)
    → JsMap.has m i ≡ false
    → JsMap.has (delete_past bound m) i ≡ false
unfolding delete_past JsMap.has
has-delete_past bound [] i h = refl
has-delete_past bound ((j, c) ∷ m) i h = ground (arith, has-delete_past bound m i)

delete_past-IsDistinct :
    (bound : Extended) (m : JsMap ℕ Bytes) → IsDistinct m → IsDistinct (delete_past bound m)
unfolding delete_past
delete_past-IsDistinct bound [] d = tt
delete_past-IsDistinct bound ((j, c) ∷ m) d = elim (Bool-cases (at_or_past j bound)) [
  | inl e ↦ rw e (delete_past-IsDistinct bound m d.1)
  | inr e ↦ rw e (has-delete_past bound m j d.0, delete_past-IsDistinct bound m d.1)
]

pub merge-IsDistinct : (a b : Batch) → IsDistinct a.chunks → IsDistinct (merge a b).chunks
unfolding merge
merge-IsDistinct a b d = elim (Bool-cases (lt_ext b.truncate infinity)) [
  | inl e ↦ rw e (set_all-IsDistinct _ b.chunks (delete_past-IsDistinct b.truncate a.chunks d))
  | inr e ↦ rw e (set_all-IsDistinct a.chunks b.chunks d)
]
