-- ===== src/Snapshots/MemoryStore.antt =====
-- `memorySnapshotStore` of snapshots.ts, and `storedAs`.
use sqlite_wasm.Prelude.{
  ◌>>=◌, ℕ, ◌+◌, ◌-◌, ◌*◌, min, max, String, Option, none, some, List, [], ◌∷◌, map, ltb, eqb, ◌&&◌,
  not, if◌then◌else◌, Bool, true, false, Bytes, length, string_eq, ◌==◌, slice, write_at, zeros,
  any,
}
use sqlite_wasm.JsMap
use sqlite_wasm.JsMap.{JsMap}
use sqlite_wasm.Snapshots.Types.{DeltaLayout, StoredSnapshot, SnapshotInfo}
use sqlite_wasm.Snapshots.NewSnapshot.{NewSnapshot, DeltaOver}

-- `pages.forEach((_, i) => data.set(snapshot.page(i), i * chunkSize))`
unfoldable pub put_in_order : (ℕ → Bytes) → ℕ → ℕ → List ℕ → Bytes → Option Bytes
put_in_order page cs i [] bytes = some bytes
put_in_order page cs i (index ∷ pages) bytes = do
  b ← write_at bytes (page i) (i * cs)
  put_in_order page cs (i + 1) pages b

-- `pages.forEach((index, i) => data.set(snapshot.page(i).subarray(0, size - start), start))`, where
-- every page starts within `size`
unfoldable pub put_in_place : (ℕ → Bytes) → ℕ → ℕ → ℕ → List ℕ → Bytes → Option Bytes
put_in_place page cs size i [] bytes = some bytes
put_in_place page cs size i (index ∷ pages) bytes = do
  b ← write_at bytes (slice (page i) 0 (size - index * cs)) (index * cs)
  put_in_place page cs size (i + 1) pages b

-- The old content that stays.
unfoldable pub put_base : Option Bytes → ℕ → Bytes → Option Bytes
put_base none kept bytes = some bytes
put_base (some base) kept bytes =
    if ltb 0 kept then write_at bytes (slice base 0 kept) 0 else some bytes

abbrev pub parent_of : Option DeltaOver → Option String
parent_of none = none
parent_of (some d) = some d.parent

-- `delta?.parent === key`
unfoldable pub rests_on : String → Option DeltaLayout → Bool
rests_on key none = false
rests_on key (some d) = d.parent == key

module _ {M : Type 0} where
  unfoldable pub composed_delta : NewSnapshot M → Option Bytes
  unfolding put_in_order
  composed_delta n =
      put_in_order n.page n.chunk_size 0 n.pages (zeros (length n.pages * n.chunk_size))

  unfoldable pub composed_full : NewSnapshot M → Option Bytes
  unfolding put_in_place put_base
  composed_full n = do
    kept ← put_base n.base (min n.visible n.size) (zeros n.size)
    put_in_place n.page n.chunk_size n.size 0 n.pages kept

  abbrev pub composed_for : NewSnapshot M → Option DeltaOver → Option Bytes
  composed_for n none = composed_full n
  composed_for n (some d) = composed_delta n

  -- The bytes that `write` stores: the pages in order for a delta, else the whole database. `none`
  -- is a RangeError.
  unfoldable pub compose : NewSnapshot M → Option Bytes
  unfolding composed_full composed_delta
  compose n = composed_for n n.delta

  unfoldable pub layout_of : NewSnapshot M → Option DeltaOver → Option DeltaLayout
  layout_of n none = none
  layout_of n (some d) = some (record {
    parent = d.parent;
    parent_created_at = d.parent_created_at;
    chunk_size = n.chunk_size;
    visible = n.visible;
    pages = n.pages;
    depth = d.depth;
    chain_bytes = d.chain_bytes;
  })

  unfoldable pub stored_as : NewSnapshot M → ℕ → Bytes → StoredSnapshot M
  unfolding layout_of
  stored_as n created_at source = record {
    info = record {
      key = n.key;
      branch = n.branch;
      meta = n.meta;
      created_at = created_at;
      size = n.size;
      parent = parent_of n.delta;
    };
    source = source;
    delta = layout_of n n.delta;
  }

-- The closure of one store: its snapshots by key, and the time of the last one.
pub record MemoryStore (M : Type 0) : Type 0 where
  pub bases : JsMap String (StoredSnapshot M)
  pub last : ℕ

-- What `write` resolves to, or rejects with.
pub data Written (M : Type 0) : Type 0 where
  written : StoredSnapshot M → Written M
  exists : Written M
  missing_parent : Written M
  range_error : Written M

module _ {M : Type 0} where
  unfoldable pub empty_store : MemoryStore M
  empty_store = record { bases = []; last = 0 }

  unfoldable pub get : MemoryStore M → String → Option (StoredSnapshot M)
  get s key = JsMap.get s.bases key

  -- `bases.get(delta.parent)?.info.createdAt !== delta.parentCreatedAt`
  unfoldable pub is_missing : MemoryStore M → Option DeltaOver → Bool
  is_missing s none = false
  is_missing s (some d) = elim (JsMap.get s.bases d.parent) [
    | none ↦ true
    | some p ↦ not (eqb p.info.created_at d.parent_created_at)
  ]

  -- The part of `write` after the content is composed, which adds the snapshot in one step; the
  -- clock reads `now`.
  unfoldable pub add : ℕ → NewSnapshot M → Bytes → MemoryStore M → Written M × MemoryStore M
  unfolding is_missing stored_as
  add now n bytes s =
      let created_at = max now (s.last + 1) in
      let new = stored_as n created_at bytes in
      if JsMap.has s.bases n.key
      then (exists, s)
      else if is_missing s n.delta
      then (missing_parent, s)
      else (written new, record { bases = JsMap.set s.bases n.key new; last = created_at })

  unfoldable pub add_composed :
      ℕ → NewSnapshot M → Option Bytes → MemoryStore M → Written M × MemoryStore M
  unfolding add
  add_composed now n none s = (range_error, s)
  add_composed now n (some bytes) s = add now n bytes s

  -- `write`, with nothing else happening while the content is composed
  unfoldable pub write : ℕ → NewSnapshot M → MemoryStore M → Written M × MemoryStore M
  unfolding add_composed compose is_missing
  write now n s =
      if JsMap.has s.bases n.key
      then (exists, s)
      else if is_missing s n.delta
      then (missing_parent, s)
      else add_composed now n (compose n) s

  -- `b.delta?.parent === key`
  unfoldable pub lies_over : String → String × StoredSnapshot M → Bool
  unfolding rests_on
  lies_over key (k, b) = rests_on key b.delta

  unfoldable pub remove : String → Bool → MemoryStore M → Bool × MemoryStore M
  unfolding lies_over
  remove key force s =
      if not force && any (lies_over key) s.bases
      then (false, s)
      else (JsMap.has s.bases key, record s { bases = JsMap.delete s.bases key })

  -- `list`, in any order
  unfoldable pub list : MemoryStore M → List (SnapshotInfo M)
  list s = map (λ e. e.1.info) s.bases
