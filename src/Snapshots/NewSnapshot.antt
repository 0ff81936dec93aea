-- ===== src/Snapshots/NewSnapshot.antt =====
-- `NewSnapshot` of snapshots.ts, and `newSnapshot`, which decides whether a save writes a delta.
use sqlite_wasm.Prelude.{
  ℕ, ◌+◌, ◌*◌, String, Option, none, some, List, [], ◌∷◌, map, ltb, leb, ◌&&◌, if◌then◌else◌, Bool,
  true, false, Bytes, length, string_eq, ◌==◌, get_or, ◌==◌,
}
use sqlite_wasm.Snapshots.Types.{DeltaLayout, StoredSnapshot, Layer}
use sqlite_wasm.Snapshots.Content.{layer_content, top}

-- `delta` of a NewSnapshot: a layout without the fields that the snapshot has itself
pub record DeltaOver : Type 0 where
  pub parent : String
  pub parent_created_at : ℕ
  pub depth : ℕ
  pub chain_bytes : ℕ

pub record NewSnapshot (M : Type 0) : Type 0 where
  pub key : String
  pub branch : String
  pub meta : M
  pub base : Option Bytes
  pub visible : ℕ
  pub size : ℕ
  pub chunk_size : ℕ
  pub pages : List ℕ
  -- the content of `pages[i]`
  pub page : ℕ → Bytes
  pub delta : Option DeltaOver

-- `Pages` of Database.ts: each chunk's index, with the bytes that its pointer points at.
pub record Pages : Type 0 where
  pub chunk_size : ℕ
  pub size : ℕ
  pub visible : ℕ
  pub pages : List (ℕ × Bytes)

abbrev pub layer_depth : Option DeltaLayout → ℕ
layer_depth none = 0
layer_depth (some d) = d.depth

abbrev pub layer_chain_bytes : Option DeltaLayout → ℕ
layer_chain_bytes none = 0
layer_chain_bytes (some d) = d.chain_bytes

-- Pages past the end were truncated away.
unfoldable pub live_pages : ℕ → ℕ → List (ℕ × Bytes) → List (ℕ × Bytes)
live_pages chunk_size size [] = []
live_pages chunk_size size ((index, content) ∷ pages) =
    let rest = live_pages chunk_size size pages in
    if ltb (index * chunk_size) size then (index, content) ∷ rest else rest

abbrev pub is_none {ℓ} : {A : Type ℓ} → Option A → Bool
is_none none = true
is_none (some a) = false

module _ {M : Type 0} where
  -- The delta over `base`, where the limits allow one.
  unfoldable pub delta_over : StoredSnapshot M → String → ℕ → ℕ → ℕ → ℕ → ℕ → Option DeltaOver
  delta_over base branch visible count chunk_size size max_depth =
      let bytes = count * chunk_size in
      let depth = layer_depth base.delta + 1 in
      let chain_bytes = layer_chain_bytes base.delta + bytes in
      if ltb 0 visible && base.info.branch == branch
      then (if leb depth max_depth && (leb (bytes * 2) size && leb chain_bytes size)
          then some (record {
            parent = base.info.key;
            parent_created_at = base.info.created_at;
            depth = depth;
            chain_bytes = chain_bytes;
          })
          else none)
      else none

  unfoldable pub delta_for : Option (Layer M) → String → ℕ → ℕ → ℕ → ℕ → ℕ → Option DeltaOver
  unfolding delta_over
  delta_for none branch visible count chunk_size size max_depth = none
  delta_for (some layer) branch visible count chunk_size size max_depth =
      delta_over (top layer) branch visible count chunk_size size max_depth

  -- `base?.content()`
  abbrev pub base_content : Option (Layer M) → Option Bytes
  base_content none = none
  base_content (some layer) = layer_content layer 0 (top layer).info.size

  -- `content` throws "Snapshot is too short".
  unfoldable pub content_fails : Option (Layer M) → Bool
  content_fails none = false
  content_fails (some layer) = is_none (layer_content layer 0 (top layer).info.size)

  -- The snapshot that `newSnapshot` returns.
  unfoldable pub snapshot_on : Pages → Option (Layer M) → String → String → M → ℕ → NewSnapshot M
  unfolding live_pages delta_for
  snapshot_on held base key branch meta max_depth =
      let pages = live_pages held.chunk_size held.size held.pages in
      record {
        key = key;
        branch = branch;
        meta = meta;
        base = base_content base;
        visible = held.visible;
        size = held.size;
        chunk_size = held.chunk_size;
        pages = map (λ p. p.0) pages;
        page = λ i. (get_or pages i (0, [])).1;
        delta =
            delta_for base branch held.visible (length pages) held.chunk_size held.size max_depth;
      }

  -- `newSnapshot`, of the pages that the database holds over its base. `none` is the error
  -- "Database reads a snapshot it was not opened on", or that of `content`, which is called when the
  -- bytes of a full snapshot are composed, and which ends the save as well.
  unfoldable pub new_snapshot :
      Pages → Option (Layer M) → String → String → M → ℕ → Option (NewSnapshot M)
  unfolding snapshot_on content_fails
  new_snapshot held base key branch meta max_depth =
      let n = snapshot_on held base key branch meta max_depth in
      if ltb 0 held.visible && is_none base
      then none
      else if is_none n.delta && content_fails base
      then none
      else some n
