-- ===== src/Snapshots/Resolve.antt =====
-- `resolve` of `SnapshotStorage`, of snapshots.ts: a snapshot with the ones it lies over.
use sqlite_wasm.Prelude.{
  ℕ, zero, suc, ◌+◌, ◌≤◌, ◌<◌, ◌≡◌, String, Option, none, some, Bool, false, eqb, not, ◌||◌,
  if◌then◌else◌, ◌==◌, string_eq, arith, refl, subst, sym,
}
use sqlite_wasm.Snapshots.Types.{DeltaLayout, StoredSnapshot, Layer, bottom, lying}
use sqlite_wasm.Snapshots.Content.{top}
use sqlite_wasm.Snapshots.NewSnapshot.{layer_depth}
use sqlite_wasm.Snapshots.MemoryStore.{MemoryStore, get}
use sqlite_wasm.Snapshots.StoreInvariant.{LiesSoundly, IsStore}

-- MAX_CHAIN
abbrev pub max_chain : ℕ
max_chain = 64

-- What the loop ends with: the layers, the key that is missing, or a chain past `max_chain`.
pub data Walk (M : Type 0) : Type 0 where
  found : Layer M → Walk M
  absent : String → Walk M
  too_many : Walk M

pub data Resolved (M : Type 0) : Type 0 where
  resolved : Layer M → Resolved M
  unknown : Resolved M
  missing_below : String → Resolved M
  lies_over_too_many : Resolved M

-- `above && createdAt !== above.parentCreatedAt`
unfoldable pub is_other : Option DeltaLayout → ℕ → Bool
is_other none created_at = false
is_other (some above) created_at = not (eqb created_at above.parent_created_at)

module _ {M : Type 0} where
  -- The layer of a snapshot over the layers found below it
  unfoldable pub put_on : StoredSnapshot M → Walk M → Walk M
  put_on b (found layer) = found (lying b layer)
  put_on b (absent at) = absent at
  put_on b too_many = too_many

  unfoldable pub lay_on : StoredSnapshot M → Option DeltaLayout → (DeltaLayout → Walk M) → Walk M
  unfolding put_on
  lay_on b none go_on = found (bottom b)
  lay_on b (some d) go_on = put_on b (go_on d)

  -- One turn of the loop, of `stored` at key `at`; `go_on` is the loop from the delta's parent on.
  unfoldable pub look :
      String → Option DeltaLayout → Option (StoredSnapshot M) → (DeltaLayout → Walk M) → Walk M
  unfolding is_other lay_on
  look at above none go_on = absent at
  look at above (some b) go_on =
      if eqb b.info.size 0 || is_other above b.info.created_at
      then absent at
      else lay_on b b.delta go_on

  -- The loop, of the snapshots in `s`. `room` is how many snapshots more `found` may hold, so none
  -- is left once `found.length > MAX_CHAIN`. `above` is the delta of the last one found. The layers
  -- are put together on the way back, which the code does in a loop of its own.
  unfoldable pub walk : ℕ → MemoryStore M → String → Option DeltaLayout → Walk M
  unfolding look
  walk zero s at above = too_many
  walk (suc room) s at above = look at above (get s at) (λ d. walk room s d.parent (some d))

  unfoldable pub ended : String → Walk M → Resolved M
  ended key (found layer) = resolved layer
  ended key (absent at) = if at == key then unknown else missing_below at
  ended key too_many = lies_over_too_many

  unfoldable pub resolve : MemoryStore M → String → Resolved M
  unfolding ended walk
  resolve s key = ended key (walk (max_chain + 1) s key none)

  -- Every snapshot of the layers is in `s` under its key, only the lowest is a full one, and each
  -- other is a delta over the one below it: the one stored at the time that the delta notes.
  abbrev pub IsChain : MemoryStore M → Layer M → Type 0
  IsChain s (bottom b) = (get s b.info.key ≡ some b) × (b.delta ≡ none)
  IsChain s (lying b below) =
      ((get s b.info.key ≡ some b) × IsChain s below)
      × ((d : DeltaLayout) × ((b.delta ≡ some d)
            × ((d.parent ≡ (top below).info.key)
                × (d.parent_created_at ≡ (top below).info.created_at))))

  -- The layers that `walk` finds from a stored snapshot
  record Found (s : MemoryStore M) (b : StoredSnapshot M) (w : Walk M) : Type 0 where
    layer : Layer M
    is_found : w ≡ found layer
    is_top : top layer ≡ b
    chain : IsChain s layer

  -- What is found, whatever was before it
  walk-Found :
      (room : ℕ) (s : MemoryStore M)
      → IsStore s
      → (key : String) (b : StoredSnapshot M) → get s key ≡ some b
      → 0 < b.info.size
      → (above : Option DeltaLayout) → is_other above b.info.created_at ≡ false
      → layer_depth b.delta < room
      → Found s b (walk room s key above)
  unfolding walk look lay_on put_on is_other
  walk-Found zero s sound key b e pos above same le = absurd (omega arith)
  walk-Found (suc room) s sound key b e pos above same le =
      let at = sound key b (unfold get in e) in
      let own : get s b.info.key ≡ some b = subst (λ k. get s k ≡ some b) (sym at.key_is) e in
      rw e (
        rw same (ground (arith, pos, under (walk-Found room s sound) b.delta refl le at.below own)))
    where
      under :
          ((key : String) (b : StoredSnapshot M)
            → get s key ≡ some b
            → 0 < b.info.size
            → (above : Option DeltaLayout) → is_other above b.info.created_at ≡ false
            → layer_depth b.delta < room
            → Found s b (walk room s key above))
          → (d : Option DeltaLayout) → b.delta ≡ d
          → layer_depth d < suc room
          → LiesSoundly s.bases b.info.created_at d
          → get s b.info.key ≡ some b
          → Found s b (lay_on b d (λ d. walk room s d.parent (some d)))
      under walk_there none f le below own = record {
        layer = bottom b;
        is_found = refl;
        is_top = refl;
        chain = (own, f);
      }
      under walk_there (some d) f le below own =
          let rest =
            walk_there d.parent below.below (unfold get in below.stored) below.not_empty (some d)
              (ground (arith, below.same)) (omega (arith, le, below.depth)) in
          let at_parent = sound d.parent below.below below.stored in
          record {
            layer = lying b rest.layer;
            is_found = rw rest.is_found refl;
            is_top = refl;
            chain = (
              (own, rest.chain),
              (d, (f, (rw rest.is_top (sym at_parent.key_is), rw rest.is_top (sym below.same)))),
            );
          }

  -- In a sound store, each stored snapshot that is not empty and lies over at most `max_chain` deltas
  -- resolves: to layers with it on top, down to a full snapshot, each a delta over the next.
  pub resolve_stored :
      (s : MemoryStore M)
      → IsStore s
      → (key : String) (b : StoredSnapshot M) → get s key ≡ some b
      → 0 < b.info.size
      → layer_depth b.delta ≤ max_chain
      → (layer : Layer M) × ((resolve s key ≡ resolved layer) × ((top layer ≡ b) × IsChain s layer))
  unfolding resolve ended
  resolve_stored s sound key b e pos le =
      let w =
        walk-Found (max_chain + 1) s sound key b e pos none (unfold is_other in refl)
          (omega (arith, le)) in
      (w.layer, (rw w.is_found refl, (w.is_top, w.chain)))
