-- ===== src/Snapshots/Content.antt =====
-- `layerContent` of snapshots.ts: a range of the database that a layer holds, joined from the sources
-- of the layers.
use sqlite_wasm.Prelude.{
  ◌>>=◌, ℕ, ◌+◌, ◌-◌, Option, none, some, List, [], ◌∷◌, ◌++◌, ltb, eqb, ◌&&◌, if◌then◌else◌, Bool,
  true, false, Bytes, length, slice, write_at, zeros,
}
use sqlite_wasm.Snapshots.Types.{DeltaLayout, StoredSnapshot, Layer, bottom, lying}
use sqlite_wasm.Snapshots.Runs.{Run, own, below, zero_run, runs}

-- What collects the parts of a range; `none` is the error "Snapshot is too short".
abbrev pub Collector : Type 0
Collector = ℕ → ℕ → Option (List Bytes)

-- `add`
unfoldable pub add_part : Bytes → Collector
add_part source start end =
    if ltb (length source) end
    then none
    else some (if ltb start end then slice source start end ∷ [] else [])

-- The loop over the runs in `collect`
unfoldable pub collect_runs : Bytes → Collector → List Run → Option (List Bytes)
unfolding add_part
collect_runs source under [] = some []
collect_runs source under (own from to at ∷ rest) = do
  parts ← add_part source at (at + to - from)
  more ← collect_runs source under rest
  some (parts ++ more)
collect_runs source under (below from to ∷ rest) = do
  parts ← under from to
  more ← collect_runs source under rest
  some (parts ++ more)
collect_runs source under (zero_run from to ∷ rest) = do
  more ← collect_runs source under rest
  some (zeros (to - from) ∷ more)

-- The loop that joins the parts.
unfoldable pub join : List Bytes → Bytes → ℕ → Option Bytes
join [] bytes at = some bytes
join (part ∷ parts) bytes at = do b ← write_at bytes part at; join parts b (at + length part)

unfoldable pub join_parts : List Bytes → ℕ → Option Bytes
unfolding join
join_parts (part ∷ []) size = some part
join_parts parts size = join parts (zeros size) 0

module _ {M : Type 0} where
  unfoldable pub collect_over : StoredSnapshot M → Collector → Option DeltaLayout → Collector
  collect_over s under none start end = add_part s.source start end
  collect_over s under (some delta) start end = collect_runs s.source under (runs delta start end)

  -- `collect`
  unfoldable pub collect : Layer M → Collector
  unfolding add_part collect_runs collect_over
  collect (bottom s) = add_part s.source
  collect (lying s under) = collect_over s (collect under) s.delta

  abbrev pub top : Layer M → StoredSnapshot M
  top (bottom s) = s
  top (lying s under) = s

  abbrev pub is_full : StoredSnapshot M → Bool
  is_full s = elim s.delta [ none ↦ true | some delta ↦ false ]

  unfoldable pub layer_content : Layer M → ℕ → ℕ → Option Bytes
  unfolding collect join_parts
  layer_content layer start end =
      let joined = (do parts ← collect layer start end; join_parts parts (end - start)) in
      if is_full (top layer) && (eqb start 0 && eqb end (length (top layer).source))
      then some (top layer).source
      else if ltb (top layer).info.size end
      then none
      else joined
