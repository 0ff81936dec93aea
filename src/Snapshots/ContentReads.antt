-- ===== src/Snapshots/ContentReads.antt =====
-- `layerContent` gives the bytes that reading the layer's file gives.
use sqlite_wasm.Prelude.{
  ◌>>=◌, ℕ, ◌+◌, ◌-◌, ◌*◌, ◌≤◌, ◌<◌, ◌≡◌, refl, sym, ap, ◌∙◌, Option, none, some, List, [], ◌∷◌,
  ltb, eqb, ◌&&◌, if◌then◌else◌, true, false, Bytes, byte_at, length, write_at_lem, zeros, arith,
  length-append, get_or-append, length-replicate, nat_eq, if_elim, append-nil, eq_of_get_or,
}
use sqlite_wasm.Snapshots.Types.{DeltaLayout, StoredSnapshot, Layer, bottom, lying}
use sqlite_wasm.Snapshots.Runs.{runs}
use sqlite_wasm.Snapshots.Tiling.{runs-Tiles}
use sqlite_wasm.Snapshots.Layers.{layer_size, size_over}
use sqlite_wasm.Snapshots.LayerReads.{byte_over, layer_byte}
use sqlite_wasm.Snapshots.Content.{
  Collector, join, join_parts, collect_over, collect, top, is_full, layer_content,
}
use sqlite_wasm.Snapshots.ContentRuns.{Holds, add_part-Holds, collect_runs-Holds, flat}

join_lem :
    (parts : List Bytes) (bytes : Bytes) (at : ℕ)
    → at + length (flat parts) ≤ length bytes
    → (b : Bytes) × (join parts bytes at ≡ some b)
      × (length b ≡ length bytes)
      × ((i : ℕ)
          → byte_at b i ≡ (
              if ltb i at
              then byte_at bytes i
              else if ltb i (at + length (flat parts))
              then byte_at (flat parts) (i - at)
              else byte_at bytes i))
unfolding join
join_lem [] bytes at fits = (bytes, refl, refl, λ i. ground arith)
join_lem (part ∷ parts) bytes at fits =
    let total = length-append part (flat parts) in
    let (b, done, b_length, b_bytes) = write_at_lem bytes part at (omega (arith, total)) in
    let (c, rest, c_length, c_bytes) =
      join_lem parts b (at + length part) (omega (arith, total, b_length)) in
    (
      c,
      rw (done, ◌>>=◌) rest,
      c_length ∙ b_length,
      λ i. ground (arith, c_bytes i, b_bytes i, total, get_or-append part (flat parts) (i - at) 0),
    )

join-zeros :
    (parts : List Bytes) (size : ℕ)
    → length (flat parts) ≡ size
    → join parts (zeros size) 0 ≡ some (flat parts)
join-zeros parts size h =
    let z = length-replicate {A = ℕ} size 0 in
    let (b, done, b_length, b_bytes) = join_lem parts (zeros size) 0 (omega (arith, z)) in
    done
    ∙ ap some (
        eq_of_get_or b (flat parts) 0 (b_length ∙ z ∙ sym h) (λ i lt. ground (arith, b_bytes i, z)))

-- Joining parts of the right total size gives them one after the other.
join_parts_lem :
    (parts : List Bytes) (size : ℕ)
    → length (flat parts) ≡ size
    → join_parts parts size ≡ some (flat parts)
join_parts_lem (part ∷ []) size h = unfold join_parts in ap some (sym (append-nil part))
join_parts_lem [] size h = unfold join_parts in join-zeros [] size h
join_parts_lem (part ∷ part' ∷ parts) size h =
    unfold join_parts in join-zeros (part ∷ part' ∷ parts) size h

module _ {M : Type 0} where
  -- The sources hold what the layouts say: a full snapshot its size, a delta its pages, over no more
  -- of the layer below than that has.
  abbrev pub IsSoundOver : StoredSnapshot M → ℕ → Option DeltaLayout → Type 0
  IsSoundOver s under none = s.info.size ≡ length s.source
  IsSoundOver s under (some d) =
      (0 < d.chunk_size) × (length s.source ≡ length d.pages * d.chunk_size) × (d.visible ≤ under)

  abbrev pub IsSound : Layer M → Type 0
  IsSound (bottom s) = (s.delta ≡ none) × (s.info.size ≡ length s.source)
  IsSound (lying s under) = IsSoundOver s (layer_size under) s.delta × IsSound under

  collect_over-Holds :
      (s : StoredSnapshot M) (d : Option DeltaLayout) (under : Collector) (content : ℕ → ℕ)
      (size : ℕ)
      → IsSoundOver s size d
      → ((from to : ℕ) → from ≤ to → to ≤ size → Holds (under from to) content from to)
      → (start end : ℕ) → start ≤ end
      → end ≤ size_over s d
      → Holds (collect_over s under d start end) (byte_over s content d) start end
  unfolding collect_over byte_over size_over
  collect_over-Holds s none under content size w u start end le fits =
      add_part-Holds s.source start end le fits
  collect_over-Holds s (some d) under content size w u start end le fits =
      let (xs, done, len, bytes) =
        collect_runs-Holds s.source d w.0 w.1 under content start end (runs d start end)
          (λ from to h k. u from to h (omega arith)) (runs-Tiles d w.0 start end le) le in
      (xs, done, len, λ i lt. ground (arith, bytes i))

  collect-Holds :
      (layer : Layer M)
      → IsSound layer
      → (start end : ℕ) → start ≤ end
      → end ≤ layer_size layer
      → Holds (collect layer start end) (layer_byte layer) start end
  unfolding collect layer_byte layer_size
  collect-Holds (bottom s) w start end le fits = add_part-Holds s.source start end le fits
  collect-Holds (lying s under) w start end le fits =
      collect_over-Holds s s.delta (collect under) (layer_byte under) (layer_size under) w.0
        (collect-Holds under w.1) start end le fits

  pub info_size : (layer : Layer M) → IsSound layer → (top layer).info.size ≡ layer_size layer
  unfolding layer_size
  info_size (bottom s) w = w.1
  info_size (lying s under) w = over s.delta w.0
    where
      over :
          (d : Option DeltaLayout)
          → IsSoundOver s (layer_size under) d
          → s.info.size ≡ size_over s d
      over none h = unfold size_over in h
      over (some d) h = unfold size_over in refl

  full_byte :
      (layer : Layer M) (i : ℕ)
      → is_full (top layer) ≡ true
      → layer_byte layer i ≡ byte_at (top layer).source i
  unfolding layer_byte
  full_byte (bottom s) i h = refl
  full_byte (lying s under) i h = over s.delta h
    where
      over :
          (d : Option DeltaLayout)
          → elim d [ none ↦ true | some delta ↦ false ] ≡ true
          → byte_over s (layer_byte under) d i ≡ byte_at s.source i
      over none h = unfold byte_over in refl
      over (some d) h = ground arith

  -- Composing a range of a database from its layers never fails where the layers are sound and the
  -- range lies within the database, and gives the bytes that reading the layer's file gives.
  pub layer_content-layer_byte :
      (layer : Layer M)
      → IsSound layer
      → (start end : ℕ) → start ≤ end
      → end ≤ layer_size layer
      → (bytes : Bytes) × (layer_content layer start end ≡ some bytes)
        × (length bytes ≡ end - start)
        × ((i : ℕ) → i < end - start → byte_at bytes i ≡ layer_byte layer (start + i))
  unfolding layer_content
  layer_content-layer_byte layer w start end le fits =
      if_elim
        (λ r.
          (bytes : Bytes) × (r ≡ some bytes)
          × (length bytes ≡ end - start)
          × ((i : ℕ) → i < end - start → byte_at bytes i ≡ layer_byte layer (start + i)))
        (is_full (top layer) && (eqb start 0 && eqb end (length (top layer).source)))
        (λ whole. (
          (top layer).source,
          refl,
          ground arith,
          λ i lt.
              let z : start ≡ 0 = ground arith in
              ap (byte_at (top layer).source) (omega arith)
              ∙ sym (full_byte layer (start + i) (ground arith)),
        ))
        (λ _.
          let (parts, collected, len, bytes) = collect-Holds layer w start end le fits in
          (
            flat parts,
            rw (info_size layer w, collected)
                (ground (arith, join_parts_lem parts (end - start) len)),
            len,
            bytes,
          ))
