-- ===== src/IndexedDb/Loading.antt =====
-- Loading a stored file into a database, of indexeddb.ts and Database.ts, loads all of it.
use native.Mathlib.Nat.{mul-div_cancel, add-mul, mul-pos}
use sqlite_wasm.Prelude.{
  drop_nil, drop_past, ℕ, zero, suc, ◌+◌, ◌-◌, ◌*◌, ◌/◌, ◌≤◌, ◌<◌, min, max, ◌≡◌, refl, sym, ap,
  ◌∙◌, Option, some, [], ◌∷◌, ◌++◌, ltb, eqb, ◌&&◌, not, true, false, Bytes, byte_at, length, slice,
  zeros, ◌>>=◌, arith, Bool-cases, inl, inr, length-slice, get_or-append, length-append,
  append_assoc, append-nil, subst, eqb_iff, take, drop,
}
use sqlite_wasm.IndexedDb.Batch.{Meta, Stored}
use sqlite_wasm.IndexedDb.Load.{
  check_meta, check_header, is_power_of_two, put_chunks, Loader, load_pieces, load, load_chunk_size,
  load_parts, load_meta, load_into, read_bytes,
}
use sqlite_wasm.IndexedDb.LoadReads.{AreWhole, stored_byte, part_lem}

take-drop : (n : ℕ) (xs : Bytes) → take n xs ++ drop n xs ≡ xs
take-drop zero xs = refl
take-drop (suc n) [] = refl
take-drop (suc n) (x ∷ xs) = ap (◌∷◌ x) (take-drop n xs)

drop_add : (n d : ℕ) (xs : Bytes) → drop (d + n) xs ≡ drop n (drop d xs)
drop_add n zero xs = let e : 0 + n ≡ n = omega arith in ap (λ m. drop m xs) e
drop_add n (suc d) [] = drop_nil (suc d + n) ∙ sym (drop_nil n)
drop_add n (suc d) (x ∷ xs) =
    let e : suc d + n ≡ suc (d + n) = omega arith in ap (λ m. drop m (x ∷ xs)) e ∙ drop_add n d xs

slice-drop :
    (bytes : Bytes) (done piece : ℕ)
    → slice bytes done (done + piece) ++ drop (done + piece) bytes ≡ drop done bytes
unfolding slice
slice-drop bytes done piece =
    ap (λ r. take (done + piece - done) (drop done bytes) ++ r) (drop_add piece done bytes)
    ∙ ap (λ m. take m (drop done bytes) ++ drop piece (drop done bytes)) (omega arith)
    ∙ take-drop piece (drop done bytes)

first_zero : (first cs : ℕ) → 0 < cs → first * cs ≡ 0 → first ≡ 0
first_zero zero cs pos h = refl
first_zero (suc first) cs pos h = absurd (omega (arith, add-mul first 1 cs, pos, h))

-- A database of these bytes holds the first `len` bytes of the file.
abbrev pub Loaded : (ℕ → Option Bytes) → ℕ → ℕ → Bytes → Type 0
Loaded chunks cs len bytes =
    (length bytes ≡ len) × ((q : ℕ) → q < len → byte_at bytes q ≡ stored_byte chunks cs q)

module _ {S : Type 0} (w : Loader S) (contents : S → Bytes)
    (allocates : (n : ℕ) (db : S) → w.malloc n db ≡ true)
    (appends : (db : S) (bytes : Bytes) (offset total cs : ℕ)
      → is_power_of_two cs 512 65536 ≡ true
      → offset ≡ length (contents db)
      → (t : S) × ((w.alinea_load db bytes offset total cs ≡ some t)
          × (contents t ≡ contents db ++ bytes))) where
  load_pieces_lem :
      (fuel piece : ℕ) (bytes : Bytes) (offset total cs done : ℕ) (db : S)
      → is_power_of_two cs 512 65536 ≡ true
      → 0 < piece
      → length bytes - done ≤ fuel
      → offset + min done (length bytes) ≡ length (contents db)
      → (t : S) × ((load_pieces w fuel piece bytes offset total cs done db ≡ some t)
          × (contents t ≡ contents db ++ drop done bytes))
  unfolding load_pieces
  load_pieces_lem zero piece bytes offset total cs done db ok pos le at = (
    db,
    (
      refl,
      sym (
          ap (λ r. contents db ++ r) (drop_past done bytes (omega arith))
          ∙ append-nil (contents db)),
    ),
  )
  load_pieces_lem (suc fuel) piece bytes offset total cs done db ok pos le at =
      elim (Bool-cases (ltb done (length bytes))) [
        | inr past ↦ (
          db,
          (
            rw past refl,
            sym (
                ap (λ r. contents db ++ r) (drop_past done bytes (ground (arith, past)))
                ∙ append-nil (contents db)),
          ),
        )
        | inl more ↦
            let part = slice bytes done (done + piece) in
            let (t, (loaded, t_is)) =
              appends db part (offset + done) total cs ok (ground (arith, at, more)) in
            let t_length : length (contents t) ≡ length (contents db) + length part =
              ap length t_is ∙ length-append (contents db) part in
            let (u, (rest, u_is)) =
              load_pieces_lem fuel piece bytes offset total cs (done + piece) t ok pos
                (omega (arith, pos, le))
                (ground (arith, at, more, t_length, length-slice bytes done (done + piece))) in
            (
              u,
              (
                rw (more, loaded, ◌>>=◌) rest,
                u_is
                    ∙ (ap (λ r. r ++ drop (done + piece) bytes) t_is
                        ∙ append_assoc (contents db) part (drop (done + piece) bytes)
                        ∙ ap (λ r. contents db ++ r) (slice-drop bytes done piece)),
              ),
            )
      ]

  load_lem :
      (bytes : Bytes) (offset total cs : ℕ) (db : S)
      → is_power_of_two cs 512 65536 ≡ true
      → 0 < length bytes
      → offset ≡ length (contents db)
      → (t : S) × ((load w bytes offset total cs db ≡ some t) × (contents t ≡ contents db ++ bytes))
  unfolding load
  load_lem bytes offset total cs db ok pos at =
      let (t, (loaded, is)) =
        load_pieces_lem (length bytes) (min (length bytes) load_chunk_size) bytes offset total cs 0
          db ok (omega (arith, pos)) (omega arith) (omega (arith, at)) in
      (t, (rw (allocates (min (length bytes) load_chunk_size) db) loaded, is))

  all_there :
      (chunks : ℕ → Option Bytes) (cs : ℕ) (db : S) (start size : ℕ)
      → size ≤ start
      → Loaded chunks cs (min start size) (contents db)
      → Loaded chunks cs size (contents db)
  all_there chunks cs db start size le loaded =
      (omega (arith, loaded.0, le), λ q lt. loaded.1 q (omega (arith, lt, le)))

  -- The part after what was loaded is loaded too.
  later-Loaded :
      (chunks : ℕ → Option Bytes) (cs start size step : ℕ) (old part : Bytes) (t : S)
      → length old ≡ min start size
      → start < size
      → length part ≡ min step (size - start)
      → ((q : ℕ) → q < min start size → byte_at old q ≡ stored_byte chunks cs q)
      → ((q : ℕ) → q < min step (size - start) → byte_at part q ≡ stored_byte chunks cs (start + q))
      → contents t ≡ old ++ part
      → Loaded chunks cs (min (start + step) size) (contents t)
  later-Loaded chunks cs start size step old part t old_length lt part_length old_bytes part_bytes
        is =
      (
        omega (arith, ap length is, length-append old part, old_length, part_length, lt),
        λ q within. ap (λ r. byte_at r q) is ∙ (elim (Bool-cases (ltb q start)) [
          | inl before ↦
              ground (arith, get_or-append old part q 0, old_bytes q, before, old_length, lt)
          | inr after ↦
              let place : start + (q - start) ≡ q = ground (arith, after) in
              let there : byte_at part (q - start) ≡ stored_byte chunks cs q =
                part_bytes (q - start) (ground (arith, after, within, lt))
                ∙ ap (stored_byte chunks cs) place in
              let spot : byte_at part (q - length old) ≡ byte_at part (q - start) =
                ap (byte_at part) (omega (arith, old_length, lt)) in
              ground (arith, get_or-append old part q 0, after, old_length, lt, there, spot)
        ]),
      )

  checked :
      (chunks : ℕ → Option Bytes) (size cs per_read first start : ℕ) (part : Bytes)
      → 0 < cs
      → ((part : Bytes)
          → put_chunks chunks cs 0 0 per_read (zeros (min (per_read * cs) size)) ≡ some part
          → check_header part size ≡ true)
      → start ≡ first * cs
      → put_chunks chunks cs first 0 per_read (zeros (min (per_read * cs) (size - start)))
        ≡ some part
      → (eqb start 0 && not (check_header part size)) ≡ false
  checked chunks size cs per_read first start part cs_pos header is made =
      elim (Bool-cases (eqb start 0)) [
        | inr later ↦ ground (arith, later)
        | inl now' ↦
            let none_before : start ≡ 0 = (eqb_iff start 0).0 now' in
            let at_zero : first ≡ 0 = first_zero first cs cs_pos (sym is ∙ none_before) in
            let same : put_chunks chunks cs 0 0 per_read (zeros (min (per_read * cs) size))
                ≡ some part =
              subst
                (λ f.
                  put_chunks chunks cs f 0 per_read (zeros (min (per_read * cs) size)) ≡ some part)
                at_zero
                (subst
                  (λ m.
                    put_chunks chunks cs first 0 per_read (zeros (min (per_read * cs) m))
                    ≡ some part)
                  (omega (arith, none_before)) made) in
            rw (header part same, now') refl
      ]

  load_parts_lem :
      (fuel : ℕ) (chunks : ℕ → Option Bytes) (size cs per_read first start : ℕ) (db : S)
      → is_power_of_two cs 512 65536 ≡ true
      → 0 < cs
      → 0 < per_read
      → AreWhole chunks cs
      → ((part : Bytes)
          → put_chunks chunks cs 0 0 per_read (zeros (min (per_read * cs) size)) ≡ some part
          → check_header part size ≡ true)
      → start ≡ first * cs
      → size - start ≤ fuel
      → Loaded chunks cs (min start size) (contents db)
      → (t : S) × ((load_parts w fuel chunks size cs per_read start db ≡ some t)
          × Loaded chunks cs size (contents t))
  unfolding load_parts
  load_parts_lem zero chunks size cs per_read first start db ok cs_pos per_pos whole header is le
        loaded =
      (db, (refl, all_there chunks cs db start size (omega arith) loaded))
  load_parts_lem (suc fuel) chunks size cs per_read first start db ok cs_pos per_pos whole header is
        le loaded =
      elim (Bool-cases (ltb start size)) [
        | inr past ↦
            (db, (rw past refl, all_there chunks cs db start size (ground (arith, past)) loaded))
        | inl more ↦
            let step_pos : 0 < per_read * cs = mul-pos per_pos cs_pos in
            let quotient : start / cs ≡ first = ap (λ m. m / cs) is ∙ mul-div_cancel first cs_pos in
            let len = min (per_read * cs) (size - start) in
            let (part, made, part_length, part_bytes) =
              part_lem chunks cs first per_read len cs_pos whole (omega arith) in
            let read : put_chunks chunks cs (start / cs) 0 per_read (zeros len) ≡ some part =
              ap (λ f. put_chunks chunks cs f 0 per_read (zeros len)) quotient ∙ made in
            let (t, (appended, t_is)) =
              load_lem part start size cs db ok (ground (arith, part_length, step_pos, more))
                (ground (arith, loaded.0, more)) in
            let (u, (rest, u_loaded)) =
              load_parts_lem fuel chunks size cs per_read (first + per_read) (start + per_read * cs)
                t ok cs_pos per_pos whole header (omega (arith, add-mul first per_read cs, is))
                (ground (arith, le, step_pos, more))
                (later-Loaded chunks cs start size (per_read * cs) (contents db) part t loaded.0
                  (ground (arith, more)) part_length loaded.1
                  (λ q lt. part_bytes q lt ∙ ap (stored_byte chunks cs) (omega (arith, is)))
                  t_is) in
            (
              u,
              (
                rw
                    (
                      more,
                      read,
                      ◌>>=◌,
                      checked chunks size cs per_read first start part cs_pos header is made,
                      appended,
                    )
                    rest,
                u_loaded,
              ),
            )
      ]

  -- A stored file whose meta and header are valid and whose chunks are whole loads in full into an
  -- empty database, in as many reads and pieces as it takes: the database then has its size, and each
  -- byte of its chunks, zero where a chunk was never written. It is given that the database allocates
  -- what it is asked for and, with such a chunk size, appends parts that come in order.
  pub load_into-Loaded :
      (stored : Stored) (meta : Meta) (db : S)
      → stored.meta ≡ some meta
      → check_meta meta ≡ true
      → AreWhole stored.chunks meta.chunk_size
      → ((part : Bytes)
          → put_chunks stored.chunks meta.chunk_size 0 0
              (max 1 (read_bytes / meta.chunk_size))
              (zeros (min (max 1 (read_bytes / meta.chunk_size) * meta.chunk_size) meta.size))
            ≡ some part
          → check_header part meta.size ≡ true)
      → contents db ≡ []
      → (t : S) × ((load_into w stored db ≡ some (some meta.size, t))
          × Loaded stored.chunks meta.chunk_size meta.size (contents t))
  unfolding load_into load_meta check_meta is_power_of_two
  load_into-Loaded stored meta db there valid whole header empty =
      let per_read = max 1 (read_bytes / meta.chunk_size) in
      let cs_pos : 0 < meta.chunk_size = ground (arith, valid) in
      let (t, (loaded, is)) =
        load_parts_lem meta.size stored.chunks meta.size meta.chunk_size per_read 0 0 db valid
          cs_pos (omega arith) whole header (omega arith) (omega arith)
          (omega (arith, ap length empty), λ q lt. absurd (omega (arith, lt))) in
      (t, (rw (there, valid, loaded, ◌>>=◌) refl, is))
