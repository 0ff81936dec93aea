-- ===== src/Snapshots/Heads.antt =====
-- The snapshots that `retain` of snapshots.ts always keeps: pinned ones and the heads of branches.
use sqlite_wasm.Prelude.{
  ℕ, ◌+◌, ◌-◌, ◌<◌, ◌≡◌, refl, String, none, some, List, [], ◌∷◌, ◌++◌, ltb, ◌&&◌, ◌||◌, not,
  length, true, false, string_eq, ◌==◌, arith, beq_refl, if_elim, All,
}
use sqlite_wasm.JsMap
use sqlite_wasm.JsMap.{JsMap, get-set}
use sqlite_wasm.Snapshots.Types.{SnapshotInfo}
use sqlite_wasm.Snapshots.Retain.{
  includes, add_key, up_to, kept_count, or_zero, Keeper, RetainPolicy, Kept, keep_one, keep_each,
  ranked_from, first_of, own_keys, kept_keys, whole_number, parents_from, stale_after, Limit,
}
use sqlite_wasm.Snapshots.Retention.{includes-append, add_all_parents-keeps}

add_key-includes :
    (keys : List String) (key k : String)
    → includes (add_key keys key) k ≡ (includes keys k || key == k)
unfolding add_key includes
add_key-includes keys key k =
    ground (arith, includes-append keys (key ∷ []) k, string_eq.beq_iff key k)

counts_one : (k : Keeper) (l : Limit) → whole_number l 1 ≡ true → up_to 1 (kept_count k l) ≡ true
unfolding whole_number up_to kept_count
counts_one k none h = refl
counts_one k (some n) h = ground (arith, h)

module _ {M : Type 0} where
  module _ (k : Keeper) (policy : RetainPolicy) (branches : List String) (now : ℕ) where
    keep_one-keeps :
        (s : SnapshotInfo M) (kept : Kept) (key : String)
        → includes kept.keys key ≡ true
        → includes (keep_one k policy branches now s kept).keys key ≡ true
    unfolding keep_one
    keep_one-keeps s kept key h =
        let old : includes (add_key kept.keys s.key) key ≡ true =
          ground (arith, add_key-includes kept.keys s.key key, h) in
        if_elim (λ (r : Kept). includes r.keys key ≡ true) (includes policy.pinned s.key) (λ _. old)
          (λ _.
            if_elim (λ (r : Kept). includes r.keys key ≡ true) (ltb 0 s.size)
              (λ _.
                if_elim (λ keys. includes keys key ≡ true)
                  (up_to (or_zero (JsMap.get kept.seen s.branch) + 1)
                      (kept_count k policy.per_branch)
                    && includes branches s.branch)
                  (λ _. old) (λ _. h))
              (λ _.
                if_elim (λ keys. includes keys key ≡ true)
                  (not k.locks && ltb (now - s.created_at) stale_after) (λ _. old) (λ _. h)))

    keep_each-keeps :
        (all : List (SnapshotInfo M)) (kept : Kept) (key : String)
        → includes kept.keys key ≡ true
        → includes (keep_each k policy branches now all kept).keys key ≡ true
    unfolding keep_each
    keep_each-keeps [] kept key h = h
    keep_each-keeps (s ∷ all) kept key h =
        keep_each-keeps all (keep_one k policy branches now s kept) key
          (keep_one-keeps s kept key h)

    -- A snapshot is kept if its own round keeps it, by what holds after the rounds before it.
    keep_each-at :
        (before after : List (SnapshotInfo M)) (s : SnapshotInfo M) (kept : Kept)
        (P : Kept → Type 0) (Q : SnapshotInfo M → Type 0)
        → All Q before
        → P kept
        → ((t : SnapshotInfo M) (kept : Kept)
            → Q t
            → P kept
            → P (keep_one k policy branches now t kept))
        → ((kept : Kept)
            → P kept
            → includes (keep_one k policy branches now s kept).keys s.key ≡ true)
        → includes (keep_each k policy branches now (before ++ (s ∷ after)) kept).keys s.key ≡ true
    unfolding keep_each
    keep_each-at [] after s kept P Q q h step own_round =
        keep_each-keeps after (keep_one k policy branches now s kept) s.key (own_round kept h)
    keep_each-at (t ∷ before) after s kept P Q q h step own_round =
        keep_each-at before after s (keep_one k policy branches now t kept) P Q q.1
          (step t kept q.0 h) step own_round

    pinned_now :
        (s : SnapshotInfo M) (kept : Kept)
        → includes policy.pinned s.key ≡ true
        → includes (keep_one k policy branches now s kept).keys s.key ≡ true
    unfolding keep_one
    pinned_now s kept h =
        rw h (ground (arith, add_key-includes kept.keys s.key s.key, beq_refl s.key))

    -- Another snapshot does not count for the branch of `s`.
    abbrev pub IsOther : SnapshotInfo M → SnapshotInfo M → Type 0
    IsOther s t = (ltb 0 t.size && t.branch == s.branch) ≡ false

    not_counted :
        (s t : SnapshotInfo M) (kept : Kept)
        → IsOther s t
        → JsMap.get kept.seen s.branch ≡ none
        → JsMap.get (keep_one k policy branches now t kept).seen s.branch ≡ none
    unfolding keep_one
    not_counted s t kept other h =
        if_elim (λ (r : Kept). JsMap.get r.seen s.branch ≡ none) (includes policy.pinned t.key)
          (λ _. h)
          (λ _.
            if_elim (λ (r : Kept). JsMap.get r.seen s.branch ≡ none) (ltb 0 t.size)
              (λ written. ground (
                arith,
                get-set kept.seen t.branch s.branch (or_zero (JsMap.get kept.seen t.branch) + 1),
                written,
                other,
                h,
              ))
              (λ _. h))

    head_now :
        (s : SnapshotInfo M) (kept : Kept)
        → whole_number policy.per_branch 1 ≡ true
        → includes branches s.branch ≡ true
        → 0 < s.size
        → JsMap.get kept.seen s.branch ≡ none
        → includes (keep_one k policy branches now s kept).keys s.key ≡ true
    unfolding keep_one
    head_now s kept whole listed written h =
        let added : includes (add_key kept.keys s.key) s.key ≡ true =
          ground (arith, add_key-includes kept.keys s.key s.key, beq_refl s.key) in
        let size : ltb 0 s.size ≡ true = ground (arith, written) in
        if_elim (λ (r : Kept). includes r.keys s.key ≡ true) (includes policy.pinned s.key)
          (λ _. added) (λ _. rw (size, h) (rw (counts_one k policy.per_branch whole, listed) added))

  ranked_from-keeps :
      (all : List (SnapshotInfo M)) (ranked : List String) (branch : String)
      → includes ranked branch ≡ true
      → includes (ranked_from all ranked) branch ≡ true
  unfolding ranked_from
  ranked_from-keeps [] ranked branch h = h
  ranked_from-keeps (s ∷ all) ranked branch h = ranked_from-keeps all _ branch (
      if_elim (λ r. includes r branch ≡ true) (ltb 0 s.size && not (includes ranked s.branch))
        (λ _. ground (arith, includes-append ranked (s.branch ∷ []) branch, h)) (λ _. h))

  ranked_from-includes :
      (before after : List (SnapshotInfo M)) (s : SnapshotInfo M) (ranked : List String)
      → 0 < s.size
      → includes (ranked_from (before ++ (s ∷ after)) ranked) s.branch ≡ true
  unfolding ranked_from includes
  ranked_from-includes [] after s ranked written =
      ranked_from-keeps after _ s.branch (
        ground (arith, includes-append ranked (s.branch ∷ []) s.branch, beq_refl s.branch, written))
  ranked_from-includes (t ∷ before) after s ranked written =
      ranked_from-includes before after s _ written

  All-unit : (xs : List (SnapshotInfo M)) → All (λ x. Unit {0}) xs
  All-unit [] = tt
  All-unit (x ∷ xs) = (tt, All-unit xs)

  -- A listed snapshot that is pinned stays, whatever the policy says else.
  pub kept_keys-pinned :
      (k : Keeper) (policy : RetainPolicy) (now : ℕ) (before after : List (SnapshotInfo M))
      (s : SnapshotInfo M)
      → includes policy.pinned s.key ≡ true
      → includes (kept_keys k policy now (before ++ (s ∷ after))) s.key ≡ true
  unfolding kept_keys own_keys
  kept_keys-pinned k policy now before after s h =
      let all = before ++ (s ∷ after) in
      let branches = first_of policy.branches (ranked_from all []) in
      let keys = own_keys k policy now all in
      add_all_parents-keeps (length (parents_from all []) + 1) (parents_from all []) keys keys s.key
        (keep_each-at k policy branches now before after s (record { seen = []; keys = [] })
          (λ _. Unit {0}) (λ _. Unit {0}) (All-unit before) tt (λ t kept q p. tt)
          (λ kept p. pinned_now k policy branches now s kept h))

  -- With no limit on branches, and a valid one on snapshots per branch, the head of each branch stays:
  -- the first written snapshot of the branch in the list, which is newest first.
  pub kept_keys-head :
      (k : Keeper) (policy : RetainPolicy) (now : ℕ) (before after : List (SnapshotInfo M))
      (s : SnapshotInfo M)
      → policy.branches ≡ none
      → whole_number policy.per_branch 1 ≡ true
      → 0 < s.size
      → All (λ t. (ltb 0 t.size && t.branch == s.branch) ≡ false) before
      → includes (kept_keys k policy now (before ++ (s ∷ after))) s.key ≡ true
  unfolding kept_keys own_keys first_of
  kept_keys-head k policy now before after s every whole written first =
      let all = before ++ (s ∷ after) in
      let branches = first_of policy.branches (ranked_from all []) in
      let keys = own_keys k policy now all in
      let listed : includes branches s.branch ≡ true =
        rw every (ranked_from-includes before after s [] written) in
      add_all_parents-keeps (length (parents_from all []) + 1) (parents_from all []) keys keys s.key
        (keep_each-at k policy branches now before after s (record { seen = []; keys = [] })
          (λ kept. JsMap.get kept.seen s.branch ≡ none)
          (λ t. (ltb 0 t.size && t.branch == s.branch) ≡ false) first (unfold JsMap.get in refl)
          (λ t kept q p. not_counted k policy branches now s t kept q p)
          (λ kept p. head_now k policy branches now s kept whole listed written p))
