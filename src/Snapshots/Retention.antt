-- ===== src/Snapshots/Retention.antt =====
-- What `retain` of snapshots.ts keeps and deletes.
use sqlite_wasm.Prelude.{
  ℕ, zero, suc, ◌+◌, ◌≤◌, ◌<◌, ◌≡◌, refl, sym, ap, ◌⊎◌, inl, inr, String, Option, none, some, List,
  [], ◌∷◌, ◌++◌, ◌||◌, if◌then◌else◌, true, false, length, string_eq, ◌==◌, arith, Bool-cases,
  Option-cases, beq_refl, subst, if_elim,
}
use sqlite_wasm.JsMap
use sqlite_wasm.JsMap.{JsMap, get-delete}
use sqlite_wasm.Snapshots.Types.{SnapshotInfo}
use sqlite_wasm.Snapshots.Retain.{
  includes, parent_at, add_parents, add_all_parents, kept_keys, own_keys, parents_from, Keeper,
  RetainPolicy,
}

pub includes-append :
    (xs ys : List String) (x : String) → includes (xs ++ ys) x ≡ (includes xs x || includes ys x)
unfolding includes
includes-append [] ys x = refl
includes-append (y ∷ xs) ys x = ground (arith, includes-append xs ys x)

-- How many keys of the map are not in the set.
unfoldable unlisted : JsMap String (Option String) → List String → ℕ
unlisted [] keys = 0
unlisted ((k, v) ∷ parents) keys =
    let rest = unlisted parents keys in if includes keys k then rest else rest + 1

unlisted-le :
    (parents : JsMap String (Option String)) (keys : List String)
    → unlisted parents keys ≤ length parents
unfolding unlisted
unlisted-le [] keys = omega arith
unlisted-le ((k, v) ∷ parents) keys = ground (arith, unlisted-le parents keys)

unlisted-add-le :
    (parents : JsMap String (Option String)) (keys : List String) (at : String)
    → unlisted parents (keys ++ (at ∷ [])) ≤ unlisted parents keys
unfolding unlisted
unlisted-add-le [] keys at = omega arith
unlisted-add-le ((k, v) ∷ parents) keys at =
    ground (arith, unlisted-add-le parents keys at, includes-append keys (at ∷ []) k)

unlisted-add-lt :
    (parents : JsMap String (Option String)) (keys : List String) (at : String) {p : String}
    → parent_at parents at ≡ some p
    → includes keys at ≡ false
    → unlisted parents (keys ++ (at ∷ [])) < unlisted parents keys
unfolding unlisted parent_at JsMap.get includes
unlisted-add-lt [] keys at h out = absurd (ground (arith, h))
unlisted-add-lt ((k, v) ∷ parents) keys at h out = elim (Bool-cases (k == at)) [
  | inl same ↦
      let is : k ≡ at = (string_eq.beq_iff k at).0 same in
      rw (← is) (
        ground (
          arith,
          unlisted-add-le parents keys k,
          includes-append keys (k ∷ []) k,
          beq_refl k,
          is,
          out,
          ap (includes keys) is,
        ))
  | inr other ↦
      ground (
        arith,
        unlisted-add-lt parents keys at (rw other at h) out,
        includes-append keys (at ∷ []) k,
      )
]

-- Why a key of the set may stand there: its parent is in the set, or will be, once `rest` and `at` are
-- done.
data Standing (parents : JsMap String (Option String)) (rest : List String) (at : Option String)
    (keys : List String) (k : String) : Type 0 where
  queued : includes rest k ≡ true → Standing parents rest at keys k
  rooted : parent_at parents k ≡ none → Standing parents rest at keys k
  listed :
      (p : String)
      → parent_at parents k ≡ some p
      → includes keys p ≡ true
      → Standing parents rest at keys k
  frontier : parent_at parents k ≡ at → Standing parents rest at keys k

abbrev Closing : JsMap String (Option String) → List String → Option String → List String → Type 0
Closing parents rest at keys =
    (k : String) → includes keys k ≡ true → Standing parents rest at keys k

stops :
    (parents : JsMap String (Option String)) (rest : List String) (at : String) (keys : List String)
    (k : String)
    → includes keys at ≡ true
    → Standing parents rest (some at) keys k
    → Standing parents rest none keys k
stops parents rest at keys k in' (queued h) = queued h
stops parents rest at keys k in' (rooted h) = rooted h
stops parents rest at keys k in' (listed p h i) = listed p h i
stops parents rest at keys k in' (frontier h) = listed at h in'

goes_on :
    (parents : JsMap String (Option String)) (rest : List String) (at : String) (keys : List String)
    (k : String)
    → Standing parents rest (some at) keys k
    → Standing parents rest (parent_at parents at) (keys ++ (at ∷ [])) k
unfolding includes
goes_on parents rest at keys k (queued h) = queued h
goes_on parents rest at keys k (rooted h) = rooted h
goes_on parents rest at keys k (listed p h i) =
    listed p h (ground (arith, includes-append keys (at ∷ []) p, i))
goes_on parents rest at keys k (frontier h) =
    listed at h (ground (arith, includes-append keys (at ∷ []) at, beq_refl at))

added-Closing :
    (parents : JsMap String (Option String)) (rest : List String) (at : String) (keys : List String)
    → Closing parents rest (some at) keys
    → Closing parents rest (parent_at parents at) (keys ++ (at ∷ []))
unfolding includes
added-Closing parents rest at keys c k in' = elim (Bool-cases (includes keys k)) [
  | inl old ↦ goes_on parents rest at keys k (c k old)
  | inr new ↦
      let same : (at == k) ≡ true = ground (arith, includes-append keys (at ∷ []) k, in', new) in
      let is : at ≡ k = (string_eq.beq_iff at k).0 same in
      frontier (ap (parent_at parents) (sym is))
]

fuel_left :
    (fuel : ℕ) (parents : JsMap String (Option String)) (at : String) (keys : List String)
    → includes keys at ≡ false
    → (some at ≡ none) ⊎ (unlisted parents keys < suc fuel)
    → (parent_at parents at ≡ none) ⊎ (unlisted parents (keys ++ (at ∷ [])) < fuel)
fuel_left fuel parents at keys out (inl e) = absurd (ground (arith, e))
fuel_left fuel parents at keys out (inr lt) = elim (Option-cases (parent_at parents at)) [
  | inl e ↦ inl e
  | inr (p, e) ↦ inr (omega (arith, unlisted-add-lt parents keys at e out, lt))
]

add_parents-Closing :
    (fuel : ℕ) (parents : JsMap String (Option String)) (rest : List String) (at : Option String)
    (keys : List String)
    → (at ≡ none) ⊎ (unlisted parents keys < fuel)
    → Closing parents rest at keys
    → Closing parents rest none (add_parents fuel parents at keys)
unfolding add_parents
add_parents-Closing zero parents rest at keys (inl e) c =
    subst (λ at. Closing parents rest at keys) e c
add_parents-Closing zero parents rest at keys (inr lt) c = absurd (omega (arith, lt))
add_parents-Closing (suc fuel) parents rest none keys e c = c
add_parents-Closing (suc fuel) parents rest (some at) keys e c =
    if_elim (Closing parents rest none) (includes keys at)
      (λ in' k i. stops parents rest at keys k in' (c k i))
      (λ out.
        add_parents-Closing fuel parents rest (parent_at parents at) (keys ++ (at ∷ []))
          (fuel_left fuel parents at keys out e) (added-Closing parents rest at keys c))

add_parents-keeps :
    (fuel : ℕ) (parents : JsMap String (Option String)) (at : Option String) (keys : List String)
    (k : String)
    → includes keys k ≡ true
    → includes (add_parents fuel parents at keys) k ≡ true
unfolding add_parents
add_parents-keeps zero parents at keys k h = h
add_parents-keeps (suc fuel) parents none keys k h = h
add_parents-keeps (suc fuel) parents (some at) keys k h = ground (
  arith,
  add_parents-keeps fuel parents (parent_at parents at) (keys ++ (at ∷ [])) k,
  includes-append keys (at ∷ []) k,
  h,
)

next_key :
    (parents : JsMap String (Option String)) (key : String) (rest keys : List String) (k : String)
    → Standing parents (key ∷ rest) none keys k
    → Standing parents rest (parent_at parents key) keys k
unfolding includes
next_key parents key rest keys k (queued h) = elim (Bool-cases (key == k)) [
  | inl same ↦
      let is : key ≡ k = (string_eq.beq_iff key k).0 same in
      frontier (ap (parent_at parents) (sym is))
  | inr other ↦ queued (ground (arith, h, other))
]
next_key parents key rest keys k (rooted h) = rooted h
next_key parents key rest keys k (listed p h i) = listed p h i
next_key parents key rest keys k (frontier h) = rooted h

add_all_parents-Closing :
    (fuel : ℕ) (parents : JsMap String (Option String)) (rest keys : List String)
    → length parents < fuel
    → Closing parents rest none keys
    → Closing parents [] none (add_all_parents fuel parents rest keys)
unfolding add_all_parents
add_all_parents-Closing fuel parents [] keys lt c = c
add_all_parents-Closing fuel parents (key ∷ rest) keys lt c =
    add_all_parents-Closing fuel parents rest
      (add_parents fuel parents (parent_at parents key) keys) lt
      (add_parents-Closing fuel parents rest (parent_at parents key) keys
        (inr (omega (arith, unlisted-le parents keys, lt)))
        (λ k i. next_key parents key rest keys k (c k i)))

pub add_all_parents-keeps :
    (fuel : ℕ) (parents : JsMap String (Option String)) (rest keys : List String) (k : String)
    → includes keys k ≡ true
    → includes (add_all_parents fuel parents rest keys) k ≡ true
unfolding add_all_parents
add_all_parents-keeps fuel parents [] keys k h = h
add_all_parents-keeps fuel parents (key ∷ rest) keys k h =
    add_all_parents-keeps fuel parents rest (add_parents fuel parents (parent_at parents key) keys)
      k (add_parents-keeps fuel parents (parent_at parents key) keys k h)

module _ {M : Type 0} where
  -- The kept set holds the listed parent of each key in it, for any policy and any list, also where
  -- the listed parents form a cycle.
  pub kept_keys-closed :
      (k : Keeper) (policy : RetainPolicy) (now : ℕ) (all : List (SnapshotInfo M)) (key p : String)
      → includes (kept_keys k policy now all) key ≡ true
      → parent_at (parents_from all []) key ≡ some p
      → includes (kept_keys k policy now all) p ≡ true
  unfolding kept_keys
  kept_keys-closed k policy now all key p in' parent = closed (
      add_all_parents-Closing (length (parents_from all []) + 1) (parents_from all [])
        (own_keys k policy now all) (own_keys k policy now all) (omega arith) (λ k i. queued i) key
        in')
    where
      closed :
          {keys : List String}
          → Standing (parents_from all []) [] none keys key
          → includes keys p ≡ true
      closed (queued h) = absurd (unfold includes in ground (arith, h))
      closed (rooted h) = absurd (ground (arith, h, parent))
      closed (listed q h i) = let is : q ≡ p = ground (arith, h, parent) in rw (← is) i
      closed (frontier h) = absurd (ground (arith, h, parent))
