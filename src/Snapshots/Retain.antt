-- ===== src/Snapshots/Retain.antt =====
-- `retain` of `SnapshotStorage`, of snapshots.ts: which snapshots stay, and the others' removal.
use sqlite_wasm.Prelude.{
  ℕ, zero, suc, ◌+◌, ◌-◌, String, Option, none, some, List, [], ◌∷◌, ◌++◌, ltb, leb, ◌&&◌, ◌||◌,
  not, if◌then◌else◌, Bool, true, false, length, take, string_eq, ◌==◌,
}
use sqlite_wasm.JsMap
use sqlite_wasm.JsMap.{JsMap}
use sqlite_wasm.Snapshots.Types.{SnapshotInfo}
use sqlite_wasm.Snapshots.MemoryStore.{MemoryStore, remove}
use sqlite_wasm.Snapshots.Listing.{list}

-- STALE_MS, in microseconds
abbrev pub stale_after : ℕ
stale_after = 3600000000

-- A whole number, or `none` for Infinity
abbrev pub Limit : Type 0
Limit = Option ℕ

pub record RetainPolicy : Type 0 where
  pub per_branch : Limit
  pub branches : Limit
  pub pinned : List String

-- `wholeNumber` of a number that is whole; false is its RangeError.
unfoldable pub whole_number : Limit → ℕ → Bool
whole_number none least = true
whole_number (some value) least = leb least value

-- `count <= limit`
unfoldable pub up_to : ℕ → Limit → Bool
up_to count none = true
up_to count (some limit) = leb count limit

unfoldable pub first_of : Limit → List String → List String
first_of none xs = xs
first_of (some limit) xs = take limit xs

-- `ranked.includes(x)`, and `has` of a `Set` that is the list of its members
unfoldable pub includes : List String → String → Bool
includes [] x = false
includes (y ∷ xs) x = y == x || includes xs x

-- `set.add(x)`
unfoldable pub add_key : List String → String → List String
unfolding includes
add_key xs x = if includes xs x then xs else xs ++ (x ∷ [])

abbrev pub or_zero : Option ℕ → ℕ
or_zero none = 0
or_zero (some n) = n

-- Whether the storage has locks, and whether its store's content outlives removal.
pub record Keeper : Type 0 where
  pub locks : Bool
  pub keeps_removed : Bool

-- `perBranch + (this.locks || this.store.keepsRemoved ? 0 : 1)`
unfoldable pub kept_count : Keeper → Limit → Limit
kept_count k none = none
kept_count k (some n) = some (if k.locks || k.keeps_removed then n else n + 1)

-- `seen` and `keys`
pub record Kept : Type 0 where
  pub seen : JsMap String ℕ
  pub keys : List String

abbrev pub or_none : Option (Option String) → Option String
or_none none = none
or_none (some parent) = parent

-- `parents.get(key)`: undefined also for a snapshot without a parent
unfoldable pub parent_at : JsMap String (Option String) → String → Option String
parent_at parents key = or_none (JsMap.get parents key)

-- `for (let at = parents.get(key); at !== undefined && !keys.has(at); at = parents.get(at))`, which
-- adds a listed key in each round but the last.
unfoldable pub add_parents :
    ℕ → JsMap String (Option String) → Option String → List String → List String
unfolding includes parent_at
add_parents zero parents at keys = keys
add_parents (suc fuel) parents none keys = keys
add_parents (suc fuel) parents (some at) keys =
    let rest = add_parents fuel parents (parent_at parents at) (keys ++ (at ∷ [])) in
    if includes keys at then keys else rest

-- `for (const key of [...keys])`
unfoldable pub add_all_parents :
    ℕ → JsMap String (Option String) → List String → List String → List String
unfolding add_parents parent_at
add_all_parents fuel parents [] keys = keys
add_all_parents fuel parents (key ∷ rest) keys =
    add_all_parents fuel parents rest (add_parents fuel parents (parent_at parents key) keys)

module _ {M : Type 0} where
  unfoldable pub ranked_from : List (SnapshotInfo M) → List String → List String
  unfolding includes
  ranked_from [] ranked = ranked
  ranked_from (s ∷ all) ranked =
      ranked_from all (
        if ltb 0 s.size && not (includes ranked s.branch)
        then ranked ++ (s.branch ∷ [])
        else ranked)

  -- One round of the loop that fills `keys`
  unfoldable pub keep_one : Keeper → RetainPolicy → List String → ℕ → SnapshotInfo M → Kept → Kept
  unfolding includes add_key up_to kept_count
  keep_one k policy branches now s kept =
      let count = or_zero (JsMap.get kept.seen s.branch) + 1 in
      let with_it = add_key kept.keys s.key in
      let is_head = up_to count (kept_count k policy.per_branch) && includes branches s.branch in
      let is_new = not k.locks && ltb (now - s.created_at) stale_after in
      if includes policy.pinned s.key
      then record { seen = kept.seen; keys = with_it }
      else if ltb 0 s.size
      then record {
        seen = JsMap.set kept.seen s.branch count;
        keys = if is_head then with_it else kept.keys;
      }
      else record { seen = kept.seen; keys = if is_new then with_it else kept.keys }

  unfoldable pub keep_each :
      Keeper → RetainPolicy → List String → ℕ → List (SnapshotInfo M) → Kept → Kept
  unfolding keep_one
  keep_each k policy branches now [] kept = kept
  keep_each k policy branches now (s ∷ all) kept =
      keep_each k policy branches now all (keep_one k policy branches now s kept)

  -- `new Map(all.map(s => [s.key, s.parent]))`
  unfoldable pub parents_from :
      List (SnapshotInfo M) → JsMap String (Option String) → JsMap String (Option String)
  parents_from [] parents = parents
  parents_from (s ∷ all) parents = parents_from all (JsMap.set parents s.key s.parent)

  -- `keys`, before the parents are added
  unfoldable pub own_keys : Keeper → RetainPolicy → ℕ → List (SnapshotInfo M) → List String
  unfolding ranked_from first_of keep_each
  own_keys k policy now all =
      let branches = first_of policy.branches (ranked_from all []) in
      (keep_each k policy branches now all (record { seen = []; keys = [] })).keys

  -- The keys that stay
  unfoldable pub kept_keys : Keeper → RetainPolicy → ℕ → List (SnapshotInfo M) → List String
  unfolding own_keys parents_from add_all_parents
  kept_keys k policy now all =
      let parents = parents_from all [] in
      let keys = own_keys k policy now all in add_all_parents (length parents + 1) parents keys keys

  -- The loop that removes the others, where `free` says whether the lock of a key is granted, as it is
  -- while nobody reads the snapshot.
  unfoldable pub remove_others :
      (String → Bool)
      → List String
      → List (SnapshotInfo M)
      → MemoryStore M
      → List String × MemoryStore M
  unfolding includes
  remove_others free keys [] s = ([], s)
  remove_others free keys (info ∷ all) s =
      let removed = remove info.key false s in
      let rest = remove_others free keys all removed.1 in
      let others = remove_others free keys all s in
      if includes keys info.key || not (free info.key)
      then others
      else ((if removed.0 then info.key ∷ rest.0 else rest.0), rest.1)

  -- `retain`, over the memory store. `none` is a RangeError.
  unfoldable pub retain :
      Keeper
      → (String → Bool)
      → RetainPolicy
      → ℕ
      → MemoryStore M
      → Option (List String × MemoryStore M)
  unfolding whole_number kept_keys remove_others list
  retain k free policy now s =
      let all = list s none in
      let granted : String → Bool = λ key. not k.locks || free key in
      if whole_number policy.per_branch 1 && whole_number policy.branches 0
      then some (remove_others granted (kept_keys k policy now all) all s)
      else none
