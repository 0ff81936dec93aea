-- ===== src/Snapshots/RetainTests.antt =====
-- A concrete run of `retain` of snapshots.ts.
use sqlite_wasm.Prelude.{
  ◌&&◌, ◌||◌, ℕ, ◌≡◌, refl, String, Option, none, some, List, [], ◌∷◌, string_eq, ◌||◌, not,
  if◌then◌else◌, Bool, true, false, get_or, arith, write_at, slice,
}
use sqlite_wasm.JsMap
use sqlite_wasm.Snapshots.Types.{SnapshotInfo}
use sqlite_wasm.Snapshots.NewSnapshot.{NewSnapshot}
use sqlite_wasm.Snapshots.MemoryStore.{
  MemoryStore, empty_store, write, remove, get, add_composed, add, compose, composed_full, put_base,
  put_in_place, stored_as, layout_of, is_missing, rests_on, lies_over,
}
use sqlite_wasm.Snapshots.MemoryStore
use sqlite_wasm.Snapshots.StoreInvariant.{IsStore, created, after_write, Reached-IsStore}
use sqlite_wasm.Snapshots.Listing.{list, newest_first, put_newest, is_of}
use sqlite_wasm.Snapshots.Retain.{
  includes, Keeper, RetainPolicy, add_key, up_to, kept_count, keep_one, keep_each, ranked_from,
  first_of, own_keys, kept_keys, parents_from, parent_at, add_parents, add_all_parents,
  whole_number, remove_others, retain,
}
use sqlite_wasm.Snapshots.Retention.{kept_keys-closed}
use sqlite_wasm.Snapshots.Removal.{retain-IsStore}
use sqlite_wasm.Snapshots.Heads.{kept_keys-pinned, kept_keys-head}

abbrev full_of : String → NewSnapshot ℕ
full_of key = record {
  key = key;
  branch = "main";
  meta = 0;
  base = none;
  visible = 0;
  size = 2;
  chunk_size = 2;
  pages = 0 ∷ [];
  page = λ i. get_or ((1 ∷ 2 ∷ []) ∷ []) i [];
  delta = none;
}

abbrev one : MemoryStore ℕ
one = (write 5 (full_of "a") empty_store).1

abbrev two : MemoryStore ℕ
two = (write 6 (full_of "b") one).1

two-IsStore : IsStore two
two-IsStore =
    Reached-IsStore two
      (after_write 6 (full_of "b") one (after_write 5 (full_of "a") empty_store created tt) tt)

abbrev keeper : Keeper
keeper = record { locks = false; keeps_removed = true }

abbrev newest_only : RetainPolicy
newest_only = record { per_branch = some 1; branches = none; pinned = [] }

abbrev pin_old : RetainPolicy
pin_old = record { per_branch = some 1; branches = none; pinned = "a" ∷ [] }

abbrev nobody_reads : String → Bool
nobody_reads key = true

old_is_deleted :
    retain keeper nobody_reads newest_only 7 two ≡ some ("a" ∷ [], (remove "a" false two).1)
unfolding retain list newest_first put_newest is_of whole_number kept_keys own_keys keep_each
    keep_one ranked_from first_of up_to kept_count includes add_key parents_from parent_at
    add_parents add_all_parents remove_others remove lies_over rests_on write add_composed add
    compose composed_full put_base put_in_place write_at slice stored_as layout_of is_missing
    empty_store JsMap.get JsMap.set JsMap.has JsMap.delete MemoryStore.list
old_is_deleted = refl

retain-IsStore_example :
    IsStore (remove "a" false two).1
    × ((key : String)
        → get (remove "a" false two).1 key
          ≡ (if includes ("a" ∷ []) key then none else get two key))
    × ((key : String)
        → (includes ("a" ∷ []) key
            && (includes (kept_keys keeper newest_only 7 (list two none)) key
                || not (not false || nobody_reads key)))
          ≡ false)
retain-IsStore_example =
    retain-IsStore keeper nobody_reads newest_only 7 two (remove "a" false two).1 ("a" ∷ [])
      two-IsStore old_is_deleted

abbrev info_of : String → ℕ → Option String → SnapshotInfo ℕ
info_of key at parent = record {
  key = key;
  branch = "main";
  meta = 0;
  created_at = at;
  size = 2;
  parent = parent;
}

abbrev listing : List (SnapshotInfo ℕ)
listing = info_of "c" 7 (some "a") ∷ info_of "b" 6 none ∷ info_of "a" 5 none ∷ []

kept_keys-closed_example : includes (kept_keys keeper newest_only 8 listing) "a" ≡ true
kept_keys-closed_example =
    kept_keys-closed keeper newest_only 8 listing "c" "a"
      (unfold kept_keys own_keys keep_each keep_one ranked_from first_of up_to kept_count includes
          add_key parents_from parent_at add_parents add_all_parents JsMap.get JsMap.set in
        refl)
      (unfold parents_from parent_at JsMap.get JsMap.set in refl)

kept_keys-pinned_example : includes (kept_keys keeper pin_old 8 listing) "a" ≡ true
kept_keys-pinned_example =
    kept_keys-pinned keeper pin_old 8 (info_of "c" 7 (some "a") ∷ info_of "b" 6 none ∷ []) []
      (info_of "a" 5 none) (unfold includes in refl)

kept_keys-head_example : includes (kept_keys keeper newest_only 8 listing) "c" ≡ true
kept_keys-head_example =
    kept_keys-head keeper newest_only 8 [] (info_of "b" 6 none ∷ info_of "a" 5 none ∷ [])
      (info_of "c" 7 (some "a")) refl (unfold whole_number in refl) (omega arith) tt
