-- ===== src/JsMap.antt =====
-- JavaScript's `Map`, as the list of its entries in insertion order.
use sqlite_wasm.Prelude.{
  ◌≡◌, refl, Bool, true, false, Option, none, some, List, [], ◌∷◌, arith, Eq, ◌==◌, beq_refl,
  Bool-cases, inl, inr, if◌then◌else◌, length, ◌+◌, ◌-◌, ◌≤◌, ◌<◌, beq_refl,
}

abbrev pub JsMap {ℓ} : Type ℓ → Type ℓ → Type ℓ
JsMap K V = List (K × V)

module _ {ℓ} {K V : Type ℓ} ⦃e : Eq K⦄ where
  unfoldable pub get : JsMap K V → K → Option V
  get [] k = none
  get ((j, v) ∷ m) k = if j == k then some v else get m k

  unfoldable pub has : JsMap K V → K → Bool
  has [] k = false
  has ((j, v) ∷ m) k = if j == k then true else has m k

  -- A key that is there keeps its place.
  unfoldable pub set : JsMap K V → K → V → JsMap K V
  set [] k v = (k, v) ∷ []
  set ((j, w) ∷ m) k v = if j == k then (k, v) ∷ m else (j, w) ∷ set m k v

  unfoldable pub delete : JsMap K V → K → JsMap K V
  delete [] k = []
  delete ((j, w) ∷ m) k = let rest = delete m k in if j == k then rest else (j, w) ∷ rest

  pub get-set :
      (m : JsMap K V) (k j : K) (v : V) → get (set m k v) j ≡ (if k == j then some v else get m j)
  unfolding get set
  get-set [] k j v = refl
  get-set ((i, w) ∷ m) k j v =
      ground (arith, e.beq_iff k j, e.beq_iff i k, e.beq_iff i j, get-set m k j v)

  pub get-delete :
      (m : JsMap K V) (k j : K) → get (delete m k) j ≡ (if k == j then none else get m j)
  unfolding get delete
  get-delete [] k j = ground arith
  get-delete ((i, w) ∷ m) k j =
      ground (arith, e.beq_iff k j, e.beq_iff i k, e.beq_iff i j, get-delete m k j)

  pub has-get : (m : JsMap K V) (k : K) → has m k ≡ false → get m k ≡ none
  unfolding get has
  has-get [] k h = refl
  has-get ((j, v) ∷ m) k h = ground (arith, has-get m k)

  pub has-none : (m : JsMap K V) (k : K) → get m k ≡ none → has m k ≡ false
  unfolding get has
  has-none [] k h = refl
  has-none ((j, w) ∷ m) k h = ground (arith, has-none m k)

  pub get-has : (m : JsMap K V) (k : K) {v : V} → get m k ≡ some v → has m k ≡ true
  unfolding get has
  get-has [] k h = cc
  get-has ((j, w) ∷ m) k {v} h = elim (Bool-cases (j == k)) [
    | inl e ↦ rw e
    | inr e ↦ rw e (get-has m k (rw e at h))
  ]

  pub has-set :
      (m : JsMap K V) (k j : K) (v : V) → has (set m k v) j ≡ (if k == j then true else has m j)
  unfolding has set
  has-set [] k j v = refl
  has-set ((i, w) ∷ m) k j v =
      ground (arith, e.beq_iff k j, e.beq_iff i k, e.beq_iff i j, has-set m k j v)

  pub has-delete :
      (m : JsMap K V) (k j : K) → has (delete m k) j ≡ (if k == j then false else has m j)
  unfolding has delete
  has-delete [] k j = ground arith
  has-delete ((i, w) ∷ m) k j =
      ground (arith, e.beq_iff k j, e.beq_iff i k, e.beq_iff i j, has-delete m k j)

  pub delete_absent : (m : JsMap K V) (k : K) → has m k ≡ false → delete m k ≡ m
  unfolding has delete
  delete_absent [] k h = refl
  delete_absent ((i, w) ∷ m) k h = ground (arith, delete_absent m k)

  -- Every key stands in one entry, as in every `Map`.
  abbrev pub IsDistinct : JsMap K V → Type 0
  IsDistinct [] = Unit
  IsDistinct ((k, v) ∷ m) = (has m k ≡ false) × IsDistinct m

  pub set-IsDistinct : (m : JsMap K V) (k : K) (v : V) → IsDistinct m → IsDistinct (set m k v)
  unfolding set
  set-IsDistinct [] k v d = (unfold has in refl, tt)
  set-IsDistinct ((j, w) ∷ m) k v d = elim (Bool-cases (j == k)) [
    | inl e' ↦ rw e' (rw (← (e.beq_iff j k).0 e') d.0, d.1)
    | inr e' ↦
        rw e'
          (ground (arith, has-set m k j v, e.beq_iff k j, e.beq_iff j k), set-IsDistinct m k v d.1)
  ]

  pub delete-IsDistinct : (m : JsMap K V) (k : K) → IsDistinct m → IsDistinct (delete m k)
  unfolding delete
  delete-IsDistinct [] k d = tt
  delete-IsDistinct ((j, w) ∷ m) k d = elim (Bool-cases (j == k)) [
    | inl e' ↦ rw e' (delete-IsDistinct m k d.1)
    | inr e' ↦ rw e' (ground (arith, has-delete m k j), delete-IsDistinct m k d.1)
  ]

  pub length-set-le : (m : JsMap K V) (k : K) (v : V) → length (set m k v) ≤ length m + 1
  unfolding set
  length-set-le [] k v = omega arith
  length-set-le ((j, w) ∷ m) k v = ground (arith, length-set-le m k v)

  pub length-delete-le : (m : JsMap K V) (k : K) → length (delete m k) ≤ length m
  unfolding delete
  length-delete-le [] k = omega arith
  length-delete-le ((j, w) ∷ m) k = ground (arith, length-delete-le m k)

  pub length-delete-lt : (m : JsMap K V) (k : K) → has m k ≡ true → length (delete m k) < length m
  unfolding delete has
  length-delete-lt [] k h = absurd (ground arith)
  length-delete-lt ((j, w) ∷ m) k h = ground (arith, length-delete-lt m k, length-delete-le m k)

  -- `map.delete(map.keys().next().value)`, the oldest key of a map that has one
  unfoldable pub delete_oldest : JsMap K V → JsMap K V
  unfolding delete
  delete_oldest [] = []
  delete_oldest ((k, v) ∷ m) = delete ((k, v) ∷ m) k

  pub get-delete_oldest :
      (m : JsMap K V) (k : K) (v : V) → get (delete_oldest m) k ≡ some v → get m k ≡ some v
  unfolding delete_oldest
  get-delete_oldest [] k v h = h
  get-delete_oldest ((j, w) ∷ m) k v h = ground (arith, get-delete ((j, w) ∷ m) j k)

  pub length-delete_oldest : (m : JsMap K V) → length (delete_oldest m) ≤ length m - 1
  unfolding delete_oldest
  length-delete_oldest [] = omega arith
  length-delete_oldest ((j, w) ∷ m) =
      omega (arith, length-delete-lt ((j, w) ∷ m) j (unfold has in rw beq_refl))
