-- ===== src/Base/Maps.antt =====
-- A map as an association list: what `get`, `insert`, `remove`, `entry` and `retain` of a hash map do.
use mathlib.Core.Path.{◌≡◌, refl}
use mathlib.Core.Logic.{inl, inr}
use mathlib.Core.Bool.{Bool, false}
use mathlib.Core.List.{List, [], ◌∷◌}
use mathlib.Core.Option.{Option, none, some}
use native.Mathlib.Omega.{arith}
use earendil.Base.Tests.{if◌then◌else◌, Eq, ◌==◌, Bool-cases}
use earendil.Base.Lists.{contains}

abbrev pub Map {ℓ κ} : Type ℓ → Type κ → Type (ℓ ⊔ κ)
Map K V = List (K × V)

abbrev pub keep_if {κ} : {V : Type κ} → (V → Bool) → Option V → Option V
keep_if p none = none
keep_if p (some v) = if p v then some v else none

module _ {ℓ κ} {K : Type ℓ} {V : Type κ} ⦃e : Eq K⦄ where
  unfoldable pub get : K → Map K V → Option V
  get k [] = none
  get k ((j, v) ∷ m) = if j == k then some v else get k m

  -- A value under a key that is there replaces the one in its place.
  unfoldable pub insert : K → V → Map K V → Map K V
  insert k v [] = (k, v) ∷ []
  insert k v ((j, w) ∷ m) = if j == k then (k, v) ∷ m else (j, w) ∷ insert k v m

  unfoldable pub remove : K → Map K V → Map K V
  remove k [] = []
  remove k ((j, w) ∷ m) = if j == k then remove k m else (j, w) ∷ remove k m

  pub get-insert :
      (k j : K) (v : V) (m : Map K V) → get j (insert k v m) ≡ (if k == j then some v else get j m)
  unfolding get insert
  get-insert k j v [] = refl
  get-insert k j v ((i, w) ∷ m) =
      ground (arith, e.decides k j, e.decides i k, e.decides i j, get-insert k j v m)

  pub get-remove : (k j : K) (m : Map K V) → get j (remove k m) ≡ (if k == j then none else get j m)
  unfolding get remove
  get-remove k j [] = ground arith
  get-remove k j ((i, w) ∷ m) =
      ground (arith, e.decides k j, e.decides i k, e.decides i j, get-remove k j m)

  -- for k in ks { m.remove(&k) }
  unfoldable pub remove_all : List K → Map K V → Map K V
  remove_all [] m = m
  remove_all (k ∷ ks) m = remove_all ks (remove k m)

  pub get-remove_all :
      (ks : List K) (j : K) (m : Map K V)
      → get j (remove_all ks m) ≡ (if contains j ks then none else get j m)
  unfolding remove_all contains
  get-remove_all [] j m = refl
  get-remove_all (k ∷ ks) j m = ground (arith, get-remove_all ks j (remove k m), get-remove k j m)

  -- The keys that `filter_map` collects: those whose entry passes the test.
  unfoldable pub keys_where : (K → V → Bool) → Map K V → List K
  keys_where p [] = []
  keys_where p ((k, v) ∷ m) = if p k v then k ∷ keys_where p m else keys_where p m

  -- No key stands twice.
  abbrev pub Distinct : Map K V → Type κ
  Distinct [] = Unit {κ}
  Distinct ((k, v) ∷ m) = (get k m ≡ none) × Distinct m

  pub insert-Distinct : (k : K) (v : V) (m : Map K V) → Distinct m → Distinct (insert k v m)
  unfolding get insert
  insert-Distinct k v [] d = ground arith
  insert-Distinct k v ((j, w) ∷ m) d =
      ground (arith, e.decides j k, e.decides k j, get-insert k j v m, insert-Distinct k v m d.1)

  pub remove-Distinct : (k : K) (m : Map K V) → Distinct m → Distinct (remove k m)
  unfolding get remove
  remove-Distinct k [] d = tt
  remove-Distinct k ((j, w) ∷ m) d =
      ground (arith, get-remove k j m, e.decides k j, remove-Distinct k m d.1)

  pub remove_all-Distinct : (ks : List K) (m : Map K V) → Distinct m → Distinct (remove_all ks m)
  unfolding remove_all
  remove_all-Distinct [] m d = d
  remove_all-Distinct (k ∷ ks) m d = remove_all-Distinct ks (remove k m) (remove-Distinct k m d)

  -- A key is collected exactly if its entry passes.
  abbrev pub test_entry : (K → V → Bool) → K → Option V → Bool
  test_entry p k none = false
  test_entry p k (some v) = p k v

  pub contains-keys_where :
      (p : K → V → Bool) (j : K) (m : Map K V)
      → Distinct m
      → contains j (keys_where p m) ≡ test_entry p j (get j m)
  unfolding get keys_where contains
  contains-keys_where p j [] d = refl
  contains-keys_where p j ((k, v) ∷ m) d = elim (Bool-cases (k == j)) [
    | inl same ↦ ground (arith, contains-keys_where p j m d.1, (e.decides k j).0 same)
    | inr other ↦ ground (arith, contains-keys_where p j m d.1)
  ]

  -- retain(|_, v| p(v))
  unfoldable pub retain : (V → Bool) → Map K V → Map K V
  retain p [] = []
  retain p ((k, v) ∷ m) = if p v then (k, v) ∷ retain p m else retain p m

  pub get-retain :
      (p : V → Bool) (j : K) (m : Map K V) → Distinct m → get j (retain p m) ≡ keep_if p (get j m)
  unfolding get retain
  get-retain p j [] d = refl
  get-retain p j ((k, v) ∷ m) d = elim (Bool-cases (k == j)) [
    | inl same ↦ ground (arith, get-retain p j m d.1, (e.decides k j).0 same)
    | inr other ↦ ground (arith, get-retain p j m d.1)
  ]

  pub retain-Distinct : (p : V → Bool) (m : Map K V) → Distinct m → Distinct (retain p m)
  unfolding get retain
  retain-Distinct p [] d = tt
  retain-Distinct p ((k, v) ∷ m) d = ground (arith, get-retain p k m d.1, retain-Distinct p m d.1)
