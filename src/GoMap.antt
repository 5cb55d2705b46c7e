-- ===== src/GoMap.antt =====
-- Go's built-in `map[K]V` as an association list, and `for k, v := range m` over an order of the
-- keys that the caller gives, since Go fixes none.
pub mod Laws
pub mod Sweep
pub mod Range
use universal_database_proxy.Prelude.{
  ℕ, Bool, true, false, Option, none, some, List, [], ◌∷◌, ◌≡◌, if◌then◌else◌, Eq, ◌==◌, mem,
}

abbrev pub GoMap {ℓ κ} : Type ℓ → Type κ → Type (ℓ ⊔ κ)
GoMap K V = List (K × V)

module _ {ℓ κ} {K : Type ℓ} {V : Type κ} ⦃e : Eq K⦄ where
  -- `v, ok := m[k]`
  unfoldable pub lookup : K → GoMap K V → Option V
  lookup k [] = none
  lookup k ((j, v) ∷ m) = if j == k then some v else lookup k m

  -- `m[k] = v`
  unfoldable pub insert : K → V → GoMap K V → GoMap K V
  insert k v [] = (k, v) ∷ []
  insert k v ((j, w) ∷ m) = if j == k then (k, v) ∷ m else (j, w) ∷ insert k v m

  -- `delete(m, k)`
  unfoldable pub delete : K → GoMap K V → GoMap K V
  delete k [] = []
  delete k ((j, v) ∷ m) = let rest = delete k m in if j == k then rest else (j, v) ∷ rest

  abbrev pub has : K → GoMap K V → Bool
  has k m = elim (lookup k m) [ none ↦ false | some _ ↦ true ]

  -- The pairs that a `range` loop meets when it visits the keys in the given order.
  abbrev pub cons_found : K → Option V → List (K × V) → List (K × V)
  cons_found k none rest = rest
  cons_found k (some v) rest = (k, v) ∷ rest

  unfoldable pub range : List K → GoMap K V → List (K × V)
  range [] m = []
  range (k ∷ order) m = cons_found k (lookup k m) (range order m)

  -- An order in which a `range` loop may visit the map: no key of the map is left out.
  abbrev pub Covers : List K → GoMap K V → Type (ℓ ⊔ κ)
  Covers order m = (k : K) (v : V) → lookup k m ≡ some v → mem k order ≡ true
