-- ===== src/GoMap/Sweep.antt =====
-- A `range` loop that deletes the entries that fail a test.
use universal_database_proxy.Prelude.{
  Bool, Option, none, some, List, [], ◌∷◌, ◌≡◌, arith, if◌then◌else◌, Eq, ◌==◌, mem, Option-cases,
  inl, inr,
}
use universal_database_proxy.GoMap.{GoMap, lookup, delete, Covers}
use universal_database_proxy.GoMap.Laws.{lookup-delete}

-- What a lookup gives when the values that meet the test are hidden.
abbrev pub drop_if {κ} : {V : Type κ} → (V → Bool) → Option V → Option V
drop_if test none = none
drop_if test (some v) = if test v then none else some v

module _ {ℓ κ} {K : Type ℓ} {V : Type κ} ⦃e : Eq K⦄ where
  abbrev pub delete_if : K → (V → Bool) → Option V → GoMap K V → GoMap K V
  delete_if k test none m = m
  delete_if k test (some v) m = if test v then delete k m else m

  -- `for k, v := range m { if test(v) { delete(m, k) } }`
  unfoldable pub sweep : (V → Bool) → List K → GoMap K V → GoMap K V
  sweep test [] m = m
  sweep test (k ∷ order) m = sweep test order (delete_if k test (lookup k m) m)

  lookup-delete_if :
      (k j : K) (test : V → Bool) (m : GoMap K V)
      → lookup j (delete_if k test (lookup k m) m)
        ≡ (if k == j then drop_if test (lookup j m) else lookup j m)
  lookup-delete_if k j test m = ground (arith, e.beq_iff k j, lookup-delete k j m)

  pub lookup-sweep :
      (test : V → Bool) (order : List K) (m : GoMap K V) (j : K)
      → lookup j (sweep test order m)
        ≡ (if mem j order then drop_if test (lookup j m) else lookup j m)
  unfolding sweep
  lookup-sweep test [] m j = ground arith
  lookup-sweep test (k ∷ order) m j = ground (
    arith,
    lookup-delete_if k j test m,
    lookup-sweep test order (delete_if k test (lookup k m) m) j,
  )

  -- Over an order that leaves no key out, the loop hides exactly the values that meet the test.
  pub lookup-sweep-Covers :
      (test : V → Bool) (order : List K) (m : GoMap K V) (j : K)
      → Covers order m
      → lookup j (sweep test order m) ≡ drop_if test (lookup j m)
  lookup-sweep-Covers test order m j covers = elim (Option-cases (lookup j m)) [
    | inl gone ↦ rw (lookup-sweep test order m j, gone) (ground arith)
    | inr (v, there) ↦ rw (lookup-sweep test order m j, covers j v there)
  ]
