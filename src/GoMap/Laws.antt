-- ===== src/GoMap/Laws.antt =====
-- The laws of map access that the components use.
use universal_database_proxy.Prelude.{
  suc, ◌≤◌, true, none, some, [], ◌∷◌, ◌≡◌, arith, length, if◌then◌else◌, Eq, ◌==◌,
}
use universal_database_proxy.GoMap.{GoMap, lookup, insert, delete, has}

module _ {ℓ κ} {K : Type ℓ} {V : Type κ} ⦃e : Eq K⦄ where
  pub lookup-insert :
      (k j : K) (v : V) (m : GoMap K V)
      → lookup j (insert k v m) ≡ (if k == j then some v else lookup j m)
  unfolding lookup insert
  lookup-insert k j v [] = ground arith
  lookup-insert k j v ((i, w) ∷ m) =
      ground (arith, e.beq_iff k j, e.beq_iff i k, e.beq_iff i j, lookup-insert k j v m)

  pub lookup-delete :
      (k j : K) (m : GoMap K V) → lookup j (delete k m) ≡ (if k == j then none else lookup j m)
  unfolding lookup delete
  lookup-delete k j [] = ground arith
  lookup-delete k j ((i, w) ∷ m) =
      ground (arith, e.beq_iff k j, e.beq_iff i k, e.beq_iff i j, lookup-delete k j m)

  pub length-insert :
      (k : K) (v : V) (m : GoMap K V)
      → length (insert k v m) ≡ (if has k m then length m else suc (length m))
  unfolding lookup insert
  length-insert k v [] = ground arith
  length-insert k v ((i, w) ∷ m) = ground (arith, length-insert k v m)

  pub length-delete_le : (k : K) (m : GoMap K V) → length (delete k m) ≤ length m
  unfolding delete
  length-delete_le k [] = omega arith
  length-delete_le k ((i, w) ∷ m) = ground (arith, length-delete_le k m)

  -- Deleting a key that is there makes the map smaller.
  pub length-delete_lt :
      (k : K) (m : GoMap K V) → has k m ≡ true → suc (length (delete k m)) ≤ length m
  unfolding delete lookup
  length-delete_lt k [] h = ground arith
  length-delete_lt k ((i, w) ∷ m) h = ground (arith, length-delete_le k m, length-delete_lt k m)
