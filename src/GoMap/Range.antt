-- ===== src/GoMap/Range.antt =====
-- What a `range` loop over a map meets.
use mathlib.Core.List.{Memᴰ}
use universal_database_proxy.Prelude.{
  true, Option, none, some, List, [], ◌∷◌, ◌≡◌, ◌⊎◌, sym, ap, arith, if◌then◌else◌, Eq, ◌==◌, mem,
  Bool-cases, inl, inr,
}
use universal_database_proxy.GoMap.{GoMap, lookup, range, cons_found}

module _ {ℓ κ} {K : Type ℓ} {V : Type κ} ⦃e : Eq K⦄ where
  found_cases :
      (k : K) (o : Option V) (rest : List (K × V)) (j : K) (w : V)
      → Memᴰ (j, w) (cons_found k o rest)
      → ((o ≡ some w) × (k ≡ j)) ⊎ Memᴰ (j, w) rest
  found_cases k none rest j w h = inr h
  found_cases k (some v) rest j w (Memᴰ.head p) =
      inl (ap (λ (x : K × V). some x.1) (sym p), ap (λ (x : K × V). x.0) (sym p))
  found_cases k (some v) rest j w (Memᴰ.tail h) = inr h

  found_head :
      (k : K) (o : Option V) (rest : List (K × V)) (w : V)
      → o ≡ some w
      → Memᴰ (k, w) (cons_found k o rest)
  found_head k none rest w h = cc
  found_head k (some v) rest w h =
      let p : v ≡ w = ground arith in Memᴰ.head (ap {B = K × V} (λ x. (k, x)) (sym p))

  found_tail :
      (k : K) (o : Option V) (rest : List (K × V)) (j : K) (w : V)
      → Memᴰ (j, w) rest
      → Memᴰ (j, w) (cons_found k o rest)
  found_tail k none rest j w h = h
  found_tail k (some v) rest j w h = Memᴰ.tail h

  -- Each pair that the loop meets is in the map.
  pub mem-range :
      (order : List K) (m : GoMap K V) (k : K) (v : V)
      → Memᴰ (k, v) (range order m)
      → lookup k m ≡ some v
  unfolding range
  mem-range [] m k v h = elim h [ ]
  mem-range (j ∷ order) m k v h = elim (found_cases j (lookup j m) (range order m) k v h) [
    | inl (p, q) ↦ rw (← q) p
    | inr t ↦ mem-range order m k v t
  ]

  -- Each pair of the map whose key is visited is met.
  pub range-mem :
      (order : List K) (m : GoMap K V) (k : K) (v : V)
      → lookup k m ≡ some v
      → mem k order ≡ true
      → Memᴰ (k, v) (range order m)
  unfolding range
  range-mem [] m k v h i = cc
  range-mem (j ∷ order) m k v h i = elim (Bool-cases (j == k)) [
    | inl same ↦
        let p = (e.beq_iff j k).0 same in
        rw (← p) (found_head j (lookup j m) (range order m) v (rw p h))
    | inr other ↦
        found_tail j (lookup j m) (range order m) k v
          (range-mem order m k v h (rw (other, if◌then◌else◌) at i))
  ]
