-- ===== src/Sharding/Ranges.antt =====
-- Which shard a range rule gives a number.
use native.Mathlib.Nat.{le-div_iff_mul-le}
use universal_database_proxy.Prelude.{
  ℕ, zero, suc, String, ◌≡◌, ◌↔◌, ◌≤◌, ◌<◌, ◌-◌, ◌*◌, ◌/◌, refl, arith, Bool-cases, inl, inr, ◌⊎◌,
  ◌&&◌, leb,
}
use universal_database_proxy.Prelude.Int.{pos, ◌+ℤ◌, ◌-ℤ◌, wrap64}
use universal_database_proxy.Prelude.Result.{Go, done, panic, ◌>>=◌}
use universal_database_proxy.Prelude.Division.{quotient}
use universal_database_proxy.Sharding.{
  ShardLib, ShardRule, ShardResult, on_shard, out_of_range, range_shard,
}

-- A rule for the numbers from `first` to `last`, which are not negative.
pub record Spans (rule : ShardRule) (first last : ℕ) : Type 0 where
  pub begins : rule.range_start ≡ pos first
  pub ends : rule.range_end ≡ pos last
  pub ordered : first ≤ last
  pub exact : last < 9223372036854775807

span_size :
    (first last : ℕ)
    → first ≤ last
    → last < 9223372036854775807
    → wrap64 (wrap64 (pos last -ℤ pos first) +ℤ pos 1) ≡ pos (suc (last - first))
unfolding wrap64 ◌-ℤ◌ ◌+ℤ◌
span_size first last h small = ground arith

offset :
    (first k : ℕ)
    → first ≤ k
    → k < 9223372036854775807
    → wrap64 (pos k -ℤ pos first) ≡ pos (k - first)
unfolding wrap64 ◌-ℤ◌
offset first k h small = ground arith

quotient-pos : (a b : ℕ) → quotient (pos a) (pos (suc b)) ≡ done (pos (a / suc b))
quotient-pos a b = refl

-- What a number gets from a rule for `first` to `last` over `count` shards: an error outside, else
-- the shard of its block of `size` numbers; the blocks of the shards 0 to count - 1 end before
-- `last` if `count` does not divide the span, and there is none if the span is smaller than `count`.
pub data Placed (key : String) (first last k count : ℕ) : Go ShardResult → Type 0 where
  outside : (k < first) ⊎ (last < k) → Placed key first last k count (done (out_of_range key))
  too_small :
      first ≤ k → k ≤ last → suc (last - first) < count → Placed key first last k count panic
  in_block :
      (size i : ℕ)
      → first ≤ k
      → k ≤ last
      → size ≡ suc (last - first) / count
      → i * size ≤ k - first
      → k - first < suc i * size
      → (i < count) ↔ (k - first < count * size)
      → Placed key first last k count (done (on_shard (pos i)))

div_block : (d s : ℕ) → (d / suc s * suc s ≤ d) × (d < suc (d / suc s) * suc s)
div_block d s = (
  (le-div_iff_mul-le (omega arith)).0 (omega arith),
  omega (arith, (le-div_iff_mul-le {k = suc s} {x = suc (d / suc s)} {y = d} (omega arith)).1),
)

div_below : (d s n : ℕ) → (d / suc s < n) ↔ (d < n * suc s)
div_below d s n =
    let law = le-div_iff_mul-le {k = suc s} {x = n} {y = d} (omega arith) in
    (λ h. grind (arith, h, law.1), λ h. grind (arith, h, law.0))

div_zero : (d s : ℕ) → 0 ≡ d / suc s → d < suc s
div_zero d s e =
    let law = le-div_iff_mul-le {k = suc s} {x = 1} {y = d} (omega arith) in grind (arith, law.1, e)

range_by_size :
    (key : String) (first last k c size : ℕ)
    → first ≤ k
    → k ≤ last
    → size ≡ suc (last - first) / suc c
    → Placed key first last k
        (suc c)
        (quotient (pos (k - first)) (pos size) >>= λ shard. done (on_shard shard))
range_by_size key first last k c zero low high e =
    too_small low high (div_zero (suc (last - first)) c e)
range_by_size key first last k c (suc s) low high e =
    let block = div_block (k - first) s in
    in_block (suc s) ((k - first) / suc s) low high e block.0 block.1
      (div_below (k - first) s (suc c))

range_inside :
    (lib : ShardLib) (key : String) (rule : ShardRule) (first last k c : ℕ)
    → Spans rule first last
    → lib.scan_int key ≡ pos k
    → first ≤ k
    → k ≤ last
    → range_shard lib key rule (suc c) ≡ (
        quotient (pos (k - first)) (pos (suc (last - first) / suc c)) >>= λ shard.
        done (on_shard shard))
unfolding range_shard
range_inside lib key rule first last k c spans number low high =
    rw
      (
        number,
        spans.begins,
        spans.ends,
        span_size first last spans.ordered spans.exact,
        offset first k low (ground (arith, high, spans.exact)),
      )
      (ground (arith, low, high))

range_outside :
    (lib : ShardLib) (key : String) (rule : ShardRule) (first last k count : ℕ)
    → Spans rule first last
    → lib.scan_int key ≡ pos k
    → (k < first) ⊎ (last < k)
    → range_shard lib key rule count ≡ done (out_of_range key)
unfolding range_shard
range_outside lib key rule first last k count spans number out =
    rw (number, spans.begins, spans.ends) (ground (arith, out))

range_cases : (first last k : ℕ) → ((k < first) ⊎ (last < k)) ⊎ ((first ≤ k) × (k ≤ last))
range_cases first last k = elim (Bool-cases (leb first k && leb k last)) [
  | inl inside ↦ inr (ground (arith, inside), ground (arith, inside))
  | inr out ↦ elim (Bool-cases (leb first k)) [
    | inl low ↦ inl (inr (ground (arith, out, low)))
    | inr under ↦ inl (inl (ground (arith, under)))
  ]
]

-- With at least one shard, a range rule from `first` to `last`, of which `first` is not negative and
-- `last` is below 2^63 - 1, places each number that is not negative as `Placed` says.
pub range_shard-Placed :
    (lib : ShardLib) (key : String) (rule : ShardRule) (first last k c : ℕ)
    → Spans rule first last
    → lib.scan_int key ≡ pos k
    → Placed key first last k (suc c) (range_shard lib key rule (suc c))
range_shard-Placed lib key rule first last k c spans number = elim (range_cases first last k) [
  | inl out ↦ rw (range_outside lib key rule first last k (suc c) spans number out) (outside out)
  | inr (low, high) ↦
      rw (range_inside lib key rule first last k c spans number low high)
        (range_by_size key first last k c (suc (last - first) / suc c) low high refl)
]
