-- ===== src/Sharding/Landing.antt =====
-- Queries land on registered shards.
use native.Mathlib.Nat.{le-div_iff_mul-le}
use mathlib.Core.Path.{subst}
use universal_database_proxy.Prelude.{
  ℕ, zero, suc, true, String, ◌≡◌, ◌↔◌, ◌≤◌, ◌<◌, ◌-◌, ◌*◌, ◌/◌, ◌%◌, refl, sym, arith, string_eq,
  nat_eq, length, ◌⊎◌, inl, inr,
}
use universal_database_proxy.Prelude.Int.{ℤ, pos, negsuc, int_eq, ◌<ℤ◌}
use universal_database_proxy.Prelude.Result.{Go, done}
use universal_database_proxy.GoMap.{has}
use universal_database_proxy.Sharding.{
  ShardLib, ShardRule, ShardingEngine, ShardResult, on_shard, out_of_range, hash_shard, range_shard,
}
use universal_database_proxy.Sharding.Ranges.{
  Spans, Placed, outside, too_small, in_block, range_shard-Placed,
}

-- The shards of the engine are numbered from 0 without a gap.
abbrev pub IsDense : ShardingEngine → Type 0
IsDense e = (i : ℕ) → i < length e.shards → has (pos i) e.shards ≡ true

-- A range rule gives each of `count` shards a block of the same positive size.
pub record IsEven (rule : ShardRule) (count : ℕ) : Type 0 where
  pub first : ℕ
  pub last : ℕ
  pub size : ℕ
  pub spans : Spans rule first last
  pub shared : suc (last - first) ≡ size * count

-- A registered shard, or the error for a key that may be refused.
pub data IsPlaced (Refusable : String → Type 0) (e : ShardingEngine) : Go ShardResult → Type 0 where
  registered : (id : ℤ) → has id e.shards ≡ true → IsPlaced Refusable e (done (on_shard id))
  refused : (key : String) → Refusable key → IsPlaced Refusable e (done (out_of_range key))

-- The number of the key is outside the rule's range.
abbrev pub IsOutside : ShardLib → ShardRule → String → Type 0
IsOutside lib rule key =
    (lib.scan_int key <ℤ rule.range_start) ⊎ (rule.range_end <ℤ lib.scan_int key)

-- It is the key `key` of the query that is refused.
abbrev pub RefusedBy : ShardLib → ShardRule → String → String → Type 0
RefusedBy lib rule key k = (k ≡ key) × IsOutside lib rule k

Spans-IsOutside :
    (lib : ShardLib) (rule : ShardRule) (key : String) (first last k : ℕ)
    → Spans rule first last
    → lib.scan_int key ≡ pos k
    → (k < first) ⊎ (last < k)
    → IsOutside lib rule key
Spans-IsOutside lib rule key first last k spans number (inl low) =
    inl (rw (number, spans.begins) (ground (arith, low)))
Spans-IsOutside lib rule key first last k spans number (inr high) =
    inr (rw (number, spans.ends) (ground (arith, high)))

hash_shard-mod :
    (lib : ShardLib) (key : String) (c : ℕ)
    → hash_shard lib key (suc c) ≡ pos (lib.fnv32a key % suc c)
unfolding hash_shard
hash_shard-mod lib key c = ground arith

pub hash_shard-IsPlaced :
    {Refusable : String → Type 0} (lib : ShardLib) (key : String) (e : ShardingEngine) (c : ℕ)
    → length e.shards ≡ suc c
    → IsDense e
    → IsPlaced Refusable e (done (on_shard (hash_shard lib key (length e.shards))))
hash_shard-IsPlaced lib key e c count dense =
    rw (count, hash_shard-mod lib key c)
      (registered (pos (lib.fnv32a key % suc c))
        (dense (lib.fnv32a key % suc c) (omega (arith, count))))

even_block :
    (first last k c size i : ℕ)
    → suc (last - first) ≡ size * suc c
    → first ≤ k
    → k ≤ last
    → (i < suc c) ↔ (k - first < suc c * (suc (last - first) / suc c))
    → i < suc c
even_block first last k c size i shared low high below =
    let law = le-div_iff_mul-le {k = suc c} {x = size} {y = suc (last - first)} (omega arith) in
    let enough : size ≤ suc (last - first) / suc c = law.1 (omega (arith, shared)) in
    below.1 (grind (arith, enough, shared, low, high))

even_not_small :
    (last first size c : ℕ) → suc (last - first) ≡ size * suc c → suc (last - first) < suc c → ⊥
even_not_small last first zero c shared small = omega (arith, shared)
even_not_small last first (suc n) c shared small = grind (arith, shared, small)

Placed-IsPlaced :
    {Refusable : String → Type 0} (key : String) (first last k c size : ℕ) (e : ShardingEngine)
    (r : Go ShardResult)
    → ((k < first) ⊎ (last < k) → Refusable key)
    → length e.shards ≡ suc c
    → IsDense e
    → suc (last - first) ≡ size * suc c
    → Placed key first last k (suc c) r
    → IsPlaced Refusable e r
Placed-IsPlaced key first last k c size e _ may count dense shared (outside out) =
    refused key (may out)
Placed-IsPlaced key first last k c size e _ may count dense shared (too_small low high small) =
    absurd (even_not_small last first size c shared small)
Placed-IsPlaced key first last k c size e _ may count dense shared
      (in_block s i low high same from to below) =
    registered (pos i) (
      dense i (
        rw count (
          even_block first last k c size i shared low high
            (subst (λ n. (i < suc c) ↔ (k - first < suc c * n)) same below))))

range_negative :
    (lib : ShardLib) (key : String) (rule : ShardRule) (first last k count : ℕ)
    → Spans rule first last
    → lib.scan_int key ≡ negsuc k
    → range_shard lib key rule count ≡ done (out_of_range key)
unfolding range_shard
range_negative lib key rule first last k count spans number =
    rw (number, spans.begins, spans.ends) (ground arith)

pub range_shard-IsPlaced :
    (lib : ShardLib) (key : String) (rule : ShardRule) (e : ShardingEngine) (c : ℕ) (number : ℤ)
    → lib.scan_int key ≡ number
    → length e.shards ≡ suc c
    → IsDense e
    → IsEven rule (suc c)
    → IsPlaced (RefusedBy lib rule key) e (range_shard lib key rule (length e.shards))
range_shard-IsPlaced lib key rule e c (negsuc k) scanned count dense even =
    rw (range_negative lib key rule even.first even.last k (length e.shards) even.spans scanned)
      (refused key (refl, inl (rw (scanned, even.spans.begins) (ground arith))))
range_shard-IsPlaced lib key rule e c (pos k) scanned count dense even =
    subst (λ n. IsPlaced (RefusedBy lib rule key) e (range_shard lib key rule n)) (sym count)
      (Placed-IsPlaced key even.first even.last k c even.size e (range_shard lib key rule (suc c))
        (λ out. (refl, Spans-IsOutside lib rule key even.first even.last k even.spans scanned out))
        count dense even.shared
        (range_shard-Placed lib key rule even.first even.last k c even.spans scanned))
