-- ===== src/Sharding/Placing.antt =====
-- Where the sharding engine sends a query.
use universal_database_proxy.Prelude.{ℕ, true, String, Option, some, ◌≡◌, string_eq, nat_eq}
use universal_database_proxy.Prelude.Int.{ℤ, int_eq}
use universal_database_proxy.GoMap.{insert, has}
use universal_database_proxy.Types.{
  int_value, Metadata, QueryContext, EngineResult, continue_result, error_result,
}
use universal_database_proxy.Sharding.{
  ShardLib, ShardRule, shard_range, ShardingEngine, extract_shard_key, find_matching_rule,
}
use universal_database_proxy.Sharding.Landing.{IsEven, IsOutside, RefusedBy}

-- Every range rule of a table shares its span evenly.
abbrev pub EvenRules : ShardLib → String → ShardingEngine → ℕ → Type 0
EvenRules lib table e count =
    (rule : ShardRule)
    → find_matching_rule lib table e.shard_rules ≡ some rule
    → rule.shard_type ≡ shard_range
    → IsEven rule count

-- The key of a query whose table's rule is a range rule with a range without the key's number.
pub record IsRefusable (lib : ShardLib) (qc : QueryContext) (e : ShardingEngine) (key : String)
    : Type 0 where
  pub rule : ShardRule
  pub own_key : key ≡ extract_shard_key lib qc
  pub found : find_matching_rule lib qc.table e.shard_rules ≡ some rule
  pub by_range : rule.shard_type ≡ shard_range
  pub outside_range : IsOutside lib rule key

-- A range rule, and a key outside its range.
abbrev ByRange : ShardLib → String → Option ShardRule → String → Type 0
ByRange lib key o k =
    (rule : ShardRule) × (o ≡ some rule)
    × (rule.shard_type ≡ shard_range)
    × RefusedBy lib rule key k

-- What `Process` returns: the query sent to a registered shard, or unchanged with the error.
pub data Landed (lib : ShardLib) (qc : QueryContext) (m : Metadata) (e : ShardingEngine)
    : QueryContext × EngineResult → Type 0 where
  lands :
      (id : ℤ)
      → has id e.shards ≡ true
      → Landed lib qc m e (
        record qc {
          metadata = some (insert "shard_id" (int_value id) m);
          database =
              Prim.Native.String.◌++◌ qc.database
                (Prim.Native.String.◌++◌ "_shard" (lib.print_int id));
        },
        continue_result,
      )
  fails :
      (key : String)
      → IsRefusable lib qc e key
      → Landed lib qc m e (qc, error_result (Prim.Native.String.◌++◌ "key out of range: " key))
