-- ===== src/Sharding.antt =====
-- backend/internal/engines/sharding_engine.go: shards, shard rules and the shard of a query. Regular
-- expressions, number scanning and printing, and the FNV-1a hash are the standard library's, a
-- `ShardLib`. The weight of a shard, which no code reads, is left out.
pub mod Ranges
pub mod Landing
pub mod Placing
use universal_database_proxy.Prelude.{
  ℕ, Bool, true, false, not, ◌&&◌, String, Option, none, some, List, [], ◌∷◌, ◌++◌, if◌then◌else◌,
  ◌==◌, string_eq, nat_eq, length, ◌+◌, ◌-◌, ◌/◌, ◌%◌, suc,
}
use universal_database_proxy.Prelude.Int.{ℤ, pos, negsuc, int_eq, ◌+ℤ◌, ◌-ℤ◌, leb_ℤ, wrap64}
use universal_database_proxy.Prelude.Result.{Go, done, panic, blocked, ◌>>=◌}
use universal_database_proxy.Prelude.Division.{quotient}
use universal_database_proxy.GoMap.{GoMap, lookup, insert, delete}
use universal_database_proxy.Types.{
  string_value, int_value, Value, Metadata, QueryContext, EngineResult, continue_result,
  error_result, lookup_meta, insert_meta,
}

-- `match_string` is false for a pattern that does not compile; `where_column` is the first group of
-- the pattern for `WHERE column =`; `scan_int` leaves 0 if there is no number.
pub record ShardLib : Type 0 where
  pub match_string : String → String → Bool
  pub where_column : String → Option String
  pub scan_int : String → ℤ
  pub print_int : ℤ → String
  pub fnv32a : String → ℕ

pub record ShardingConfig : Type 0 where
  pub enabled : Bool
  pub default_shard_count : ℤ
  pub shard_key_pattern : String
  pub virtual_shards : ℤ

pub record DataShard : Type 0 where
  pub id : ℤ
  pub name : String
  pub host : String
  pub port : ℤ
  pub database : String
  pub healthy : Bool

pub data ShardType : Type 0 where
  shard_range shard_hash shard_list shard_round_robin : ShardType
  custom_type : String → ShardType

pub record ShardRule : Type 0 where
  pub name : String
  pub table_pattern : String
  pub shard_key : String
  pub shard_type : ShardType
  pub range_start : ℤ
  pub range_end : ℤ

pub record ShardingEngine : Type 0 where
  pub config : ShardingConfig
  pub shards : GoMap ℤ DataShard
  pub shard_rules : List ShardRule

abbrev pub default_config : ShardingConfig
default_config = record {
  enabled = true;
  default_shard_count = pos 4;
  shard_key_pattern = "";
  virtual_shards = pos 256;
}

abbrev pub config_or_default : Option ShardingConfig → ShardingConfig
config_or_default none = default_config
config_or_default (some config) = config

-- `NewShardingEngine`
unfoldable pub new : Option ShardingConfig → ShardingEngine
new config = record { config = config_or_default config; shards = []; shard_rules = [] }

abbrev pub found_or_empty : Option String → String
found_or_empty none = ""
found_or_empty (some column) = column

abbrev pub key_or_column : Option Value → Option String → String
key_or_column (some (string_value key)) column = key
key_or_column _ column = found_or_empty column

-- `extractShardKey`
abbrev pub extract_shard_key : ShardLib → QueryContext → String
extract_shard_key lib qc =
    key_or_column (lookup_meta "shard_key" qc.metadata) (lib.where_column qc.raw_query)

-- `findMatchingRule`
abbrev pub first_matching : ShardLib → String → List ShardRule → Option ShardRule
first_matching lib table [] = none
first_matching lib table (rule ∷ rules) =
    let rest = first_matching lib table rules in
    if lib.match_string rule.table_pattern table then some rule else rest

abbrev pub find_matching_rule : ShardLib → String → List ShardRule → Option ShardRule
find_matching_rule lib table rules = if table == "" then none else first_matching lib table rules

-- `hashShard`
unfoldable pub hash_shard : ShardLib → String → ℕ → ℤ
hash_shard lib key count = if count == 0 then pos 0 else pos (lib.fnv32a key % count)

-- A shard, or the error of a key out of range
pub data ShardResult : Type 0 where
  on_shard : ℤ → ShardResult
  out_of_range : String → ShardResult

-- `rangeShard`
unfoldable pub range_shard : ShardLib → String → ShardRule → ℕ → Go ShardResult
range_shard lib key rule count =
    let num = lib.scan_int key in
    if leb_ℤ rule.range_start num && leb_ℤ num rule.range_end
    then if count == 0
      then done (on_shard (pos 0))
      else (quotient (wrap64 (wrap64 (rule.range_end -ℤ rule.range_start) +ℤ pos 1)) (pos count)
          >>= λ size.
              quotient (wrap64 (num -ℤ rule.range_start)) size >>= λ shard. done (on_shard shard))
    else done (out_of_range key)

-- `determineShard`
abbrev pub shard_by_rule : ShardLib → String → Option ShardRule → ℕ → Go ShardResult
shard_by_rule lib key none count = done (on_shard (hash_shard lib key count))
shard_by_rule lib key (some rule) count = elim rule.shard_type [
  | shard_range ↦ range_shard lib key rule count
  | shard_hash ↦ done (on_shard (hash_shard lib key count))
  | shard_list ↦ done (on_shard (pos 0))
  | shard_round_robin ↦ done (on_shard (hash_shard lib key count))
  | custom_type s ↦ done (on_shard (hash_shard lib key count))
]

unfoldable pub determine_shard : ShardLib → QueryContext → ShardingEngine → Go ShardResult
determine_shard lib qc e =
    let key = extract_shard_key lib qc in
    if key == ""
    then done (on_shard (pos 0))
    else shard_by_rule lib key (find_matching_rule lib qc.table e.shard_rules) (length e.shards)

-- `Process`
abbrev pub send_to : ShardLib → QueryContext → ShardResult → Go (QueryContext × EngineResult)
send_to lib qc (out_of_range key) =
    done (qc, error_result (Prim.Native.String.◌++◌ "key out of range: " key))
send_to lib qc (on_shard id) = insert_meta "shard_id" (int_value id) qc.metadata >>= λ metadata.
    done (
      record qc {
        metadata = metadata;
        database =
            Prim.Native.String.◌++◌ qc.database
              (Prim.Native.String.◌++◌ "_shard" (lib.print_int id));
      },
      continue_result,
    )

unfoldable pub process : ShardLib → QueryContext → ShardingEngine → Go (QueryContext × EngineResult)
process lib qc e =
    if e.config.enabled
    then (determine_shard lib qc e >>= λ result. send_to lib qc result)
    else done (qc, continue_result)

-- `RewriteQueryForShard`
abbrev pub rewrite_query_for_shard : ShardLib → QueryContext → ℤ → String
rewrite_query_for_shard lib qc id =
    if qc.table == ""
    then qc.raw_query
    else Prim.Native.String.◌++◌ qc.table (Prim.Native.String.◌++◌ "_shard" (lib.print_int id))

-- `AddShard`, `RemoveShard`, `AddRule`, `RemoveRule` and `SetShardHealth`
unfoldable pub add_shard : DataShard → ShardingEngine → ShardingEngine
add_shard shard e = record e { shards = insert shard.id (record shard { healthy = true }) e.shards }

unfoldable pub remove_shard : ℤ → ShardingEngine → ShardingEngine
remove_shard id e = record e { shards = delete id e.shards }

unfoldable pub add_rule : ShardRule → ShardingEngine → ShardingEngine
add_rule rule e = record e { shard_rules = e.shard_rules ++ rule ∷ [] }

abbrev pub without_rule : String → List ShardRule → List ShardRule
without_rule name [] = []
without_rule name (rule ∷ rules) =
    let rest = without_rule name rules in if rule.name == name then rest else rule ∷ rest

unfoldable pub remove_rule : String → ShardingEngine → ShardingEngine
remove_rule name e = record e { shard_rules = without_rule name e.shard_rules }

abbrev pub mark_shard : ℤ → Bool → Option DataShard → ShardingEngine → ShardingEngine × Bool
mark_shard id healthy none e = (e, false)
mark_shard id healthy (some shard) e =
    (record e { shards = insert id (record shard { healthy = healthy }) e.shards }, true)

unfoldable pub set_shard_health : ℤ → Bool → ShardingEngine → ShardingEngine × Bool
set_shard_health id healthy e = mark_shard id healthy (lookup id e.shards) e
