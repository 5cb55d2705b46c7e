-- ===== src/Tests/Shards.antt =====
-- The sharding engine at concrete inputs.
use universal_database_proxy.Prelude.{
  ℕ, true, none, some, [], ◌∷◌, ◌==◌, string_eq, if◌then◌else◌, refl, arith,
}
use universal_database_proxy.Prelude.Int.{pos, int_eq}
use universal_database_proxy.Types.{QueryContext, string_value}
use universal_database_proxy.Sharding.{
  ShardLib, DataShard, ShardRule, shard_range, ShardingEngine, default_config, range_shard,
}
use universal_database_proxy.Sharding.Ranges.{Spans, Placed, range_shard-Placed}
use universal_database_proxy.Tests.Samples.{query_of}

-- A pattern matches its own text; the only numbers are 7 and 0.
abbrev plain_lib : ShardLib
plain_lib = record {
  match_string = λ pattern text. pattern == text;
  where_column = λ query. none;
  scan_int = λ key. if key == "7" then pos 7 else pos 0;
  print_int = λ n. if n == pos 0 then "0" else "1";
  fnv32a = λ key. 40;
}

abbrev staff_rule : ShardRule
staff_rule = record {
  name = "staff";
  table_pattern = "staff";
  shard_key = "id";
  shard_type = shard_range;
  range_start = pos 0;
  range_end = pos 9;
}

abbrev shard_of : ℕ → DataShard
shard_of n = record {
  id = pos n;
  name = "s";
  host = "localhost";
  port = pos 3306;
  database = "hr";
  healthy = true;
}

abbrev two_shards : ShardingEngine
two_shards = record {
  config = default_config;
  shards = (pos 0, shard_of 0) ∷ (pos 1, shard_of 1) ∷ [];
  shard_rules = staff_rule ∷ [];
}

staff_rule-Spans : Spans staff_rule 0 9
staff_rule-Spans = record { begins = refl; ends = refl; ordered = omega arith; exact = omega arith }

-- 10 numbers over 4 shards: 9 gets shard 4, which does not exist, and 7 gets shard 3.
range_shard-Placed_example : Placed "7" 0 9 7 4 (range_shard plain_lib "7" staff_rule 4)
range_shard-Placed_example =
    range_shard-Placed plain_lib "7" staff_rule 0 9 7 3 staff_rule-Spans refl

abbrev staff_query : QueryContext
staff_query = record (query_of "SELECT name FROM staff") {
  metadata = some (("shard_key", string_value "7") ∷ []);
}
