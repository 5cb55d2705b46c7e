-- ===== src/Tests/Samples.antt =====
-- Queries, responses and settings for the tests.
use universal_database_proxy.Prelude.{
  Bool, true, false, ◌&&◌, String, Option, none, some, List, [], ◌∷◌, ◌==◌, string_eq,
}
use universal_database_proxy.Prelude.Int.{ℤ, pos}
use universal_database_proxy.Types.{
  Value, string_value, QueryContext, QueryResponse, op_select, SecurityRule, SecurityAction,
  CacheConfig, DatabaseConfig, RoutingRule,
}
use universal_database_proxy.SecurityEngine.{TextLib, contains}

-- A pattern is found literally, and it has no prefix but `(?i)`.
abbrev pub literal_match : String → String → Option Bool
literal_match pattern query = some (pattern == "(?i)salary" && contains query "salary")

abbrev pub literal_lib : TextLib
literal_lib = record { match_string = literal_match; to_lower = λ s. s }

abbrev pub query_of : String → QueryContext
query_of text = record {
  id = "q1";
  raw_query = text;
  normalized_query = "";
  database_type = "mysql";
  database = "hr";
  table = "staff";
  operation = op_select;
  user = "ann";
  client_addr = "10.0.0.1";
  timestamp = pos 5;
  metadata = some [];
  response = none;
  span_context = none;
}

abbrev pub salary_query : QueryContext
salary_query = query_of "SELECT name, salary FROM staff"

abbrev pub salary_rule : SecurityAction → SecurityRule
salary_rule action = record {
  name = "pay";
  match_pattern = "salary";
  action = action;
  mask_fields = "salary" ∷ [];
  log_only = false;
}

abbrev pub salary_rows : List (List Value)
salary_rows =
    (string_value "Bo" ∷ string_value "100" ∷ [])
    ∷ (string_value "Cy" ∷ string_value "200" ∷ [])
    ∷ (string_value "Di" ∷ string_value "300" ∷ [])
    ∷ []

abbrev pub salary_response : QueryResponse
salary_response = record {
  rows_affected = pos 0;
  rows_returned = pos 3;
  columns = "name" ∷ "salary" ∷ [];
  rows = some salary_rows;
  error = none;
  duration = pos 7;
}

abbrev pub cache_config : CacheConfig
cache_config = record {
  enabled = true;
  backend = "memory";
  ttl = pos 60;
  max_size = pos 2;
  key_prefix = "";
}

abbrev pub database_of : String → DatabaseConfig
database_of name = record {
  name = name;
  database_type = "mysql";
  host = "localhost";
  port = pos 3306;
  database = name;
  is_read_replica = false;
}

abbrev pub rule_of : String → String → ℤ → RoutingRule
rule_of pattern db priority = record {
  name = db;
  match_pattern = pattern;
  database = db;
  is_read_replica = false;
  priority = priority;
}
