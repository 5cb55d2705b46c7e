-- ===== src/Types.antt =====
-- The shared data of backend/pkg/types/query.go: queries, responses, engine results and rules.
-- A `time.Time` and a `time.Duration` are nanoseconds, and `pos 0` is the zero time. An `error` is
-- its message. A nil pointer, map or slice is `none` where the code tests for it or writes to it.
use universal_database_proxy.Prelude.{
  ℕ, Bool, true, false, String, Option, none, some, List, [], string_eq,
}
use universal_database_proxy.Prelude.Int.{ℤ}
use universal_database_proxy.Prelude.Result.{Go, done, panic}
use universal_database_proxy.GoMap.{GoMap, lookup, insert}

-- `custom` holds any other string, which the type allows.
pub data QueryOperation : Type 0 where
  op_select op_insert op_update op_delete op_other : QueryOperation
  custom : String → QueryOperation

-- A float64 is its 64 bits.
abbrev pub Float64 : Type 0
Float64 = ℕ

-- The dynamic types that the modelled code stores in an `interface{}`. `cancel_func` names the
-- query whose context the stored function cancels.
pub data Value : Type 0 where
  bool_value : Bool → Value
  string_value : String → Value
  strings_value : List String → Value
  int_value : ℤ → Value
  int64_value : ℤ → Value
  float_value : Float64 → Value
  priority_level : ℤ → Value
  cancel_func : String → Value

abbrev pub Metadata : Type 0
Metadata = GoMap String Value

pub record QueryResponse : Type 0 where
  pub rows_affected : ℤ
  pub rows_returned : ℤ
  pub columns : List String
  pub rows : Option (List (List Value))  -- the field `Data`
  pub error : Option String
  pub duration : ℤ

pub record QueryContext : Type 0 where
  pub id : String
  pub raw_query : String
  pub normalized_query : String
  pub database_type : String
  pub database : String
  pub table : String
  pub operation : QueryOperation
  pub user : String
  pub client_addr : String
  pub timestamp : ℤ
  pub metadata : Option Metadata
  pub response : Option QueryResponse
  pub span_context : Option Value

pub record EngineResult : Type 0 where
  pub continues : Bool  -- the field `Continue`
  pub modified : Bool
  pub error : Option String
  pub metadata : Option Metadata

-- `types.EngineResult{Continue: true}`
abbrev pub continue_result : EngineResult
continue_result = record { continues = true; modified = false; error = none; metadata = none }

-- `types.EngineResult{Continue: false, Error: err}`
abbrev pub error_result : String → EngineResult
error_result err = record { continues = false; modified = false; error = some err; metadata = none }

pub data SecurityAction : Type 0 where
  allow deny mask log : SecurityAction
  custom_action : String → SecurityAction

pub record SecurityRule : Type 0 where
  pub name : String
  pub match_pattern : String
  pub action : SecurityAction
  pub mask_fields : List String
  pub log_only : Bool

pub record CacheConfig : Type 0 where
  pub enabled : Bool
  pub backend : String
  pub ttl : ℤ
  pub max_size : ℤ
  pub key_prefix : String

pub record RoutingRule : Type 0 where
  pub name : String
  pub match_pattern : String
  pub database : String
  pub is_read_replica : Bool
  pub priority : ℤ

-- The fields that the modelled code reads or copies; the pool, tags and credentials are left out.
pub record DatabaseConfig : Type 0 where
  pub name : String
  pub database_type : String
  pub host : String
  pub port : ℤ
  pub database : String
  pub is_read_replica : Bool

-- `qc.Metadata[key]`; a nil map has no keys.
abbrev pub lookup_meta : String → Option Metadata → Option Value
lookup_meta key none = none
lookup_meta key (some m) = lookup key m

-- `qc.Metadata[key] = value`; a write to a nil map panics.
abbrev pub insert_meta : String → Value → Option Metadata → Go (Option Metadata)
insert_meta key value none = panic
insert_meta key value (some m) = done (some (insert key value m))

-- `if qc.Metadata == nil { qc.Metadata = make(map[string]interface{}) }`
abbrev pub make_meta : Option Metadata → Metadata
make_meta none = []
make_meta (some m) = m
