-- ===== src/Failover.antt =====
-- backend/internal/engines/failover_engine.go: health counts of databases and the promotion of a
-- healthy one when the primary fails. The order in which `range` visits the databases is an
-- argument. Each method holds the engine's lock for one step. Times and the statistics are left out.
pub mod Health
pub mod Targets
pub mod Promotion
use universal_database_proxy.Prelude.{
  Bool, true, false, not, ◌&&◌, String, Option, none, some, List, [], ◌∷◌, if◌then◌else◌, ◌==◌,
  string_eq,
}
use universal_database_proxy.Prelude.Int.{ℤ, pos, leb_ℤ, incr}
use universal_database_proxy.GoMap.{GoMap, lookup, insert, range}
use universal_database_proxy.Types.{
  QueryResponse, QueryContext, EngineResult, string_value, continue_result, make_meta, Metadata,
}

pub record FailoverConfig : Type 0 where
  pub enabled : Bool
  pub failure_threshold : ℤ
  pub recovery_threshold : ℤ
  pub enable_auto_failover : Bool

pub record DatabaseNode : Type 0 where
  pub name : String
  pub host : String
  pub port : ℤ
  pub database : String
  pub is_primary : Bool
  pub is_healthy : Bool
  pub latency_ms : ℤ
  pub fail_count : ℤ

pub record FailoverContext : Type 0 where
  pub failover_in_progress : Bool
  pub source_node : String
  pub target_node : String

pub record FailoverEngine : Type 0 where
  pub config : FailoverConfig
  pub databases : GoMap String DatabaseNode
  pub primary : String
  pub failover_ctx : FailoverContext

abbrev default_config : FailoverConfig
default_config = record {
  enabled = false;
  failure_threshold = pos 3;
  recovery_threshold = pos 2;
  enable_auto_failover = true;
}

abbrev config_or_default : Option FailoverConfig → FailoverConfig
config_or_default none = default_config
config_or_default (some config) = config

-- `NewFailoverEngine`
unfoldable pub new : Option FailoverConfig → FailoverEngine
new config = record {
  config = config_or_default config;
  databases = [];
  primary = "";
  failover_ctx = record { failover_in_progress = false; source_node = ""; target_node = "" };
}

-- `AddDatabase`
unfoldable pub add_database : DatabaseNode → FailoverEngine → FailoverEngine
add_database node e = record e {
  databases = insert node.name (record node { is_healthy = true }) e.databases;
  primary = if node.is_primary then node.name else e.primary;
}

-- The metadata that `Process` writes while a failover is in progress. The code then unlocks the
-- read lock a second time, which stops the program: see `process`.
pub data ProcessResult : Type 0 where
  processed : QueryContext → EngineResult → ProcessResult
  unlock_of_unlocked : ProcessResult

-- `Process`
unfoldable pub process : FailoverEngine → QueryContext → ProcessResult
process e qc =
    if not e.config.enabled
    then processed qc continue_result
    else if e.failover_ctx.failover_in_progress
    then unlock_of_unlocked
    else processed
        (record qc {
          metadata = some (insert "primary_node" (string_value e.primary) (make_meta qc.metadata));
        })
        continue_result

-- `recordSuccess` and `recordFailure`
abbrev pub succeeded : DatabaseNode → DatabaseNode
succeeded node = record node { fail_count = pos 0; is_healthy = true }

abbrev pub failed : ℤ → DatabaseNode → DatabaseNode
failed threshold node =
    let counted = record node { fail_count = incr node.fail_count } in
    if leb_ℤ threshold counted.fail_count then record counted { is_healthy = false } else counted

abbrev pub update_node :
    String
    → (DatabaseNode → DatabaseNode)
    → Option DatabaseNode
    → GoMap String DatabaseNode
    → GoMap String DatabaseNode
update_node name change none databases = databases
update_node name change (some node) databases = insert name (change node) databases

unfoldable pub record_success : String → FailoverEngine → FailoverEngine
record_success name e = record e {
  databases = update_node name succeeded (lookup name e.databases) e.databases;
}

unfoldable pub record_failure : String → FailoverEngine → FailoverEngine
record_failure name e = record e {
  databases =
      update_node name (failed e.config.failure_threshold) (lookup name e.databases) e.databases;
}

-- `shouldFailover`
abbrev pub is_down : ℤ → Option DatabaseNode → Bool
is_down threshold none = true
is_down threshold (some node) = not node.is_healthy && leb_ℤ threshold node.fail_count

unfoldable pub should_failover : FailoverEngine → Bool
should_failover e =
    if e.failover_ctx.failover_in_progress
    then false
    else is_down e.config.failure_threshold (lookup e.primary e.databases)

-- The loop of `triggerFailover`
unfoldable pub find_target : String → List (String × DatabaseNode) → String
find_target primary [] = ""
find_target primary ((name, node) ∷ rest) =
    let later = find_target primary rest in
    if not (name == primary) && node.is_healthy then name else later

abbrev pub promoted : DatabaseNode → DatabaseNode
promoted node = record node { is_primary = true }

-- What `triggerFailover` leaves once the target is found, or none is.
abbrev pub promote : String → FailoverEngine → FailoverEngine
promote target e =
    if target == ""
    then record e {
      failover_ctx = record e.failover_ctx {
        failover_in_progress = false;
        source_node = e.primary;
      };
    }
    else record e {
      failover_ctx = record {
        failover_in_progress = false;
        source_node = e.primary;
        target_node = target;
      };
      primary = target;
      databases = update_node target promoted (lookup target e.databases) e.databases;
    }

-- `triggerFailover`
unfoldable pub trigger_failover : List String → FailoverEngine → FailoverEngine
trigger_failover order e = promote (find_target e.primary (range order e.databases)) e

abbrev pub update_health : String → Option QueryResponse → FailoverEngine → FailoverEngine
update_health name none e = e
update_health name (some resp) e = elim resp.error [
  | none ↦ record_success name e
  | some err ↦ record_failure name e
]

abbrev pub fail_over_if : List String → FailoverEngine → FailoverEngine
fail_over_if order e =
    if e.config.enable_auto_failover && should_failover e then trigger_failover order e else e

-- `ProcessResponse`; its result is always `{Continue: true}` and it leaves the query alone.
unfoldable pub process_response : List String → QueryContext → FailoverEngine → FailoverEngine
process_response order qc e = fail_over_if order (update_health qc.database qc.response e)

-- `GetPrimaryDatabase`
unfoldable pub get_primary_database : FailoverEngine → String
get_primary_database e = e.primary
