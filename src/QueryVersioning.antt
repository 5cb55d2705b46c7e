-- ===== src/QueryVersioning.antt =====
-- backend/internal/engines/query_versioning_engine.go: a version number for each query text, found
-- again by the hash of the text. The hexadecimal and decimal prints of an int are the standard
-- library's. A text is measured and hashed by its bytes in UTF-8. The metadata of a version, the map
-- of its query, is read by no code and left out.
pub mod Numbers
pub mod Calls
pub mod Again
use universal_database_proxy.Prelude.{
  ℕ, Bool, true, false, not, ◌||◌, String, Option, none, some, List, [], ◌∷◌, if◌then◌else◌, ◌==◌,
  string_eq, length,
}
use universal_database_proxy.Prelude.Int.{ℤ, pos, ◌+ℤ◌, ◌-ℤ◌, ◌*ℤ◌, incr, wrap64}
use universal_database_proxy.Prelude.Result.{Go, done, ◌>>=◌}
use universal_database_proxy.Prelude.Division.{quotient}
use universal_database_proxy.GoMap.{GoMap, lookup, insert}
use universal_database_proxy.Bytes.{utf8}
use universal_database_proxy.QueryHistory.{hash_from}
use universal_database_proxy.Types.{int64_value, bool_value, Metadata, QueryContext, make_meta}

pub record PrintLib : Type 0 where
  pub hex : ℤ → String
  pub describe : ℤ → ℤ → ℤ → ℤ → String

pub record VersioningConfig : Type 0 where
  pub enabled : Bool
  pub max_versions : ℤ
  pub retention_days : ℤ
  pub track_only : Bool
  pub auto_tag_changes : Bool

pub record QueryVersion : Type 0 where
  pub query_id : String
  pub query : String
  pub version : ℤ
  pub timestamp : ℤ
  pub user : String
  pub database : String
  pub hash : String
  pub changes : String

pub record VersioningStats : Type 0 where
  pub versions_stored : ℤ
  pub versions_compared : ℤ
  pub duplicate_queries : ℤ
  pub avg_version_len : ℤ

pub record QueryVersioningEngine : Type 0 where
  pub config : VersioningConfig
  pub versions : GoMap String QueryVersion
  pub current_ver : ℤ
  pub stats : VersioningStats

abbrev pub default_config : VersioningConfig
default_config = record {
  enabled = false;
  max_versions = pos 1000;
  retention_days = pos 30;
  track_only = false;
  auto_tag_changes = false;
}

abbrev pub config_or_default : Option VersioningConfig → VersioningConfig
config_or_default none = default_config
config_or_default (some config) = config

-- `NewQueryVersioningEngine`
unfoldable pub new : Option VersioningConfig → QueryVersioningEngine
new config = record {
  config = config_or_default config;
  versions = [];
  current_ver = pos 1;
  stats = record {
    versions_stored = pos 0;
    versions_compared = pos 0;
    duplicate_queries = pos 0;
    avg_version_len = pos 0;
  };
}

-- `hashQuery`
unfoldable pub hash_query : PrintLib → String → String
hash_query lib query = lib.hex (hash_from (pos 0) (utf8 query))

-- A query whose hash has a version
abbrev pub with_version : ℤ → String → QueryContext → QueryContext
with_version version key qc = record qc {
  metadata = some (
      insert key (bool_value true)
        (insert "query_version" (int64_value version) (make_meta qc.metadata)));
}

abbrev pub count_duplicate : QueryVersioningEngine → QueryVersioningEngine
count_duplicate e = record e {
  stats = record e.stats { duplicate_queries = incr e.stats.duplicate_queries };
}

-- A new version
abbrev pub version_of : ℤ → String → QueryContext → ℤ → QueryVersion
version_of now hash qc version = record {
  query_id = qc.id;
  query = qc.raw_query;
  version = version;
  timestamp = now;
  user = qc.user;
  database = qc.database;
  hash = hash;
  changes = "";
}

abbrev pub average : VersioningStats → String → Go ℤ
average stats query =
    let stored = incr stats.versions_stored in
    quotient
      (wrap64
        (wrap64 (stats.avg_version_len *ℤ wrap64 (stored -ℤ pos 1)) +ℤ pos (length (utf8 query))))
      stored

abbrev pub stored_as : ℤ → String → QueryContext → QueryVersioningEngine → ℤ → QueryVersioningEngine
stored_as now hash qc e avg = record e {
  versions = insert hash (version_of now hash qc e.current_ver) e.versions;
  current_ver = incr e.current_ver;
  stats = record e.stats { versions_stored = incr e.stats.versions_stored; avg_version_len = avg };
}

abbrev pub by_version :
    ℤ
    → String
    → QueryContext
    → QueryVersioningEngine
    → Option QueryVersion
    → Go (QueryVersioningEngine × QueryContext)
by_version now hash qc e (some existing) =
    done (count_duplicate e, with_version existing.version "query_exists" qc)
by_version now hash qc e none = average e.stats qc.raw_query >>= λ avg.
    done (stored_as now hash qc e avg, with_version e.current_ver "query_new" qc)

-- `Process`, which lets every query continue
unfoldable pub process :
    PrintLib → ℤ → QueryContext → QueryVersioningEngine → Go (QueryVersioningEngine × QueryContext)
process lib now qc e =
    if not e.config.enabled || qc.raw_query == ""
    then done (e, qc)
    else by_version now (hash_query lib qc.raw_query) qc e
        (lookup (hash_query lib qc.raw_query) e.versions)

-- `CompareVersions`; `none` is the error of a hash without a version.
abbrev pub compare_found :
    PrintLib
    → QueryVersioningEngine
    → Option QueryVersion
    → Option QueryVersion
    → QueryVersioningEngine × Option String
compare_found lib e none other = (e, none)
compare_found lib e (some v1) none = (e, none)
compare_found lib e (some v1) (some v2) = (
  record e { stats = record e.stats { versions_compared = incr e.stats.versions_compared } },
  some (
      lib.describe v1.version v2.version (pos (length (utf8 v1.query)))
        (pos (length (utf8 v2.query)))),
)

unfoldable pub compare_versions :
    PrintLib → String → String → QueryVersioningEngine → QueryVersioningEngine × Option String
compare_versions lib hash1 hash2 e =
    compare_found lib e (lookup hash1 e.versions) (lookup hash2 e.versions)
