-- ===== src/QueryHistory.antt =====
-- backend/internal/engines/query_history_engine.go: the queries that were seen, an index of their
-- positions, and the most frequent ones. The storage statistic, a float, and the metadata of a
-- record, which no code reads, are left out. Lower-casing and the hexadecimal print of an int are
-- the standard library's. A text is hashed by its bytes in UTF-8.
pub mod Top
pub mod Sorting
pub mod Counting
pub mod MostFrequent
pub mod Recent
pub mod Runs
use universal_database_proxy.Prelude.{
  ℕ, suc, Bool, true, false, not, ◌&&◌, ◌||◌, String, Option, none, some, List, [], ◌∷◌, ◌++◌,
  if◌then◌else◌, ◌==◌, string_eq, length, take, drop, ◌+◌, ◌-◌, ◌*◌,
}
use universal_database_proxy.Prelude.Int.{ℤ, pos, negsuc, ◌+ℤ◌, ltb_ℤ, incr, wrap64}
use universal_database_proxy.Prelude.Result.{Go, done, panic, ◌>>=◌}
use universal_database_proxy.GoMap.{GoMap, lookup, insert, range}
use universal_database_proxy.Bytes.{Bytes, utf8}
use universal_database_proxy.SecurityEngine.{contains}
use universal_database_proxy.Types.{Metadata, QueryContext, QueryResponse}

pub record HistoryLib : Type 0 where
  pub to_lower : String → String
  pub hex : ℤ → String

pub record HistoryConfig : Type 0 where
  pub enabled : Bool
  pub max_records : ℤ
  pub retention_days : ℤ
  pub storage_type : String
  pub index_enabled : Bool
  pub aggregate_stats : Bool

pub record QueryRecord : Type 0 where
  pub id : String
  pub query : String
  pub user : String
  pub database : String
  pub timestamp : ℤ
  pub duration : ℤ
  pub rows : ℤ
  pub status : String
  pub hash : String

pub record QueryHistoryEngine : Type 0 where
  pub config : HistoryConfig
  pub history : List QueryRecord
  pub index : GoMap String (List ℤ)
  pub records_stored : ℤ
  pub queries_retrieved : ℤ

abbrev pub default_config : HistoryConfig
default_config = record {
  enabled = false;
  max_records = pos 100000;
  retention_days = pos 30;
  storage_type = "memory";
  index_enabled = true;
  aggregate_stats = false;
}

abbrev pub config_or_default : Option HistoryConfig → HistoryConfig
config_or_default none = default_config
config_or_default (some config) = config

-- `NewQueryHistoryEngine`, which allocates `MaxRecords` places
abbrev pub is_negative : ℤ → Bool
is_negative n = ltb_ℤ n (pos 0)

abbrev pub empty_engine : HistoryConfig → QueryHistoryEngine
empty_engine config = record {
  config = config;
  history = [];
  index = [];
  records_stored = pos 0;
  queries_retrieved = pos 0;
}

unfoldable pub new : Option HistoryConfig → Go QueryHistoryEngine
new config =
    if is_negative (config_or_default config).max_records
    then panic
    else done (empty_engine (config_or_default config))

-- `hashQuery`
abbrev pub times_31 : ℤ → ℤ
times_31 (pos n) = pos (31 * n)
times_31 (negsuc n) = negsuc (31 * n + 30)

unfoldable pub hash_from : ℤ → Bytes → ℤ
hash_from hash [] = hash
hash_from hash (c ∷ cs) = hash_from (wrap64 (wrap64 (times_31 hash) +ℤ pos c)) cs

unfoldable pub hash_query : HistoryLib → String → String
hash_query lib query = lib.hex (hash_from (pos 0) (utf8 query))

abbrev pub record_of : HistoryLib → ℤ → QueryContext → QueryRecord
record_of lib now qc = record {
  id = qc.id;
  query = qc.raw_query;
  user = qc.user;
  database = qc.database;
  timestamp = now;
  duration = pos 0;
  rows = pos 0;
  status = "executed";
  hash = hash_query lib qc.raw_query;
}

abbrev pub entries_or_none : Option (List ℤ) → List ℤ
entries_or_none none = []
entries_or_none (some entries) = entries

-- `h[len(h)-n:]` if there are more than `n`; a negative `n` is out of range.
abbrev pub trimmed : ℤ → List QueryRecord → Go (List QueryRecord)
trimmed (pos n) history = done (drop (length history - n) history)
trimmed (negsuc n) history = panic

abbrev pub indexed : Bool → String → ℕ → GoMap String (List ℤ) → GoMap String (List ℤ)
indexed enabled hash position index =
    if enabled
    then insert hash (entries_or_none (lookup hash index) ++ pos position ∷ []) index
    else index

-- `Process`
abbrev pub stored :
    QueryHistoryEngine → GoMap String (List ℤ) → List QueryRecord → QueryHistoryEngine
stored e index history = record e {
  history = history;
  index = index;
  records_stored = pos (length history);
}

abbrev pub store : HistoryLib → ℤ → QueryContext → QueryHistoryEngine → Go QueryHistoryEngine
store lib now qc e =
    let index =
      indexed e.config.index_enabled (hash_query lib qc.raw_query) (length e.history) e.index in
    trimmed e.config.max_records (e.history ++ record_of lib now qc ∷ []) >>= λ history.
    done (stored e index history)

unfoldable pub process : HistoryLib → ℤ → QueryContext → QueryHistoryEngine → Go QueryHistoryEngine
process lib now qc e =
    if not e.config.enabled || qc.raw_query == "" then done e else store lib now qc e

-- `ProcessResponse`, which changes the last record, whichever query it is of
abbrev pub status_after : Option String → String → String
status_after none status = status
status_after (some error) status = "failed"

abbrev pub answered : QueryResponse → QueryRecord → QueryRecord
answered response r = record r {
  duration = response.duration;
  rows = response.rows_returned;
  status = status_after response.error r.status;
}

abbrev pub change_last : QueryResponse → List QueryRecord → List QueryRecord
change_last response [] = []
change_last response (r ∷ []) = answered response r ∷ []
change_last response (r ∷ s ∷ rest) = r ∷ change_last response (s ∷ rest)

abbrev pub respond : Option QueryResponse → QueryHistoryEngine → QueryHistoryEngine
respond none e = e
respond (some response) e = record e { history = change_last response e.history }

unfoldable pub process_response : QueryContext → QueryHistoryEngine → QueryHistoryEngine
process_response qc e = if e.config.enabled then respond qc.response e else e

-- `QueryHistory`
abbrev pub matching : HistoryLib → String → List QueryRecord → List QueryRecord
matching lib pattern [] = []
matching lib pattern (r ∷ history) =
    let rest = matching lib pattern history in
    if contains (lib.to_lower r.query) (lib.to_lower pattern) then r ∷ rest else rest

unfoldable pub query_history :
    HistoryLib → String → QueryHistoryEngine → QueryHistoryEngine × List QueryRecord
query_history lib pattern e =
    (record e { queries_retrieved = incr e.queries_retrieved }, matching lib pattern e.history)
