-- ===== src/Tests/History.antt =====
-- The query history engine at concrete inputs.
use universal_database_proxy.Prelude.{
  true, String, some, List, [], ◌∷◌, ◌≡◌, refl, arith, if◌then◌else◌, ◌==◌, string_eq,
}
use universal_database_proxy.Prelude.Int.{pos, int_eq}
use universal_database_proxy.Prelude.Result.{done, ◌>>=◌}
use universal_database_proxy.GoMap.{lookup, insert, Covers}
use universal_database_proxy.QueryHistory.{
  HistoryLib, HistoryConfig, QueryRecord, QueryHistoryEngine, default_config, new,
}
use universal_database_proxy.QueryHistory.Top.{QueryFrequency, count_queries, get_top_queries}
use universal_database_proxy.QueryHistory.MostFrequent.{counts, AreTop, get_top_queries-AreTop}
use universal_database_proxy.QueryHistory.Recent.{
  Call, queries, responds, run, recorded, ids, last_of,
}
use universal_database_proxy.QueryHistory.Runs.{run-Recent}
use universal_database_proxy.Tests.Samples.{query_of, salary_response}

abbrev one_hash : HistoryLib
one_hash = record { to_lower = λ s. s; hex = λ n. if n == pos 0 then "0" else "1" }

abbrev keeps_two : HistoryConfig
keeps_two = record default_config { enabled = true; max_records = pos 2 }

abbrev call_of : String → Call
call_of text = queries (pos 5) (query_of text)

abbrev four_calls : List Call
four_calls =
    call_of "SELECT 1"
    ∷ call_of "SELECT 2"
    ∷ responds (record (query_of "SELECT 1") { response = some salary_response })
    ∷ call_of "SELECT 3"
    ∷ []

run-Recent_example :
    (e : QueryHistoryEngine) × ((new (some keeps_two) >>= λ e0. run one_hash four_calls e0)
      ≡ done e)
    × (ids e.history ≡ last_of 2 (recorded four_calls))
run-Recent_example = run-Recent one_hash keeps_two 2 four_calls refl refl

abbrev row_of : String → QueryRecord
row_of text = record {
  id = "q";
  query = text;
  user = "ann";
  database = "hr";
  timestamp = pos 5;
  duration = pos 0;
  rows = pos 0;
  status = "executed";
  hash = "1";
}

abbrev three_rows : QueryHistoryEngine
three_rows = record {
  config = keeps_two;
  history = row_of "SELECT 1" ∷ row_of "SELECT 2" ∷ row_of "SELECT 1" ∷ [];
  index = [];
  records_stored = pos 3;
  queries_retrieved = pos 0;
}

two_texts : Covers ("SELECT 2" ∷ "SELECT 1" ∷ []) (counts three_rows)
unfolding count_queries lookup insert
two_texts k v h = ground (arith, h)

get_top_queries-AreTop_example :
    (results : List QueryFrequency) × (get_top_queries
        (pos 1)
        ("SELECT 2" ∷ "SELECT 1" ∷ [])
        three_rows
      ≡ done results)
    × AreTop three_rows.history 1 results
get_top_queries-AreTop_example =
    get_top_queries-AreTop 1 ("SELECT 2" ∷ "SELECT 1" ∷ []) three_rows (omega arith) two_texts
