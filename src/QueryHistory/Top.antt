-- ===== src/QueryHistory/Top.antt =====
-- backend/internal/engines/query_history_engine.go: `GetTopQueries`.
use universal_database_proxy.Prelude.{
  ℕ, zero, suc, String, Option, none, some, List, [], ◌∷◌, if◌then◌else◌, string_eq, length, take,
}
use universal_database_proxy.Prelude.Int.{ℤ, pos, negsuc, ltb_ℤ, incr}
use universal_database_proxy.Prelude.Result.{Go, done, panic}
use universal_database_proxy.GoMap.{GoMap, lookup, insert, range}
use universal_database_proxy.QueryHistory.{QueryRecord, QueryHistoryEngine}

pub record QueryFrequency : Type 0 where
  pub query : String
  pub count : ℤ

-- `frequency[record.Query]++` for each record
abbrev pub count_or_zero : Option ℤ → ℤ
count_or_zero none = pos 0
count_or_zero (some n) = n

unfoldable pub count_queries : List QueryRecord → GoMap String ℤ → GoMap String ℤ
count_queries [] frequency = frequency
count_queries (r ∷ history) frequency =
    count_queries history
      (insert r.query (incr (count_or_zero (lookup r.query frequency))) frequency)

abbrev pub frequencies : List (String × ℤ) → List QueryFrequency
frequencies [] = []
frequencies ((query, count) ∷ pairs) = record { query = query; count = count } ∷ frequencies pairs

-- The inner loop: the first element is exchanged with each later one of a higher count.
abbrev pub larger : QueryFrequency → QueryFrequency → QueryFrequency
larger first f = if ltb_ℤ first.count f.count then f else first

abbrev pub smaller : QueryFrequency → QueryFrequency → QueryFrequency
smaller first f = if ltb_ℤ first.count f.count then first else f

unfoldable pub exchange :
    QueryFrequency → List QueryFrequency → QueryFrequency × List QueryFrequency
exchange first [] = (first, [])
exchange first (f ∷ rest) =
    let swapped = exchange (larger first f) rest in (swapped.0, smaller first f ∷ swapped.1)

-- The outer loop, over as many places as there are elements
unfoldable pub sort_places : ℕ → List QueryFrequency → List QueryFrequency
sort_places places [] = []
sort_places zero (f ∷ rest) = f ∷ rest
sort_places (suc places) (f ∷ rest) =
    let swapped = exchange f rest in swapped.0 ∷ sort_places places swapped.1

abbrev pub top_of : ℤ → List QueryFrequency → Go (List QueryFrequency)
top_of (negsuc n) results = panic
top_of (pos n) results = done (take n results)

-- `GetTopQueries`, for an order in which the frequencies are visited. A negative limit is no capacity.
unfoldable pub get_top_queries : ℤ → List String → QueryHistoryEngine → Go (List QueryFrequency)
get_top_queries limit order e =
    let results = frequencies (range order (count_queries e.history [])) in
    top_of limit (sort_places (length results) results)
