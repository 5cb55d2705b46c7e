-- ===== src/QueryPriority/Moving.antt =====
-- `SetPriority`: what a move keeps and what it loses.
use universal_database_proxy.Prelude.{
  true, String, Option, none, some, List, [], ◌∷◌, ◌++◌, ◌≡◌, mem, if◌then◌else◌, ◌==◌, string_eq,
}
use universal_database_proxy.Prelude.Int.{ℤ, int_eq}
use universal_database_proxy.GoMap.{GoMap, lookup}
use universal_database_proxy.Types.{QueryContext}
use universal_database_proxy.QueryPriority.{
  QueryPriorityEngine, QueueError, invalid_level, query_not_found,
}
use universal_database_proxy.QueryPriority.Queues.{items_in}
use universal_database_proxy.QueryPriority.Search.{Split, NotIn}

-- The queries of the level `k` once the level `from` has only the queries `rest`.
abbrev pub left_in : ℤ → List QueryContext → QueryPriorityEngine → ℤ → List QueryContext
left_in from rest e k = if from == k then rest else items_in k e.queues

-- How a call of `SetPriority` can end.
pub data PriorityOutcome (order : List ℤ) (query_id : String) (priority : ℤ)
    (e : QueryPriorityEngine) : QueryPriorityEngine × Option QueueError → Type 0 where
  not_found :
      ((k : ℤ) → mem k order ≡ true → NotIn query_id (items_in k e.queues))
      → PriorityOutcome order query_id priority e (e, some (query_not_found query_id))
  moved :
      (after : QueryPriorityEngine) (from : ℤ) (qc : QueryContext) (rest : List QueryContext)
      → Split query_id (items_in from e.queues) qc rest
      → ((k : ℤ)
          → items_in k after.queues
            ≡ (if priority == k then left_in from rest e k ++ qc ∷ [] else left_in from rest e k))
      → PriorityOutcome order query_id priority e (after, none)
  lost :
      (after : QueryPriorityEngine) (from : ℤ) (qc : QueryContext) (rest : List QueryContext)
      → Split query_id (items_in from e.queues) qc rest
      → lookup priority e.queues ≡ none
      → ((k : ℤ) → items_in k after.queues ≡ left_in from rest e k)
      → PriorityOutcome order query_id priority e (after, some (invalid_level priority))
