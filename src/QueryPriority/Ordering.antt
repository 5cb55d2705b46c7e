-- ===== src/QueryPriority/Ordering.antt =====
-- The order in which queries that were enqueued come out.
use universal_database_proxy.Prelude.{
  Option, none, some, List, [], ◌∷◌, ◌++◌, ◌≡◌, if◌then◌else◌, ◌==◌,
}
use universal_database_proxy.Prelude.Int.{ℤ, pos, int_eq}
use universal_database_proxy.Types.{QueryContext}
use universal_database_proxy.QueryPriority.{
  QueryPriorityEngine, QueueError, enqueue, determine_priority,
}
use universal_database_proxy.QueryPriority.Queues.{items_in}

-- Calls of `Enqueue`, one after another, if none reports an error.
abbrev pub go_on : Option QueueError → Option QueryPriorityEngine → Option QueryPriorityEngine
go_on none rest = rest
go_on (some err) rest = none

unfoldable pub enqueue_all : List QueryContext → QueryPriorityEngine → Option QueryPriorityEngine
enqueue_all [] e = some e
enqueue_all (qc ∷ qcs) e = go_on (enqueue qc e).1 (enqueue_all qcs (enqueue qc e).0)

-- The queries of one level, in their order, and all queries by level, the critical one (3) first.
unfoldable pub of_level : QueryPriorityEngine → ℤ → List QueryContext → List QueryContext
of_level e k [] = []
of_level e k (qc ∷ qcs) =
    let rest = of_level e k qcs in if determine_priority e qc == k then qc ∷ rest else rest

abbrev pub by_level : QueryPriorityEngine → List QueryContext → List QueryContext
by_level e qcs =
    of_level e (pos 3) qcs
    ++ (of_level e (pos 2) qcs ++ (of_level e (pos 1) qcs ++ (of_level e (pos 0) qcs ++ [])))

-- The queues after a query was taken.
record Took (e : QueryPriorityEngine) (qc : QueryContext) (after : QueryPriorityEngine)
    : Type 0 where
  same_default : after.default_priority ≡ e.default_priority
  items :
      (k : ℤ)
      → items_in k after.queues ≡ (
          if determine_priority e qc == k
          then items_in k e.queues ++ qc ∷ []
          else items_in k e.queues)
