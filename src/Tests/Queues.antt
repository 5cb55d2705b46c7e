-- ===== src/Tests/Queues.antt =====
-- The priority queues at concrete inputs.
use universal_database_proxy.Prelude.{none, [], ◌∷◌, ◌≡◌, refl, string_eq}
use universal_database_proxy.Prelude.Int.{pos, int_eq}
use universal_database_proxy.GoMap.{lookup, insert, range}
use universal_database_proxy.Types.{QueryContext, op_delete}
use universal_database_proxy.QueryPriority.{
  QueryPriorityEngine, new, enqueue, set_priority, determine_priority, take_out, search_queues,
}
use universal_database_proxy.QueryPriority.Queues.{waiting}
use universal_database_proxy.QueryPriority.Draining.{
  IsBounded, enqueues, dequeues, take_steps, queues-IsBounded,
}
use universal_database_proxy.Tests.Samples.{salary_query}

abbrev delete_query : QueryContext
delete_query = record salary_query { id = "q2"; operation = op_delete }

abbrev two_waiting : QueryPriorityEngine
two_waiting = (enqueue delete_query (enqueue salary_query (new none)).0).0

-- The DELETE goes before the SELECT that came first.
urgent_first : waiting two_waiting ≡ delete_query ∷ salary_query ∷ []
unfolding enqueue determine_priority new lookup insert
urgent_first = refl

queues-IsBounded_example : IsBounded (take_steps (enqueues salary_query ∷ dequeues ∷ []) (new none))
queues-IsBounded_example = queues-IsBounded none (enqueues salary_query ∷ dequeues ∷ [])

-- The query asked for at level 9 is gone.
lost_query :
    waiting (set_priority (pos 3 ∷ pos 1 ∷ []) "q1" (pos 9) two_waiting).0 ≡ delete_query ∷ []
unfolding enqueue determine_priority new lookup insert set_priority range take_out search_queues
lost_query = refl
