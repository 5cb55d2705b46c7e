-- ===== src/QueryPriority.antt =====
-- backend/internal/engines/query_priority_engine.go: four queues of queries by priority level. A
-- level is an int, and any int may be asked for. The order in which `range` visits the queues is an
-- argument; each queue's lock is held for one step.
pub mod Queues
pub mod Draining
pub mod Ordering
pub mod Search
pub mod Moving
use universal_database_proxy.Prelude.{
  ℕ, Bool, true, false, String, Option, none, some, List, [], ◌∷◌, ◌++◌, if◌then◌else◌, ◌==◌,
  string_eq, length,
}
use universal_database_proxy.Prelude.Int.{ℤ, pos, leb_ℤ, int_eq}
use universal_database_proxy.Prelude.Result.{Go, done, ◌>>=◌}
use universal_database_proxy.GoMap.{GoMap, lookup, insert, range}
use universal_database_proxy.Types.{
  Value, priority_level, Metadata, QueryOperation, op_select, op_insert, op_update, op_delete,
  QueryContext, EngineResult, continue_result, lookup_meta, insert_meta,
}

pub record PriorityConfig : Type 0 where
  pub enabled : Bool
  pub default_priority : ℤ
  pub max_queue_size : ℤ
  pub starvation_timeout : ℤ

-- The constants of the type `PriorityLevel`
abbrev pub priority_low : ℤ
priority_low = pos 0

abbrev pub priority_normal : ℤ
priority_normal = pos 1

abbrev pub priority_high : ℤ
priority_high = pos 2

abbrev pub priority_critical : ℤ
priority_critical = pos 3

pub record PriorityQueue : Type 0 where
  pub level : ℤ
  pub items : List QueryContext

pub record QueryPriorityEngine : Type 0 where
  pub config : PriorityConfig
  pub queues : GoMap ℤ PriorityQueue
  pub default_priority : ℤ

pub data QueueError : Type 0 where
  invalid_level : ℤ → QueueError
  queue_full : QueueError
  query_not_found : String → QueueError

abbrev pub default_config : PriorityConfig
default_config = record {
  enabled = true;
  default_priority = priority_normal;
  max_queue_size = pos 10000;
  starvation_timeout = pos 30000000000;
}

abbrev pub config_or_default : Option PriorityConfig → PriorityConfig
config_or_default none = default_config
config_or_default (some config) = config

abbrev empty_queue : ℤ → PriorityQueue
empty_queue level = record { level = level; items = [] }

-- `NewQueryPriorityEngine`
unfoldable pub new : Option PriorityConfig → QueryPriorityEngine
unfolding insert
new config = record {
  config = config_or_default config;
  queues = insert priority_low (empty_queue priority_low) (
      insert priority_normal (empty_queue priority_normal) (
        insert priority_high (empty_queue priority_high)
          (insert priority_critical (empty_queue priority_critical) [])));
  default_priority = (config_or_default config).default_priority;
}

-- The `switch` of `determinePriority`
abbrev pub operation_priority : ℤ → QueryOperation → ℤ
operation_priority default_priority op_select = priority_normal
operation_priority default_priority op_insert = priority_high
operation_priority default_priority op_update = priority_high
operation_priority default_priority op_delete = priority_critical
operation_priority default_priority _ = default_priority

abbrev pub requested_or : Option Value → ℤ → ℤ
requested_or (some (priority_level p)) q = p
requested_or _ q = q

-- `determinePriority`
unfoldable pub determine_priority : QueryPriorityEngine → QueryContext → ℤ
determine_priority e qc =
    requested_or (lookup_meta "requested_priority" qc.metadata)
      (operation_priority e.default_priority qc.operation)

-- `Process`
unfoldable pub process : QueryPriorityEngine → QueryContext → Go (QueryContext × EngineResult)
process e qc =
    if e.config.enabled
    then (insert_meta "query_priority" (priority_level (determine_priority e qc)) qc.metadata
        >>= λ m. done (record qc { metadata = m }, continue_result))
    else done (qc, continue_result)

abbrev pub with_items : PriorityQueue → List QueryContext → PriorityQueue
with_items queue items = record queue { items = items }

abbrev pub enqueue_at :
    ℤ
    → Option PriorityQueue
    → QueryContext
    → QueryPriorityEngine
    → QueryPriorityEngine × Option QueueError
enqueue_at priority none qc e = (e, some (invalid_level priority))
enqueue_at priority (some queue) qc e =
    if leb_ℤ e.config.max_queue_size (pos (length queue.items)) then (e, some queue_full) else (
      record e { queues = insert priority (with_items queue (queue.items ++ qc ∷ [])) e.queues },
      none,
    )

-- `Enqueue`
unfoldable pub enqueue :
    QueryContext → QueryPriorityEngine → QueryPriorityEngine × Option QueueError
enqueue qc e = enqueue_at (determine_priority e qc) (lookup (determine_priority e qc) e.queues) qc e

abbrev pub levels : List ℤ
levels = priority_critical ∷ priority_high ∷ priority_normal ∷ priority_low ∷ []

abbrev pub pop_or :
    ℤ
    → Option PriorityQueue
    → GoMap ℤ PriorityQueue
    → GoMap ℤ PriorityQueue × Option QueryContext
    → GoMap ℤ PriorityQueue × Option QueryContext
pop_or level none queues rest = rest
pop_or level (some queue) queues rest = elim queue.items [
  | [] ↦ rest
  | item ∷ items ↦ (insert level (with_items queue items) queues, some item)
]

-- The loop of `Dequeue`
unfoldable pub dequeue_from :
    List ℤ → GoMap ℤ PriorityQueue → GoMap ℤ PriorityQueue × Option QueryContext
dequeue_from [] queues = (queues, none)
dequeue_from (level ∷ more) queues =
    pop_or level (lookup level queues) queues (dequeue_from more queues)

-- `Dequeue`
unfoldable pub dequeue : QueryPriorityEngine → QueryPriorityEngine × Option QueryContext
dequeue e = let r = dequeue_from levels e.queues in (record e { queues = r.0 }, r.1)

abbrev pub items_of : Option PriorityQueue → List QueryContext
items_of none = []
items_of (some queue) = queue.items

-- `GetQueueSize`
unfoldable pub get_queue_size : ℤ → QueryPriorityEngine → ℕ
get_queue_size priority e = length (items_of (lookup priority e.queues))

-- The search of `SetPriority` in one queue: the query found, and the items without it.
abbrev pub put_back :
    QueryContext
    → Option (QueryContext × List QueryContext)
    → Option (QueryContext × List QueryContext)
put_back qc none = none
put_back qc (some r) = some (r.0, qc ∷ r.1)

unfoldable pub take_out : String → List QueryContext → Option (QueryContext × List QueryContext)
take_out query_id [] = none
take_out query_id (qc ∷ items) =
    let rest = take_out query_id items in
    if qc.id == query_id then some (qc, items) else put_back qc rest

pub record Taken : Type 0 where
  pub level : ℤ
  pub queue : PriorityQueue
  pub query : QueryContext
  pub rest : List QueryContext

abbrev pub taken_or :
    ℤ → PriorityQueue → Option (QueryContext × List QueryContext) → Option Taken → Option Taken
taken_or level queue none later = later
taken_or level queue (some r) later =
    some (record { level = level; queue = queue; query = r.0; rest = r.1 })

unfoldable pub search_queues : String → List (ℤ × PriorityQueue) → Option Taken
search_queues query_id [] = none
search_queues query_id ((level, queue) ∷ more) =
    taken_or level queue (take_out query_id queue.items) (search_queues query_id more)

abbrev pub put_at :
    ℤ
    → QueryContext
    → Option PriorityQueue
    → QueryPriorityEngine
    → QueryPriorityEngine × Option QueueError
put_at priority qc none e = (e, some (invalid_level priority))
put_at priority qc (some target) e = (
  record e { queues = insert priority (with_items target (target.items ++ qc ∷ [])) e.queues },
  none,
)

-- The two halves of a move: the query leaves its queue, and then joins the target.
abbrev pub removed : Taken → QueryPriorityEngine → QueryPriorityEngine
removed t e = record e { queues = insert t.level (with_items t.queue t.rest) e.queues }

abbrev pub move_taken :
    String → ℤ → Option Taken → QueryPriorityEngine → QueryPriorityEngine × Option QueueError
move_taken query_id priority none e = (e, some (query_not_found query_id))
move_taken query_id priority (some t) e =
    put_at priority t.query (lookup priority (removed t e).queues) (removed t e)

-- `SetPriority`
unfoldable pub set_priority :
    List ℤ → String → ℤ → QueryPriorityEngine → QueryPriorityEngine × Option QueueError
set_priority order query_id priority e =
    move_taken query_id priority (search_queues query_id (range order e.queues)) e

-- `ClearQueues`
unfoldable pub clear_from : List (ℤ × PriorityQueue) → GoMap ℤ PriorityQueue → GoMap ℤ PriorityQueue
clear_from [] queues = queues
clear_from ((level, queue) ∷ more) queues =
    clear_from more (insert level (with_items queue []) queues)

unfoldable pub clear_queues : List ℤ → QueryPriorityEngine → QueryPriorityEngine
clear_queues order e = record e { queues = clear_from (range order e.queues) e.queues }
