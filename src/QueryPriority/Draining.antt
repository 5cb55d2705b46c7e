-- ===== src/QueryPriority/Draining.antt =====
-- The engine against its specification: one sequence of waiting queries, the most urgent level
-- first and first come first served within a level.
use universal_database_proxy.Prelude.{
  ℕ, zero, suc, ◌≤◌, Option, none, some, List, [], ◌∷◌, ◌++◌, ◌≡◌, refl, ap, ◌∙◌, arith,
  if◌then◌else◌, ◌==◌, length, length-append, Option-cases, Bool-cases, inl, inr,
}
use universal_database_proxy.Prelude.Int.{ℤ, pos, pos_part, leb_ℤ, int_eq, eq_ℤ_iff}
use universal_database_proxy.GoMap.{lookup, insert}
use universal_database_proxy.Types.{QueryContext}
use universal_database_proxy.QueryPriority.{
  PriorityConfig, QueryPriorityEngine, QueueError, invalid_level, queue_full, with_items, levels,
  dequeue, enqueue, determine_priority, new,
}
use universal_database_proxy.QueryPriority.Queues.{
  items_in, items_in-insert, waiting, first_of, rest_of, dequeue_from-Popped, dequeue_from-length,
}

-- `Dequeue` returns the first of the waiting queries and leaves the others in their order, and
-- returns nil when none waits.
pub dequeue-waiting :
    (e : QueryPriorityEngine)
    → ((dequeue e).1 ≡ first_of (waiting e)) × (waiting (dequeue e).0 ≡ rest_of (waiting e))
unfolding dequeue
dequeue-waiting e =
    let p = dequeue_from-Popped levels e.queues (refl, (refl, (refl, (refl, tt)))) in
    (p.item, p.left)

-- The result of one call of `Dequeue`, before those of the calls that follow it.
abbrev pub collect :
    Option QueryContext
    → QueryPriorityEngine
    → QueryPriorityEngine × List QueryContext
    → QueryPriorityEngine × List QueryContext
collect none e rest = (e, [])
collect (some qc) e rest = (rest.0, qc ∷ rest.1)

-- Up to `n` calls of `Dequeue`, and what they return.
unfoldable pub drain : ℕ → QueryPriorityEngine → QueryPriorityEngine × List QueryContext
drain zero e = (e, [])
drain (suc n) e = collect (dequeue e).1 (dequeue e).0 (drain n (dequeue e).0)

drain-suc :
    (n : ℕ) (e : QueryPriorityEngine) (qc : QueryContext)
    → (dequeue e).1 ≡ some qc
    → drain (suc n) e ≡ ((drain n (dequeue e).0).0, qc ∷ (drain n (dequeue e).0).1)
unfolding drain
drain-suc n e qc h = ap (λ r. collect r (dequeue e).0 (drain n (dequeue e).0)) h

pub drain-sequence :
    (l : List QueryContext) (e : QueryPriorityEngine)
    → waiting e ≡ l
    → ((drain (length l) e).1 ≡ l) × (waiting (drain (length l) e).0 ≡ [])
drain-sequence [] e h = unfold drain in (refl, h)
drain-sequence (qc ∷ l) e h =
    let next = dequeue-waiting e in
    let more = drain-sequence l (dequeue e).0 (next.1 ∙ ap rest_of h) in
    rw (drain-suc (length l) e qc (next.0 ∙ ap first_of h)) (ap (λ r. qc ∷ r) more.0, more.1)

-- As many calls of `Dequeue` as queries wait return all of them in the order of the specification,
-- and leave the queues empty.
pub drain-waiting :
    (e : QueryPriorityEngine)
    → ((drain (length (waiting e)) e).1 ≡ waiting e)
      × (waiting (drain (length (waiting e)) e).0 ≡ [])
drain-waiting e = drain-sequence (waiting e) e refl

-- What `Enqueue` does to the queues: an error changes nothing, and a query that is taken goes to
-- the end of the queue of its level.
pub data Enqueued (e : QueryPriorityEngine) (qc : QueryContext)
    : QueryPriorityEngine × Option QueueError → Type 0 where
  no_level :
      lookup (determine_priority e qc) e.queues ≡ none
      → Enqueued e qc (e, some (invalid_level (determine_priority e qc)))
  no_room :
      pos_part e.config.max_queue_size ≤ length (items_in (determine_priority e qc) e.queues)
      → Enqueued e qc (e, some queue_full)
  joined :
      (after : QueryPriorityEngine)
      → suc (length (items_in (determine_priority e qc) e.queues))
        ≤ pos_part e.config.max_queue_size
      → after.config ≡ e.config
      → after.default_priority ≡ e.default_priority
      → ((k : ℤ)
          → items_in k after.queues ≡ (
              if determine_priority e qc == k
              then items_in k e.queues ++ qc ∷ []
              else items_in k e.queues))
      → Enqueued e qc (after, none)

-- `Enqueue` refuses a level without a queue and a queue that holds MaxQueueSize queries, both
-- without a change, and otherwise appends the query to the queue of its level and to no other.
pub enqueue-Enqueued : (qc : QueryContext) (e : QueryPriorityEngine) → Enqueued e qc (enqueue qc e)
unfolding enqueue
enqueue-Enqueued qc e = elim (Option-cases (lookup (determine_priority e qc) e.queues)) [
  | inl h ↦ rw h (no_level h)
  | inr f ↦ rw f.1 (elim (Bool-cases (leb_ℤ e.config.max_queue_size (pos (length f.0.items)))) [
    | inl full ↦ rw full (no_room (ground (arith, f.1, full)))
    | inr room ↦ rw room (
        joined _ (ground (arith, f.1, room)) refl refl (λ k. ground (
          arith,
          f.1,
          items_in-insert (determine_priority e qc) k (with_items f.0 (f.0.items ++ qc ∷ []))
              e.queues,
          eq_ℤ_iff (determine_priority e qc) k,
        )))
  ])
]

-- No queue holds more than MaxQueueSize queries.
abbrev pub IsBounded : QueryPriorityEngine → Type 0
IsBounded e = (k : ℤ) → length (items_in k e.queues) ≤ pos_part e.config.max_queue_size

pub data QueueStep : Type 0 where
  enqueues : QueryContext → QueueStep
  dequeues : QueueStep

abbrev pub take_step : QueueStep → QueryPriorityEngine → QueryPriorityEngine
take_step (enqueues qc) e = (enqueue qc e).0
take_step dequeues e = (dequeue e).0

abbrev pub take_steps : List QueueStep → QueryPriorityEngine → QueryPriorityEngine
take_steps [] e = e
take_steps (s ∷ ss) e = take_steps ss (take_step s e)

Enqueued-IsBounded :
    (e : QueryPriorityEngine) (qc : QueryContext) (r : QueryPriorityEngine × Option QueueError)
    → Enqueued e qc r
    → IsBounded e
    → IsBounded r.0
Enqueued-IsBounded e qc _ (no_level h) b k = b k
Enqueued-IsBounded e qc _ (no_room h) b k = b k
Enqueued-IsBounded e qc _ (joined after room same _ items) b k = ground (
  arith,
  same,
  items k,
  b k,
  length-append (items_in k e.queues) (qc ∷ []),
  eq_ℤ_iff (determine_priority e qc) k,
)

take_steps-IsBounded :
    (ss : List QueueStep) (e : QueryPriorityEngine) → IsBounded e → IsBounded (take_steps ss e)
take_steps-IsBounded [] e b = b
take_steps-IsBounded (enqueues qc ∷ ss) e b =
    take_steps-IsBounded ss (enqueue qc e).0
      (Enqueued-IsBounded e qc (enqueue qc e) (enqueue-Enqueued qc e) b)
take_steps-IsBounded (dequeues ∷ ss) e b =
    take_steps-IsBounded ss (dequeue e).0
      (unfold dequeue in λ k. omega (arith, b k, dequeue_from-length levels k e.queues))

new-IsBounded : (config : Option PriorityConfig) → IsBounded (new config)
unfolding new lookup insert
new-IsBounded config k = ground arith

-- Whatever is enqueued and dequeued after the engine is made, no queue holds more than
-- MaxQueueSize queries.
pub queues-IsBounded :
    (config : Option PriorityConfig) (ss : List QueueStep) → IsBounded (take_steps ss (new config))
queues-IsBounded config ss = take_steps-IsBounded ss (new config) (new-IsBounded config)
