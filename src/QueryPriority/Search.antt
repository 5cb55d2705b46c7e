-- ===== src/QueryPriority/Search.antt =====
-- The search of `SetPriority`: what it finds, and what it leaves.
use mathlib.Core.Path.{subst}
use mathlib.Core.List.{Memᴰ}
use universal_database_proxy.Prelude.{
  true, String, none, some, List, [], ◌∷◌, ◌++◌, ◌≡◌, refl, ap, ◌∙◌, false, mem, arith,
  if◌then◌else◌, ◌==◌, string_eq, Option-cases, Bool-cases, inl, inr,
}
use universal_database_proxy.Prelude.Int.{ℤ, int_eq, eq_ℤ_iff}
use universal_database_proxy.GoMap.{GoMap, lookup, range}
use universal_database_proxy.Types.{QueryContext}
use universal_database_proxy.QueryPriority.{PriorityQueue, take_out, search_queues, Taken}
use universal_database_proxy.QueryPriority.Queues.{items_in}

-- The query `qc` has the identifier and stands first among those of the list that have it, and
-- `rest` is the list without it.
pub record Split (query_id : String) (items : List QueryContext) (qc : QueryContext)
    (rest : List QueryContext) : Type 0 where
  pub before : List QueryContext
  pub after : List QueryContext
  pub named : (qc.id == query_id) ≡ true
  pub whole : items ≡ before ++ qc ∷ after
  pub others : rest ≡ before ++ after

Split-cons :
    (query_id : String) (x : QueryContext) (items : List QueryContext) (qc : QueryContext)
    (rest : List QueryContext)
    → Split query_id items qc rest
    → Split query_id (x ∷ items) qc (x ∷ rest)
Split-cons query_id x items qc rest s = record {
  before = x ∷ s.before;
  after = s.after;
  named = s.named;
  whole = ap (λ l. x ∷ l) s.whole;
  others = ap (λ l. x ∷ l) s.others;
}

pub take_out-Split :
    (query_id : String) (items : List QueryContext) (r : QueryContext × List QueryContext)
    → take_out query_id items ≡ some r
    → Split query_id items r.0 r.1
unfolding take_out
take_out-Split query_id [] r h = absurd (ground (arith, h))
take_out-Split query_id (x ∷ items) r h = elim (Bool-cases (x.id == query_id)) [
  | inl e ↦
      let same : (x, items) ≡ r = ground (arith, e, h) in
      subst (λ (p : QueryContext × List QueryContext). Split query_id (x ∷ items) p.0 p.1) same
        (record { before = []; after = items; named = e; whole = refl; others = refl })
  | inr e ↦ elim (Option-cases (take_out query_id items)) [
    | inl n ↦ absurd (ground (arith, e, n, h))
    | inr f ↦
        let same : (f.0.0, x ∷ f.0.1) ≡ r = ground (arith, e, f.1, h) in
        subst (λ (p : QueryContext × List QueryContext). Split query_id (x ∷ items) p.0 p.1) same
          (Split-cons query_id x items f.0.0 f.0.1 (take_out-Split query_id items f.0 f.1))
  ]
]

-- A query found by the search stands in the queue of its level.
pub record WasIn (query_id : String) (queues : GoMap ℤ PriorityQueue) (t : Taken) : Type 0 where
  pub stands : lookup t.level queues ≡ some t.queue
  pub split : Split query_id t.queue.items t.query t.rest

pub search_queues-WasIn :
    (order : List ℤ) (query_id : String) (queues : GoMap ℤ PriorityQueue) (t : Taken)
    → search_queues query_id (range order queues) ≡ some t
    → WasIn query_id queues t
unfolding search_queues range
search_queues-WasIn [] query_id queues t h = ground (arith, h)
search_queues-WasIn (k ∷ order) query_id queues t h = elim (Option-cases (lookup k queues)) [
  | inl n ↦ search_queues-WasIn order query_id queues t (ground (arith, n, h))
  | inr f ↦ elim (Option-cases (take_out query_id f.0.items)) [
    | inl n ↦ search_queues-WasIn order query_id queues t (ground (arith, n, f.1, h))
    | inr g ↦
        let found : Taken = record { level = k; queue = f.0; query = g.0.0; rest = g.0.1 } in
        let same : found ≡ t = ground (arith, f.1, g.1, h) in
        subst (WasIn query_id queues) same
          (record { stands = f.1; split = take_out-Split query_id f.0.items g.0 g.1 })
  ]
]

-- No query of the list has the identifier.
abbrev pub NotIn : String → List QueryContext → Type 0
NotIn query_id items = (qc : QueryContext) → Memᴰ qc items → (qc.id == query_id) ≡ false

pub take_out-NotIn :
    (query_id : String) (items : List QueryContext)
    → take_out query_id items ≡ none
    → NotIn query_id items
unfolding take_out
take_out-NotIn query_id [] h qc i = elim i [ ]
take_out-NotIn query_id (x ∷ items) h qc (Memᴰ.head p) = elim (Bool-cases (x.id == query_id)) [
  | inl e ↦ absurd (ground (arith, e, h))
  | inr e ↦ ap (λ (q : QueryContext). q.id == query_id) p ∙ e
]
take_out-NotIn query_id (x ∷ items) h qc (Memᴰ.tail i) =
    take_out-NotIn query_id items
      (elim (Bool-cases (x.id == query_id)) [
        | inl e ↦ absurd (ground (arith, e, h))
        | inr e ↦ elim (Option-cases (take_out query_id items)) [
          | inl n ↦ n
          | inr f ↦ absurd (ground (arith, e, f.1, h))
        ]
      ])
      qc i

pub search_queues-none :
    (j : ℤ) (order : List ℤ) (query_id : String) (queues : GoMap ℤ PriorityQueue)
    → search_queues query_id (range (j ∷ order) queues) ≡ none
    → (take_out query_id (items_in j queues) ≡ none)
      × (search_queues query_id (range order queues) ≡ none)
unfolding search_queues range take_out
search_queues-none j order query_id queues h = elim (Option-cases (lookup j queues)) [
  | inl n ↦ (rw n refl, ground (arith, n, h))
  | inr f ↦ elim (Option-cases (take_out query_id f.0.items)) [
    | inl t ↦ (rw f.1 t, ground (arith, f.1, t, h))
    | inr g ↦ absurd (ground (arith, f.1, g.1, h))
  ]
]

-- The search meets every queue of the order, so that what it does not find is in none of them.
pub search_queues-NotIn :
    (order : List ℤ) (query_id : String) (queues : GoMap ℤ PriorityQueue)
    → search_queues query_id (range order queues) ≡ none
    → (k : ℤ) → mem k order ≡ true
    → NotIn query_id (items_in k queues)
search_queues-NotIn [] query_id queues h k i = absurd (ground (arith, i))
search_queues-NotIn (j ∷ order) query_id queues h k i =
    let r = search_queues-none j order query_id queues h in
    elim (Bool-cases (j == k)) [
      | inl same ↦
          subst (λ l. NotIn query_id (items_in l queues)) ((eq_ℤ_iff j k).0 same)
            (take_out-NotIn query_id (items_in j queues) r.0)
      | inr other ↦ search_queues-NotIn order query_id queues r.1 k (rw (other, if◌then◌else◌) at i)
    ]
