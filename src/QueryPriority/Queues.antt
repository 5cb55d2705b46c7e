-- ===== src/QueryPriority/Queues.antt =====
-- The queues as one sequence: what `Dequeue` and `Enqueue` do to it.
use universal_database_proxy.Prelude.{
  ◌≤◌, false, Option, none, some, List, [], ◌∷◌, ◌++◌, ◌≡◌, refl, ap, sym, ◌∙◌, arith,
  if◌then◌else◌, ◌==◌, length, mem, Option-cases, inl, inr, ◌⊎◌,
}
use universal_database_proxy.Prelude.Int.{ℤ, pos, int_eq, eq_ℤ_iff}
use universal_database_proxy.GoMap.{GoMap, lookup, insert}
use universal_database_proxy.GoMap.Laws.{lookup-insert}
use universal_database_proxy.Types.{QueryContext}
use universal_database_proxy.QueryPriority.{
  PriorityQueue, QueryPriorityEngine, with_items, items_of, dequeue_from,
}

-- The items of the queue of a level.
abbrev pub items_in : ℤ → GoMap ℤ PriorityQueue → List QueryContext
items_in level queues = items_of (lookup level queues)

-- The items of several levels, one level after the other.
abbrev pub waiting_in : List ℤ → GoMap ℤ PriorityQueue → List QueryContext
waiting_in [] queues = []
waiting_in (level ∷ more) queues = items_in level queues ++ waiting_in more queues

-- All queries that wait: those of the critical level, then of the high, the normal and the low one.
abbrev pub waiting : QueryPriorityEngine → List QueryContext
waiting e =
    items_in (pos 3) e.queues
    ++ (items_in (pos 2) e.queues
        ++ (items_in (pos 1) e.queues ++ (items_in (pos 0) e.queues ++ [])))

abbrev pub first_of : List QueryContext → Option QueryContext
first_of [] = none
first_of (qc ∷ rest) = some qc

abbrev pub rest_of : List QueryContext → List QueryContext
rest_of [] = []
rest_of (qc ∷ rest) = rest

pub items_in-insert :
    (k j : ℤ) (queue : PriorityQueue) (queues : GoMap ℤ PriorityQueue)
    → items_in j (insert k queue queues) ≡ (if k == j then queue.items else items_in j queues)
items_in-insert k j queue queues = ground (arith, lookup-insert k j queue queues)

pub waiting_in-insert :
    (ls : List ℤ) (k : ℤ) (queue : PriorityQueue) (queues : GoMap ℤ PriorityQueue)
    → mem k ls ≡ false
    → waiting_in ls (insert k queue queues) ≡ waiting_in ls queues
waiting_in-insert [] k queue queues h = refl
waiting_in-insert (l ∷ ls) k queue queues h = ground (
  arith,
  items_in-insert k l queue queues,
  waiting_in-insert ls k queue queues,
  eq_ℤ_iff k l,
  eq_ℤ_iff l k,
)

abbrev pub List-cases {ℓ} :
    {A : Type ℓ} (xs : List A) → (xs ≡ []) ⊎ ((x : A) × (rest : List A) × (xs ≡ x ∷ rest))
List-cases [] = inl refl
List-cases (x ∷ xs) = inr (x, xs, refl)

-- A level with no items is passed over.
dequeue_from-empty :
    (l : ℤ) (ls : List ℤ) (queues : GoMap ℤ PriorityQueue)
    → items_in l queues ≡ []
    → dequeue_from (l ∷ ls) queues ≡ dequeue_from ls queues
unfolding dequeue_from
dequeue_from-empty l ls queues h = elim (Option-cases (lookup l queues)) [
  | inl e ↦ rw e refl
  | inr f ↦ let g : f.0.items ≡ [] = sym (ap items_of f.1) ∙ h in rw (f.1, g) refl
]

-- The queues after an item left the queue of a level.
record TookFirst (l : ℤ) (queues after : GoMap ℤ PriorityQueue) (items : List QueryContext)
    : Type 0 where
  queue : PriorityQueue
  stored : after ≡ insert l (with_items queue items) queues

dequeue_from-item :
    (l : ℤ) (ls : List ℤ) (queues : GoMap ℤ PriorityQueue) (qc : QueryContext)
    (items : List QueryContext)
    → items_in l queues ≡ qc ∷ items
    → TookFirst l queues (dequeue_from (l ∷ ls) queues).0 items
      × ((dequeue_from (l ∷ ls) queues).1 ≡ some qc)
unfolding dequeue_from
dequeue_from-item l ls queues qc items h = elim (Option-cases (lookup l queues)) [
  | inl e ↦ absurd (ground (arith, e, h))
  | inr f ↦
      let g : f.0.items ≡ qc ∷ items = sym (ap items_of f.1) ∙ h in
      (record { queue = f.0; stored = rw (f.1, g) refl }, rw (f.1, g) refl)
]

-- A level that is not among those tried keeps its items.
dequeue_from-items :
    (ls : List ℤ) (k : ℤ) (queues : GoMap ℤ PriorityQueue)
    → mem k ls ≡ false
    → items_in k (dequeue_from ls queues).0 ≡ items_in k queues
dequeue_from-items [] k queues h = unfold dequeue_from in refl
dequeue_from-items (l ∷ ls) k queues h = elim (List-cases (items_in l queues)) [
  | inl e ↦
      rw (dequeue_from-empty l ls queues e) (dequeue_from-items ls k queues (ground (arith, h)))
  | inr f ↦
      let t = (dequeue_from-item l ls queues f.0 f.1 f.2).0 in
      rw t.stored (
        ground
          (arith, items_in-insert l k (with_items t.queue f.1) queues, eq_ℤ_iff k l, eq_ℤ_iff l k))
]

pub dequeue_from-length :
    (ls : List ℤ) (k : ℤ) (queues : GoMap ℤ PriorityQueue)
    → length (items_in k (dequeue_from ls queues).0) ≤ length (items_in k queues)
dequeue_from-length [] k queues = unfold dequeue_from in omega arith
dequeue_from-length (l ∷ ls) k queues = elim (List-cases (items_in l queues)) [
  | inl e ↦ rw (dequeue_from-empty l ls queues e) (dequeue_from-length ls k queues)
  | inr f ↦
      let t = (dequeue_from-item l ls queues f.0 f.1 f.2).0 in
      rw t.stored
        (ground (arith, f.2, items_in-insert l k (with_items t.queue f.1) queues, eq_ℤ_iff l k))
]

-- The first item of the levels goes, and the others stay in their order.
pub record Popped (ls : List ℤ) (queues : GoMap ℤ PriorityQueue) : Type 0 where
  pub item : (dequeue_from ls queues).1 ≡ first_of (waiting_in ls queues)
  pub left : waiting_in ls (dequeue_from ls queues).0 ≡ rest_of (waiting_in ls queues)

-- No level stands twice in the list.
abbrev pub DistinctLevels : List ℤ → Type 0
DistinctLevels [] = Unit
DistinctLevels (l ∷ ls) = (mem l ls ≡ false) × DistinctLevels ls

pub dequeue_from-Popped :
    (ls : List ℤ) (queues : GoMap ℤ PriorityQueue) → DistinctLevels ls → Popped ls queues
dequeue_from-Popped [] queues d = record {
  item = unfold dequeue_from in refl;
  left = unfold dequeue_from in refl;
}
dequeue_from-Popped (l ∷ ls) queues d = elim (List-cases (items_in l queues)) [
  | inl e ↦
      let p = dequeue_from-Popped ls queues d.1 in
      let same = dequeue_from-empty l ls queues e in
      record {
        item = rw (same, e) p.item;
        left = rw (same, dequeue_from-items ls l queues d.0, e) p.left;
      }
  | inr f ↦
      let t = dequeue_from-item l ls queues f.0 f.1 f.2 in
      record {
        item = rw (t.1, f.2) refl;
        left =
            rw
              (
                t.0.stored,
                waiting_in-insert ls l (with_items t.0.queue f.1) queues d.0,
                items_in-insert l l (with_items t.0.queue f.1) queues,
                f.2,
                (eq_ℤ_iff l l).1 refl,
              )
              refl;
      }
]
