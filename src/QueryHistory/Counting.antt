-- ===== src/QueryHistory/Counting.antt =====
-- Which queries `GetTopQueries` returns.
use mathlib.Core.List.{Memᴰ}
use universal_database_proxy.Prelude.{
  ℕ, zero, suc, ◌<◌, ◌+◌, String, Option, none, some, List, [], ◌∷◌, ◌≡◌, ap, ◌∙◌, arith,
  if◌then◌else◌, ◌==◌, string_eq, nat_eq, eq_iff, Bool-cases, inl, inr, length,
}
use universal_database_proxy.Prelude.Int.{ℤ, pos, incr, incr-pos}
use universal_database_proxy.GoMap.{GoMap, lookup, insert}
use universal_database_proxy.GoMap.Laws.{lookup-insert}
use universal_database_proxy.QueryHistory.{QueryRecord}
use universal_database_proxy.QueryHistory.Top.{
  QueryFrequency, count_or_zero, count_queries, frequencies,
}

-- How often a query stands in the history.
abbrev pub count_in : String → List QueryRecord → ℕ
count_in query [] = 0
count_in query (r ∷ history) =
    let rest = count_in query history in if r.query == query then suc rest else rest

abbrev pub entry_of : ℕ → Option ℤ
entry_of zero = none
entry_of (suc n) = some (pos (suc n))

abbrev bump : String → (String → ℕ) → String → ℕ
bump query base q = if query == q then suc (base q) else base q

incr_entry : (n : ℕ) → n < 9223372036854775807 → incr (count_or_zero (entry_of n)) ≡ pos (suc n)
incr_entry zero h = incr-pos 0 h
incr_entry (suc n) h = incr-pos (suc n) h

insert-entry :
    (query q : String) (base : String → ℕ) (m : GoMap String ℤ)
    → base query < 9223372036854775807
    → ((k : String) → lookup k m ≡ entry_of (base k))
    → lookup q (insert query (incr (count_or_zero (lookup query m))) m)
      ≡ entry_of (bump query base q)
insert-entry query q base m small h =
    let value : incr (count_or_zero (lookup query m)) ≡ pos (suc (base query)) =
      rw (h query) (incr_entry (base query) small) in
    rw value (elim (Bool-cases (query == q)) [
      | inl same ↦
          rw (lookup-insert query q (pos (suc (base query))) m, same)
            (ap (λ s. some (pos (suc (base s)))) ((eq_iff query q).0 same))
      | inr other ↦ rw (lookup-insert query q (pos (suc (base query))) m, other) (h q)
    ])

pub count_queries-entry :
    (history : List QueryRecord) (q : String) (base : String → ℕ) (m : GoMap String ℤ)
    → ((k : String) → base k + length history < 9223372036854775808)
    → ((k : String) → lookup k m ≡ entry_of (base k))
    → lookup q (count_queries history m) ≡ entry_of (base q + count_in q history)
unfolding count_queries
count_queries-entry [] q base m small h = h q ∙ ap entry_of (omega arith)
count_queries-entry (r ∷ history) q base m small h =
    count_queries-entry history q (bump r.query base)
      (insert r.query (incr (count_or_zero (lookup r.query m))) m) (λ k. ground (arith, small k))
      (λ k. insert-entry r.query k base m (omega (arith, small r.query)) h)
    ∙ ap entry_of (ground arith)

pub frequencies-Memᴰ :
    (pairs : List (String × ℤ)) (f : QueryFrequency)
    → Memᴰ f (frequencies pairs)
    → Memᴰ (f.query, f.count) pairs
frequencies-Memᴰ [] f i = elim i [ ]
frequencies-Memᴰ ((query, count) ∷ pairs) f (Memᴰ.head p) =
    Memᴰ.head (ap {B = String × ℤ} (λ (g : QueryFrequency). (g.query, g.count)) p)
frequencies-Memᴰ ((query, count) ∷ pairs) f (Memᴰ.tail i) = Memᴰ.tail (frequencies-Memᴰ pairs f i)

pub Memᴰ-frequencies :
    (pairs : List (String × ℤ)) (query : String) (count : ℤ)
    → Memᴰ (query, count) pairs
    → Memᴰ (record { query = query; count = count }) (frequencies pairs)
Memᴰ-frequencies [] query count i = elim i [ ]
Memᴰ-frequencies ((q, c) ∷ pairs) query count (Memᴰ.head p) =
    Memᴰ.head (ap {B = QueryFrequency} (λ (x : String × ℤ). record { query = x.0; count = x.1 }) p)
Memᴰ-frequencies ((q, c) ∷ pairs) query count (Memᴰ.tail i) =
    Memᴰ.tail (Memᴰ-frequencies pairs query count i)
