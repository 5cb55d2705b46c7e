-- ===== src/QueryHistory/MostFrequent.antt =====
-- What `GetTopQueries` returns.
use mathlib.Core.List.{Memᴰ}
use mathlib.Core.List.Permᴰ
use universal_database_proxy.Prelude.{
  ℕ, zero, suc, ◌≤◌, ◌<◌, String, some, List, [], ◌∷◌, ◌≡◌, ◌⊎◌, refl, sym, ap, ◌∙◌, arith,
  string_eq, nat_eq, inl, inr, length, take, length-take,
}
use universal_database_proxy.Prelude.Int.{ℤ, pos}
use universal_database_proxy.Prelude.Result.{done}
use universal_database_proxy.GoMap.{GoMap, lookup, range, Covers}
use universal_database_proxy.GoMap.Range.{mem-range, range-mem}
use universal_database_proxy.QueryHistory.{QueryRecord, QueryHistoryEngine}
use universal_database_proxy.QueryHistory.Top.{
  QueryFrequency, count_queries, frequencies, sort_places, get_top_queries,
}
use universal_database_proxy.QueryHistory.Sorting.{
  IsSorted, sorted_nil, sorted_cons, Permᴰ-Memᴰ, sort_places-Permᴰ, sort_places-IsSorted, take_top,
}
use universal_database_proxy.QueryHistory.Counting.{
  count_in, entry_of, count_queries-entry, frequencies-Memᴰ, Memᴰ-frequencies,
}

-- The most frequent queries, at most `limit`: the highest counts first, each the number of times
-- that its query stands in the history, and a query of the history that is left out stands there
-- no more often than any of `limit` that are returned.
pub record AreTop (history : List QueryRecord) (limit : ℕ) (results : List QueryFrequency)
    : Type 0 where
  pub at_most : length results ≤ limit
  pub sorted : IsSorted results
  pub counted : (f : QueryFrequency) → Memᴰ f results → f.count ≡ pos (count_in f.query history)
  pub complete :
      (query : String)
      → 0 < count_in query history
      → Memᴰ (record { query = query; count = pos (count_in query history) }) results
        ⊎ ((length results ≡ limit)
            × ((f : QueryFrequency)
                → Memᴰ f results
                → count_in query history ≤ count_in f.query history))

abbrev pub counts : QueryHistoryEngine → GoMap String ℤ
counts e = count_queries e.history []

counts-entry :
    (e : QueryHistoryEngine) (q : String)
    → length e.history < 9223372036854775808
    → lookup q (counts e) ≡ entry_of (count_in q e.history)
unfolding lookup
counts-entry e q small =
    count_queries-entry e.history q (λ k. 0) [] (λ k. omega (arith, small)) (λ k. refl)
    ∙ ap entry_of (omega arith)

entry_of-some : (n : ℕ) (c : ℤ) → entry_of n ≡ some c → c ≡ pos n
entry_of-some zero c h = absurd (ground (arith, h))
entry_of-some (suc n) c h = ground (arith, h)

entry_of-positive : (n : ℕ) → 0 < n → entry_of n ≡ some (pos n)
entry_of-positive zero h = absurd (omega (arith, h))
entry_of-positive (suc n) h = refl

found-counted :
    (e : QueryHistoryEngine) (order : List String) (f : QueryFrequency)
    → length e.history < 9223372036854775808
    → Memᴰ f (frequencies (range order (counts e)))
    → f.count ≡ pos (count_in f.query e.history)
found-counted e order f small i = entry_of-some (count_in f.query e.history) f.count (
    sym (counts-entry e f.query small)
    ∙ mem-range order (counts e) f.query f.count (frequencies-Memᴰ (range order (counts e)) f i))

counted-found :
    (e : QueryHistoryEngine) (order : List String) (query : String)
    → length e.history < 9223372036854775808
    → Covers order (counts e)
    → 0 < count_in query e.history
    → Memᴰ
        (record { query = query; count = pos (count_in query e.history) })
        (frequencies (range order (counts e)))
counted-found e order query small covers there =
    let count = count_in query e.history in
    let found : lookup query (counts e) ≡ some (pos count) =
      counts-entry e query small ∙ entry_of-positive count there in
    Memᴰ-frequencies (range order (counts e)) query (pos count)
      (range-mem order (counts e) query (pos count) found (covers query (pos count) found))

take-Memᴰ : (n : ℕ) (l : List QueryFrequency) (g : QueryFrequency) → Memᴰ g (take n l) → Memᴰ g l
take-Memᴰ zero l g i = elim i [ ]
take-Memᴰ (suc n) [] g i = elim i [ ]
take-Memᴰ (suc n) (f ∷ l) g (Memᴰ.head p) = Memᴰ.head p
take-Memᴰ (suc n) (f ∷ l) g (Memᴰ.tail i) = Memᴰ.tail (take-Memᴰ n l g i)

take-IsSorted : (n : ℕ) (l : List QueryFrequency) → IsSorted l → IsSorted (take n l)
take-IsSorted zero l s = sorted_nil
take-IsSorted (suc n) [] s = sorted_nil
take-IsSorted (suc n) (f ∷ l) (sorted_cons below s) =
    sorted_cons (λ g i. below g (take-Memᴰ n l g i)) (take-IsSorted n l s)

-- A history of fewer than 2^63 records and a limit that is not negative: GetTopQueries returns the
-- most frequent queries, in whatever order the frequencies are visited.
pub get_top_queries-AreTop :
    (limit : ℕ) (order : List String) (e : QueryHistoryEngine)
    → length e.history < 9223372036854775808
    → Covers order (counts e)
    → (results : List QueryFrequency) × (get_top_queries (pos limit) order e ≡ done results)
      × AreTop e.history limit results
unfolding get_top_queries
get_top_queries-AreTop limit order e small covers =
    let found = frequencies (range order (counts e)) in
    let all = sort_places (length found) found in
    let perm = sort_places-Permᴰ (length found) found in
    let sorted = sort_places-IsSorted (length found) found (omega arith) in
    let exact : (f : QueryFrequency)
        → Memᴰ f (take limit all)
        → f.count ≡ pos (count_in f.query e.history) =
      λ f i.
        found-counted e order f small (Permᴰ-Memᴰ f (Permᴰ.symm perm) (take-Memᴰ limit all f i)) in
    (
      take limit all,
      refl,
      record {
        at_most = omega (arith, length-take limit all);
        sorted = take-IsSorted limit all sorted;
        counted = exact;
        complete = λ query there.
            let f : QueryFrequency = record {
              query = query;
              count = pos (count_in query e.history);
            } in
            elim (take_top limit all f sorted
              (Permᴰ-Memᴰ f perm (counted-found e order query small covers there))) [
                | inl among ↦ inl among
                | inr (full, least) ↦ inr (full, λ g i. ground (arith, least g i, exact g i))
              ];
      },
    )
