-- ===== src/QueryVersioning/Numbers.antt =====
-- The numbers that queries get.
use universal_database_proxy.Prelude.{
  ℕ, suc, ◌<◌, String, Option, none, some, ◌≡◌, ◌≢◌, refl, sym, ap, ◌∙◌, arith, ◌==◌, string_eq,
  eq_iff, Bool-cases, inl, inr, length, ◌⊎◌,
}
use universal_database_proxy.Prelude.Int.{ℤ, pos, incr, incr-pos}
use universal_database_proxy.Prelude.Result.{done}
use universal_database_proxy.Prelude.Division.{quotient-done}
use universal_database_proxy.GoMap.{GoMap, lookup, insert}
use universal_database_proxy.GoMap.Laws.{lookup-insert, length-insert}
use universal_database_proxy.Types.{QueryContext}
use universal_database_proxy.QueryVersioning.{
  PrintLib, VersioningConfig, QueryVersion, QueryVersioningEngine, new, hash_query, version_of,
  average, stored_as,
}

-- The versions are numbered from 1, in `n` numbers of which none is given twice; each stands under
-- the hash of its query.
pub record AreNumbered (lib : PrintLib) (n : ℕ) (e : QueryVersioningEngine) : Type 0 where
  pub next : e.current_ver ≡ pos (suc n)
  pub stored : e.stats.versions_stored ≡ pos n
  pub all : length e.versions ≡ n
  pub numbered :
      (h : String) (v : QueryVersion)
      → lookup h e.versions ≡ some v
      → (k : ℕ) × (k < n) × (v.version ≡ pos (suc k))
  pub distinct :
      (h1 h2 : String) (v1 v2 : QueryVersion)
      → lookup h1 e.versions ≡ some v1
      → lookup h2 e.versions ≡ some v2
      → v1.version ≡ v2.version
      → h1 ≡ h2
  pub hashed :
      (h : String) (v : QueryVersion) → lookup h e.versions ≡ some v → hash_query lib v.query ≡ h

pub new-AreNumbered :
    (lib : PrintLib) (config : Option VersioningConfig) → AreNumbered lib 0 (new config)
unfolding new lookup
new-AreNumbered lib config = record {
  next = refl;
  stored = refl;
  all = refl;
  numbered = λ h v found. absurd (ground (arith, found));
  distinct = λ h1 h2 v1 v2 found1. absurd (ground (arith, found1));
  hashed = λ h v found. absurd (ground (arith, found));
}

pub average-done :
    (lib : PrintLib) (n : ℕ) (query : String) (e : QueryVersioningEngine)
    → n < 9223372036854775807
    → AreNumbered lib n e
    → (avg : ℤ) × (average e.stats query ≡ done avg)
average-done lib n query e small s =
    let count : incr e.stats.versions_stored ≡ pos (suc n) = rw s.stored (incr-pos n small) in
    quotient-done _ (incr e.stats.versions_stored) (λ z. ground (arith, count, z))

-- What is found after a version was added: that one, or what was there.
found_after :
    (hash h : String) (added v : QueryVersion) (m : GoMap String QueryVersion)
    → lookup h (insert hash added m) ≡ some v
    → ((hash ≡ h) × (added ≡ v)) ⊎ (lookup h m ≡ some v)
found_after hash h added v m found = elim (Bool-cases (hash == h)) [
  | inl same ↦
      inl ((eq_iff hash h).0 same, ground (arith, lookup-insert hash h added m, same, found))
  | inr other ↦ inr (ground (arith, lookup-insert hash h added m, other, found))
]

-- No version has the number that comes next.
next_is_new :
    (lib : PrintLib) (n : ℕ) (e : QueryVersioningEngine) (h : String) (v : QueryVersion)
    → AreNumbered lib n e
    → lookup h e.versions ≡ some v
    → v.version ≢ e.current_ver
next_is_new lib n e h v s found same =
    let (k, below, number) = s.numbered h v found in ground (arith, below, number, s.next, same)

pub stored-AreNumbered :
    (lib : PrintLib) (n : ℕ) (now : ℤ) (qc : QueryContext) (e : QueryVersioningEngine) (avg : ℤ)
    → n < 9223372036854775806
    → lookup (hash_query lib qc.raw_query) e.versions ≡ none
    → AreNumbered lib n e
    → AreNumbered lib (suc n) (stored_as now (hash_query lib qc.raw_query) qc e avg)
stored-AreNumbered lib n now qc e avg small fresh s =
    let hash = hash_query lib qc.raw_query in
    let added = version_of now hash qc e.current_ver in
    let after = λ (h : String) (v : QueryVersion). found_after hash h added v e.versions in
    record {
      next = rw s.next (incr-pos (suc n) (omega (arith, small)));
      stored = rw s.stored (incr-pos n (omega (arith, small)));
      all = ground (arith, length-insert hash added e.versions, fresh, s.all);
      numbered = λ h v found. elim (after h v found) [
        | inl (same, this) ↦
            (n, omega arith, ap (λ (w : QueryVersion). w.version) (sym this) ∙ s.next)
        | inr old ↦ let (k, below, number) = s.numbered h v old in (k, omega (arith, below), number)
      ];
      distinct = λ h1 h2 v1 v2 found1 found2 equal. elim (after h1 v1 found1) [
        | inl (same1, this1) ↦ elim (after h2 v2 found2) [
          | inl (same2, this2) ↦ sym same1 ∙ same2
          | inr old2 ↦ absurd (
              next_is_new lib n e h2 v2 s old2
                (sym equal ∙ ap (λ (w : QueryVersion). w.version) (sym this1)))
        ]
        | inr old1 ↦ elim (after h2 v2 found2) [
          | inl (same2, this2) ↦ absurd (
              next_is_new lib n e h1 v1 s old1
                (equal ∙ ap (λ (w : QueryVersion). w.version) (sym this2)))
          | inr old2 ↦ s.distinct h1 h2 v1 v2 old1 old2 equal
        ]
      ];
      hashed = λ h v found. elim (after h v found) [
        | inl (same, this) ↦ ap (λ (w : QueryVersion). hash_query lib w.query) (sym this) ∙ same
        | inr old ↦ s.hashed h v old
      ];
    }
