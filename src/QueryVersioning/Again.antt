-- ===== src/QueryVersioning/Again.antt =====
-- The versions that queries are told, whatever stands between them.
use mathlib.Core.Path.{subst}
use universal_database_proxy.Prelude.{
  ℕ, suc, ◌≤◌, ◌<◌, ◌+◌, true, false, some, List, [], ◌∷◌, ◌≡◌, ◌↔◌, refl, ap, ◌∙◌, arith, ◌==◌,
  string_eq, Bool-cases, inl, inr, length,
}
use universal_database_proxy.Prelude.Int.{ℤ}
use universal_database_proxy.Prelude.Result.{Go, done, ◌>>=◌}
use universal_database_proxy.GoMap.{lookup}
use universal_database_proxy.Types.{int64_value, QueryContext}
use universal_database_proxy.QueryVersioning.{
  PrintLib, VersioningConfig, QueryVersion, QueryVersioningEngine, new, hash_query, process,
}
use universal_database_proxy.QueryVersioning.Numbers.{AreNumbered, new-AreNumbered}
use universal_database_proxy.QueryVersioning.Calls.{told, Keeps, process-Versioned}

-- Queries one after another, each with its time
unfoldable pub run :
    PrintLib → List (ℤ × QueryContext) → QueryVersioningEngine → Go QueryVersioningEngine
run lib [] e = done e
run lib ((now, qc) ∷ calls) e = process lib now qc e >>= λ r. run lib calls r.0

record Run (lib : PrintLib) (n : ℕ) (e e' : QueryVersioningEngine) : Type 0 where
  count : ℕ
  at_most : count ≤ n
  same_config : e'.config ≡ e.config
  are_numbered : AreNumbered lib count e'
  keeps : Keeps e e'

process-empty :
    (lib : PrintLib) (now : ℤ) (qc : QueryContext) (e : QueryVersioningEngine)
    → (qc.raw_query == "") ≡ true
    → process lib now qc e ≡ done (e, qc)
unfolding process
process-empty lib now qc e empty = ground (arith, empty)

process-Run :
    (lib : PrintLib) (n : ℕ) (now : ℤ) (qc : QueryContext) (e : QueryVersioningEngine)
    → n < 9223372036854775806
    → e.config.enabled ≡ true
    → AreNumbered lib n e
    → (e' : QueryVersioningEngine) × (qc' : QueryContext) × (process lib now qc e ≡ done (e', qc'))
      × Run lib (suc n) e e'
process-Run lib n now qc e small on s = elim (Bool-cases (qc.raw_query == "")) [
  | inl empty ↦ (
    e,
    qc,
    process-empty lib now qc e empty,
    record {
      count = n;
      at_most = omega arith;
      same_config = refl;
      are_numbered = s;
      keeps = λ h v there. there;
    },
  )
  | inr text ↦
      let (e', qc', result, v) = process-Versioned lib n now qc e small on text s in
      (
        e',
        qc',
        result,
        record {
          count = v.count;
          at_most = v.at_most;
          same_config = v.same_config;
          are_numbered = v.are_numbered;
          keeps = v.keeps;
        },
      )
]

run-Run :
    (lib : PrintLib) (n : ℕ) (calls : List (ℤ × QueryContext)) (e : QueryVersioningEngine)
    → n + length calls < 9223372036854775807
    → e.config.enabled ≡ true
    → AreNumbered lib n e
    → (e' : QueryVersioningEngine) × (run lib calls e ≡ done e') × Run lib (n + length calls) e e'
unfolding run
run-Run lib n [] e small on s = (
  e,
  refl,
  record {
    count = n;
    at_most = omega arith;
    same_config = refl;
    are_numbered = s;
    keeps = λ h v there. there;
  },
)
run-Run lib n ((now, qc) ∷ calls) e small on s =
    let (e1, qc1, result, first) = process-Run lib n now qc e (omega (arith, small)) on s in
    let (e2, rest, later) =
      run-Run lib first.count calls e1 (omega (arith, small, first.at_most))
        (ap (λ (c : VersioningConfig). c.enabled) first.same_config ∙ on) first.are_numbered in
    (
      e2,
      rw result rest,
      record {
        count = later.count;
        at_most = omega (arith, first.at_most, later.at_most);
        same_config = later.same_config ∙ first.same_config;
        are_numbered = later.are_numbered;
        keeps = λ h v there. later.keeps h v (first.keeps h v there);
      },
    )

-- A new, enabled engine answers every sequence of queries, fewer than 2^63 - 1. The versions that it
-- then holds, at most one for each query, are numbered from 1 without a number given twice, and
-- each stands under the hash of its text.
pub run-AreNumbered :
    (lib : PrintLib) (config : VersioningConfig) (calls : List (ℤ × QueryContext))
    → config.enabled ≡ true
    → length calls < 9223372036854775807
    → (e : QueryVersioningEngine) × (n : ℕ) × (run lib calls (new (some config)) ≡ done e)
      × (n ≤ length calls)
      × AreNumbered lib n e
unfolding new
run-AreNumbered lib config calls on small =
    let (e, result, r) =
      run-Run lib 0 calls (new (some config)) (omega (arith, small)) on
        (new-AreNumbered lib (some config)) in
    (e, r.count, result, omega (arith, r.at_most), r.are_numbered)

-- Two queries with a text, the second after any others, in an engine whose versions are numbered and
-- fewer than 2^63 - 4 with all calls: both are told a version, and it is the same version exactly
-- if the hashes of the texts are equal.
pub versions_agree_iff :
    (lib : PrintLib) (n : ℕ) (now later : ℤ) (qc1 qc2 : QueryContext)
    (calls : List (ℤ × QueryContext)) (e : QueryVersioningEngine)
    → n + length calls < 9223372036854775804
    → e.config.enabled ≡ true
    → (qc1.raw_query == "") ≡ false
    → (qc2.raw_query == "") ≡ false
    → AreNumbered lib n e
    → (e1 e2 e3 : QueryVersioningEngine) × (qc1' qc2' : QueryContext) × (v1 v2 : ℤ) × (process lib
          now qc1 e
        ≡ done (e1, qc1'))
      × (run lib calls e1 ≡ done e2)
      × (process lib later qc2 e2 ≡ done (e3, qc2'))
      × (told qc1' ≡ some (int64_value v1))
      × (told qc2' ≡ some (int64_value v2))
      × ((v1 ≡ v2) ↔ (hash_query lib qc1.raw_query ≡ hash_query lib qc2.raw_query))
versions_agree_iff lib n now later qc1 qc2 calls e small on text1 text2 s =
    let (e1, qc1', result1, one) =
      process-Versioned lib n now qc1 e (omega (arith, small)) on text1 s in
    let on1 = ap (λ (c : VersioningConfig). c.enabled) one.same_config ∙ on in
    let (e2, result2, r) =
      run-Run lib one.count calls e1 (omega (arith, small, one.at_most)) on1 one.are_numbered in
    let on2 = ap (λ (c : VersioningConfig). c.enabled) r.same_config ∙ on1 in
    let (e3, qc2', result3, two) =
      process-Versioned lib r.count later qc2 e2 (omega (arith, small, one.at_most, r.at_most)) on2
        text2 r.are_numbered in
    let kept : lookup (hash_query lib qc1.raw_query) e3.versions ≡ some one.version =
      two.keeps (hash_query lib qc1.raw_query) one.version
        (r.keeps (hash_query lib qc1.raw_query) one.version one.there) in
    (
      e1,
      e2,
      e3,
      qc1',
      qc2',
      one.version.version,
      two.version.version,
      result1,
      result2,
      result3,
      one.tells,
      two.tells,
      (
        λ same.
            two.are_numbered.distinct (hash_query lib qc1.raw_query) (hash_query lib qc2.raw_query)
              one.version two.version kept two.there same,
        λ same.
            let again : lookup (hash_query lib qc2.raw_query) e3.versions ≡ some one.version =
              subst (λ h. lookup h e3.versions ≡ some one.version) same kept in
            let one_version : one.version ≡ two.version = ground (arith, again, two.there) in
            ap (λ (v : QueryVersion). v.version) one_version,
      ),
    )
