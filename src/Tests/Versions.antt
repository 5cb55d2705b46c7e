-- ===== src/Tests/Versions.antt =====
-- The query versioning engine at concrete inputs.
use universal_database_proxy.Prelude.{
  ℕ, true, some, [], ◌∷◌, ◌≡◌, ◌↔◌, ◌≤◌, refl, arith, if◌then◌else◌, ◌==◌,
}
use universal_database_proxy.Prelude.Int.{ℤ, pos, int_eq, ◌+ℤ◌, wrap64}
use universal_database_proxy.Prelude.Result.{done}
use universal_database_proxy.Bytes.{utf8}
use universal_database_proxy.Types.{QueryContext, int64_value}
use universal_database_proxy.QueryVersioning.{
  PrintLib, VersioningConfig, QueryVersioningEngine, default_config, new, hash_query, process,
}
use universal_database_proxy.QueryHistory.{hash_from}
use universal_database_proxy.QueryVersioning.Numbers.{AreNumbered, new-AreNumbered}
use universal_database_proxy.QueryVersioning.Calls.{told}
use universal_database_proxy.QueryVersioning.Again.{run, run-AreNumbered, versions_agree_iff}
use universal_database_proxy.Tests.Samples.{query_of}

-- 2112 is the hash of "Aa" and of "BB".
abbrev few_digits : PrintLib
few_digits = record {
  hex = λ n. if n == pos 2112 then "840" else if n == pos 65 then "41" else "0";
  describe = λ v w m n. "two versions";
}

abbrev tracking : VersioningConfig
tracking = record default_config { enabled = true }

-- Two texts with one hash
same_hash : hash_query few_digits "Aa" ≡ hash_query few_digits "BB"
unfolding hash_query hash_from ◌+ℤ◌ wrap64
same_hash = refl

-- The bytes of a text, which need not be ASCII
three_bytes : utf8 "pก" ≡ 112 ∷ 224 ∷ 184 ∷ 129 ∷ []
three_bytes = refl

run-AreNumbered_example :
    (e : QueryVersioningEngine) × (n : ℕ) × (run few_digits
        ((pos 1, query_of "Aa") ∷ (pos 2, query_of "A") ∷ [])
        (new (some tracking))
      ≡ done e)
    × (n ≤ 2)
    × AreNumbered few_digits n e
run-AreNumbered_example =
    run-AreNumbered few_digits tracking ((pos 1, query_of "Aa") ∷ (pos 2, query_of "A") ∷ []) refl
      (omega arith)

versions_agree_iff_example :
    (e1 e2 e3 : QueryVersioningEngine) × (qc1' qc2' : QueryContext) × (v1 v2 : ℤ) × (process
        few_digits
        (pos 1)
        (query_of "Aa")
        (new (some tracking))
      ≡ done (e1, qc1'))
    × (run few_digits [] e1 ≡ done e2)
    × (process few_digits (pos 2) (query_of "BB") e2 ≡ done (e3, qc2'))
    × (told qc1' ≡ some (int64_value v1))
    × (told qc2' ≡ some (int64_value v2))
    × ((v1 ≡ v2) ↔ (hash_query few_digits "Aa" ≡ hash_query few_digits "BB"))
unfolding new
versions_agree_iff_example =
    versions_agree_iff few_digits 0 (pos 1) (pos 2) (query_of "Aa") (query_of "BB") []
      (new (some tracking)) (omega arith) refl refl refl
      (new-AreNumbered few_digits (some tracking))
