-- ===== src/QueryVersioning/Calls.antt =====
-- Which version a query is told.
use universal_database_proxy.Prelude.{
  ℕ, suc, ◌≤◌, ◌<◌, true, false, not, ◌||◌, String, Option, none, some, ◌≡◌, refl, ◌∙◌, arith, ◌==◌,
  string_eq, eq_iff, beq_refl,
}
use universal_database_proxy.Prelude.Int.{ℤ}
use universal_database_proxy.Prelude.Result.{done}
use universal_database_proxy.GoMap.{lookup, insert}
use universal_database_proxy.GoMap.Laws.{lookup-insert}
use universal_database_proxy.Types.{
  Value, int64_value, bool_value, QueryContext, lookup_meta, make_meta,
}
use universal_database_proxy.QueryVersioning.{
  PrintLib, QueryVersion, QueryVersioningEngine, hash_query, with_version, count_duplicate,
  version_of, stored_as, by_version, process,
}
use universal_database_proxy.QueryVersioning.Numbers.{AreNumbered, average-done, stored-AreNumbered}

abbrev pub told : QueryContext → Option Value
told qc = lookup_meta "query_version" qc.metadata

-- Every version that was there is there.
abbrev pub Keeps : QueryVersioningEngine → QueryVersioningEngine → Type 0
Keeps e e' =
    (h : String) (v : QueryVersion) → lookup h e.versions ≡ some v → lookup h e'.versions ≡ some v

-- The state and the query after a call, with `n` versions before it
pub record Versioned (lib : PrintLib) (n : ℕ) (qc : QueryContext) (e e' : QueryVersioningEngine)
    (qc' : QueryContext) : Type 0 where
  pub count : ℕ
  pub at_most : count ≤ suc n
  pub same_config : e'.config ≡ e.config
  pub are_numbered : AreNumbered lib count e'
  pub keeps : Keeps e e'
  pub version : QueryVersion
  pub there : lookup (hash_query lib qc.raw_query) e'.versions ≡ some version
  pub tells : told qc' ≡ some (int64_value version.version)

tells_version :
    (version : ℤ) (qc : QueryContext) (key : String)
    → (key == "query_version") ≡ false
    → told (with_version version key qc) ≡ some (int64_value version)
tells_version version qc key other =
    let name : String = "query_version" in
    let inner = insert name (int64_value version) (make_meta qc.metadata) in
    ground (
      arith,
      lookup-insert key name (bool_value true) inner,
      other,
      lookup-insert name name (int64_value version) (make_meta qc.metadata),
      beq_refl name,
    )

insert-Keeps :
    (hash : String) (added : QueryVersion) (e e' : QueryVersioningEngine)
    → lookup hash e.versions ≡ none
    → e'.versions ≡ insert hash added e.versions
    → Keeps e e'
insert-Keeps hash added e e' fresh same h v found =
    ground (arith, same, lookup-insert hash h added e.versions, found, fresh, eq_iff hash h)

by_version-Versioned :
    (lib : PrintLib) (n : ℕ) (now : ℤ) (qc : QueryContext) (e : QueryVersioningEngine)
    (o : Option QueryVersion)
    → n < 9223372036854775806
    → AreNumbered lib n e
    → lookup (hash_query lib qc.raw_query) e.versions ≡ o
    → (e' : QueryVersioningEngine) × (qc' : QueryContext) × (by_version now
          (hash_query lib qc.raw_query)
          qc
          e
          o
        ≡ done (e', qc'))
      × Versioned lib n qc e e' qc'
by_version-Versioned lib n now qc e (some v) small s found = (
  count_duplicate e,
  with_version v.version "query_exists" qc,
  refl,
  record {
    count = n;
    at_most = omega arith;
    same_config = refl;
    are_numbered = record {
      next = s.next;
      stored = s.stored;
      all = s.all;
      numbered = s.numbered;
      distinct = s.distinct;
      hashed = s.hashed;
    };
    keeps = λ h w there. there;
    version = v;
    there = found;
    tells = tells_version v.version qc "query_exists" refl;
  },
)
by_version-Versioned lib n now qc e none small s fresh =
    let hash = hash_query lib qc.raw_query in
    let (avg, averaged) = average-done lib n qc.raw_query e (omega (arith, small)) s in
    let added = version_of now hash qc e.current_ver in
    (
      stored_as now hash qc e avg,
      with_version e.current_ver "query_new" qc,
      rw averaged,
      record {
        count = suc n;
        at_most = omega arith;
        same_config = refl;
        are_numbered = stored-AreNumbered lib n now qc e avg small fresh s;
        keeps = insert-Keeps hash added e (stored_as now hash qc e avg) fresh refl;
        version = added;
        there = ground (arith, lookup-insert hash hash added e.versions, beq_refl hash);
        tells = tells_version e.current_ver qc "query_new" refl;
      },
    )

process-by_version :
    (lib : PrintLib) (now : ℤ) (qc : QueryContext) (e : QueryVersioningEngine)
    → e.config.enabled ≡ true
    → (qc.raw_query == "") ≡ false
    → process lib now qc e
      ≡ by_version now
          (hash_query lib qc.raw_query)
          qc
          e
          (lookup (hash_query lib qc.raw_query) e.versions)
unfolding process
process-by_version lib now qc e on text =
    let test : not e.config.enabled || qc.raw_query == "" ≡ false = ground (arith, on, text) in
    rw test

pub process-Versioned :
    (lib : PrintLib) (n : ℕ) (now : ℤ) (qc : QueryContext) (e : QueryVersioningEngine)
    → n < 9223372036854775806
    → e.config.enabled ≡ true
    → (qc.raw_query == "") ≡ false
    → AreNumbered lib n e
    → (e' : QueryVersioningEngine) × (qc' : QueryContext) × (process lib now qc e ≡ done (e', qc'))
      × Versioned lib n qc e e' qc'
process-Versioned lib n now qc e small on text s =
    let (e', qc', result, versioned) =
      by_version-Versioned lib n now qc e (lookup (hash_query lib qc.raw_query) e.versions) small s
        refl in
    (e', qc', process-by_version lib now qc e on text ∙ result, versioned)
