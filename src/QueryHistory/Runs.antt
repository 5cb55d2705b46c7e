-- ===== src/QueryHistory/Runs.antt =====
-- What sequences of calls leave in the query history.
use mathlib.Core.Path.{subst}
use mathlib.Core.List.{append-nil, append_assoc}
use universal_database_proxy.Prelude.{
  ℕ, ◌-◌, true, false, String, Option, none, some, List, [], ◌∷◌, ◌++◌, ◌≡◌, refl, sym, ap, ◌∙◌,
  arith, if◌then◌else◌, string_eq,
}
use universal_database_proxy.Prelude.Int.{ℤ, pos}
use universal_database_proxy.Prelude.Result.{done, ◌>>=◌}
use universal_database_proxy.Types.{QueryContext, QueryResponse}
use universal_database_proxy.QueryHistory.{
  HistoryLib, HistoryConfig, QueryHistoryEngine, process_response, respond, new, empty_engine,
  is_negative,
}
use universal_database_proxy.QueryHistory.Recent.{
  drop-nil, last_of, Call, run, recorded, ids, change_last-ids, IsRecent, query-IsRecent, queries,
  responds,
}

respond-IsRecent :
    (n : ℕ) (log : List String) (o : Option QueryResponse) (e : QueryHistoryEngine)
    → IsRecent n log e
    → IsRecent n log (respond o e)
respond-IsRecent n log none e s = s
respond-IsRecent n log (some response) e s = record {
  on = s.on;
  maximum = s.maximum;
  latest = change_last-ids response e.history ∙ s.latest;
}

response-IsRecent :
    (n : ℕ) (log : List String) (qc : QueryContext) (e : QueryHistoryEngine)
    → IsRecent n log e
    → IsRecent n log (process_response qc e)
unfolding process_response
response-IsRecent n log qc e s =
    let responds : (if e.config.enabled then respond qc.response e else e) ≡ respond qc.response e =
      ground (arith, s.on) in
    subst (IsRecent n log) (sym responds) (respond-IsRecent n log qc.response e s)

recorded-cons :
    (now : ℤ) (qc : QueryContext) (calls : List Call)
    → recorded (queries now qc ∷ calls) ≡ recorded (queries now qc ∷ []) ++ recorded calls
unfolding recorded
recorded-cons now qc calls = ground arith

run-IsRecent :
    (lib : HistoryLib) (n : ℕ) (log : List String) (calls : List Call) (e : QueryHistoryEngine)
    → IsRecent n log e
    → (e' : QueryHistoryEngine) × (run lib calls e ≡ done e')
      × IsRecent n (log ++ recorded calls) e'
unfolding run recorded
run-IsRecent lib n log [] e s = (e, refl, subst (λ l. IsRecent n l e) (sym (append-nil log)) s)
run-IsRecent lib n log (queries now qc ∷ calls) e s =
    let (e1, result, recent) = query-IsRecent lib n log now qc e s in
    let (e2, rest, recent2) =
      run-IsRecent lib n (log ++ recorded (queries now qc ∷ [])) calls e1 recent in
    (
      e2,
      rw result rest,
      subst (λ l. IsRecent n l e2)
          (append_assoc log (recorded (queries now qc ∷ [])) (recorded calls)
            ∙ ap (λ l. log ++ l) (sym (recorded-cons now qc calls)))
          recent2,
    )
run-IsRecent lib n log (responds qc ∷ calls) e s =
    run-IsRecent lib n log calls (process_response qc e) (response-IsRecent n log qc e s)

new-done :
    (config : HistoryConfig) (n : ℕ)
    → config.max_records ≡ pos n
    → new (some config) ≡ done (empty_engine config)
unfolding new
new-done config n maximum =
    let enough : is_negative config.max_records ≡ false = ground (arith, maximum) in rw enough

-- Whatever sequence of queries and responses a new, enabled engine meets, it does not panic, and its
-- history is of the last MaxRecords of the queries that were not empty, in order.
pub run-Recent :
    (lib : HistoryLib) (config : HistoryConfig) (n : ℕ) (calls : List Call)
    → config.enabled ≡ true
    → config.max_records ≡ pos n
    → (e : QueryHistoryEngine) × ((new (some config) >>= λ e0. run lib calls e0) ≡ done e)
      × (ids e.history ≡ last_of n (recorded calls))
run-Recent lib config n calls on maximum =
    let (e, result, recent) =
      run-IsRecent lib n [] calls (empty_engine config)
        (record { on = on; maximum = maximum; latest = sym (drop-nil (0 - n)) }) in
    (e, rw (new-done config n maximum) result, recent.latest)
