-- ===== src/RateLimit/Kept.antt =====
-- Every operation of the rate limit engine keeps the requests of the log.
use universal_database_proxy.Prelude.{
  ℕ, Bool, true, false, String, Option, none, some, List, [], ◌∷◌, ◌≡◌, refl, sym, ap, ◌∙◌, arith,
  if◌then◌else◌, string_eq, mem, Bool-cases, inl, inr, length,
}
use universal_database_proxy.Prelude.Int.{ℤ, pos, leb_ℤ}
use universal_database_proxy.GoMap.{lookup}
use universal_database_proxy.GoMap.Sweep.{drop_if, lookup-sweep}
use universal_database_proxy.Types.{QueryContext}
use universal_database_proxy.RateLimit.{
  FloatLib, RateLimitConfig, ClientState, RateLimitEngine, new, get_client_id,
  filter_requests_after,
}
use universal_database_proxy.RateLimit.Steps.{Response}
use universal_database_proxy.RateLimit.Upkeep.{process_response, monitor, forgets}
use universal_database_proxy.RateLimit.Outcomes.{
  SameClients, Outcome, stopped, skipped, over_limit, admitted, process-Outcome,
}
use universal_database_proxy.RateLimit.Runs.{
  Log, logged, Run, FloatLaws, Limits, requests_of, IsLogged, start, queries, responds, ticks,
}
use universal_database_proxy.RateLimit.Logged.{SameClients-IsLogged, later-IsLogged}
use universal_database_proxy.RateLimit.Written.{refused-IsLogged, admit-IsLogged}

query-IsLogged :
    (lib : FloatLib) (laws : FloatLaws lib) (config : RateLimitConfig) (n : ℕ) (now : ℤ)
    (qc : QueryContext) (e : RateLimitEngine) (log : Log) (r : Response)
    → Limits config n
    → IsLogged config n now e log
    → Outcome lib now qc e r
    → IsLogged config n now r.0 (logged r.2 (get_client_id qc) now log)
query-IsLogged lib laws config n now qc e log _ l s stopped = s
query-IsLogged lib laws config n now qc e log _ l s (skipped same skips) =
    absurd (ground (arith, skips, s.same_config, l.no_whitelist))
query-IsLogged lib laws config n now qc e log _ l s (over_limit {e' = e'} same over) =
    refused-IsLogged lib laws config n now qc (get_client_id qc) e' log l
      (SameClients-IsLogged config n now e e' log same s)
query-IsLogged lib laws config n now qc e log _ l s (admitted {e' = e'} same under off) =
    admit-IsLogged lib laws config n now qc (get_client_id qc) e' log l
      (SameClients-IsLogged config n now e e' log same s)

SameClients-if :
    (e a b : RateLimitEngine) (test : Bool)
    → SameClients e a
    → SameClients e b
    → SameClients e (if test then a else b)
SameClients-if e a b true f g = f
SameClients-if e a b false f g = g

response-SameClients :
    (now : ℤ) (qc : QueryContext) (e : RateLimitEngine) → SameClients e (process_response now qc e)
unfolding process_response
response-SameClients now qc e =
    SameClients-if e _ e e.config.circuit_breaker_enabled (record { config = refl; clients = refl })
      (record { config = refl; clients = refl })

no_requests : (l : List ℤ) → leb_ℤ (pos (length l)) (pos 0) ≡ true → l ≡ []
no_requests [] h = refl
no_requests (t ∷ l) h = absurd (ground (arith, h))

drop_if-requests :
    (lib : FloatLib) (now : ℤ) (o : Option ClientState)
    → requests_of (drop_if (forgets lib now) o) ≡ requests_of o
drop_if-requests lib now none = refl
drop_if-requests lib now (some state) = elim (Bool-cases (forgets lib now state)) [
  | inl forgotten ↦ rw forgotten (sym (no_requests state.requests (ground (arith, forgotten))))
  | inr kept ↦ rw kept
]

drop_if-some :
    (test : ClientState → Bool) (o : Option ClientState) (state : ClientState)
    → drop_if test o ≡ some state
    → o ≡ some state
drop_if-some test none state h = h
drop_if-some test (some s) state h = ground (arith, h)

monitor-requests :
    (lib : FloatLib) (now : ℤ) (order : List String) (e : RateLimitEngine) (id : String)
    → requests_of (lookup id (monitor lib now order e).clients) ≡ requests_of (lookup id e.clients)
unfolding monitor
monitor-requests lib now order e id =
    rw (lookup-sweep (forgets lib now) order e.clients id) (elim (Bool-cases (mem id order)) [
      | inl visited ↦ rw visited (drop_if-requests lib now (lookup id e.clients))
      | inr missed ↦ rw missed
    ])

monitor-some :
    (lib : FloatLib) (now : ℤ) (order : List String) (e : RateLimitEngine) (id : String)
    (state : ClientState)
    → lookup id (monitor lib now order e).clients ≡ some state
    → lookup id e.clients ≡ some state
unfolding monitor
monitor-some lib now order e id state found = elim (Bool-cases (mem id order)) [
  | inl visited ↦
      drop_if-some (forgets lib now) (lookup id e.clients) state
        (ground (arith, lookup-sweep (forgets lib now) order e.clients id, visited, found))
  | inr missed ↦ ground (arith, lookup-sweep (forgets lib now) order e.clients id, missed, found)
]

monitor-IsLogged :
    (lib : FloatLib) (config : RateLimitConfig) (n : ℕ) (t now : ℤ) (order : List String)
    (e : RateLimitEngine) (log : Log)
    → IsLogged config n t e log
    → IsLogged config n t (monitor lib now order e) log
unfolding monitor
monitor-IsLogged lib config n t now order e log s = record {
  same_config = s.same_config;
  same_times = λ id cutoff later.
      s.same_times id cutoff later
      ∙ ap (filter_requests_after cutoff) (sym (monitor-requests lib now order e id));
  limited = λ id state found. s.limited id state (monitor-some lib now order e id state found);
}

new-IsLogged :
    (config : RateLimitConfig) (n : ℕ) (now : ℤ) → IsLogged config n now (new (some config)) []
unfolding new lookup
new-IsLogged config n now = record {
  same_config = refl;
  same_times = λ id cutoff later. refl;
  limited = λ id state found. ground (arith, found);
}

pub Run-IsLogged :
    (lib : FloatLib) (laws : FloatLaws lib) (config : RateLimitConfig) (n : ℕ) {t : ℤ}
    {e : RateLimitEngine} {log : Log}
    → Limits config n
    → Run lib config t e log
    → IsLogged config n t e log
Run-IsLogged lib laws config n l (start now) = new-IsLogged config n now
Run-IsLogged lib laws config n l (queries {t = t} {e = e} {log = log} now qc r run h result) =
    let s = Run-IsLogged lib laws config n l run in
    query-IsLogged lib laws config n now qc e log r l (later-IsLogged config n t now e log h s)
      (process-Outcome lib now qc e r (rw s.same_config l.on) result)
Run-IsLogged lib laws config n l (responds {t = t} {e = e} {log = log} now qc run) =
    SameClients-IsLogged config n t e (process_response now qc e) log
      (response-SameClients now qc e) (Run-IsLogged lib laws config n l run)
Run-IsLogged lib laws config n l (ticks {t = t} {e = e} {log = log} now order run) =
    monitor-IsLogged lib config n t now order e log (Run-IsLogged lib laws config n l run)
