-- ===== src/RateLimit/Bounded.antt =====
-- How many requests the rate limit engine lets through in a span of time.
use universal_database_proxy.Prelude.{
  ℕ, false, String, ◌≡◌, ◌≤◌, ◌<◌, sym, ◌∙◌, arith, ◌==◌, string_eq, eq_iff, Bool-cases, inl, inr,
  length,
}
use universal_database_proxy.Prelude.Int.{ℤ, ◌-ℤ◌}
use universal_database_proxy.GoMap.{lookup}
use universal_database_proxy.Types.{QueryContext}
use universal_database_proxy.RateLimit.{
  FloatLib, RateLimitConfig, RateLimitEngine, get_client_id, filter_requests_after,
}
use universal_database_proxy.RateLimit.Steps.{Response, client_or_new, client_at}
use universal_database_proxy.RateLimit.Outcomes.{
  is_over, Outcome, stopped, skipped, over_limit, admitted, process-Outcome,
}
use universal_database_proxy.RateLimit.Windows.{filter-filter, within, add_within}
use universal_database_proxy.RateLimit.Runs.{
  Log, times_of, logged, Run, FloatLaws, Limits, IsLogged, start, queries, responds, ticks,
}
use universal_database_proxy.RateLimit.Logged.{
  SameClients-IsLogged, later-IsLogged, client_at-requests, client_at-limited, times_of-other,
}
use universal_database_proxy.RateLimit.Written.{times_of-logged}
use universal_database_proxy.RateLimit.Kept.{Run-IsLogged}

held_times :
    (config : RateLimitConfig) (n : ℕ) (now : ℤ) (e : RateLimitEngine) (log : Log) (id : String)
    → IsLogged config n now e log
    → filter_requests_after (now -ℤ config.window_size) (times_of id log)
      ≡ (client_at now id e).requests
held_times config n now e log id s =
    let cutoff = now -ℤ config.window_size in
    sym (client_at-requests config n now cutoff e log id s (omega arith))
    ∙ rw (← s.same_config) (
        filter-filter (now -ℤ e.config.window_size) (now -ℤ e.config.window_size)
          (client_or_new e.config id (lookup id e.clients)).requests (omega arith))

-- A client under its limit has fewer requests in the window than the bound.
under_fewer :
    (config : RateLimitConfig) (n : ℕ) (now : ℤ) (e : RateLimitEngine) (log : Log) (id : String)
    → Limits config n
    → IsLogged config n now e log
    → is_over now id e ≡ false
    → length (filter_requests_after (now -ℤ config.window_size) (times_of id log)) < n
under_fewer config n now e log id l s under =
    rw (held_times config n now e log id s)
      (ground (arith, under, client_at-limited config n now e log id l s))

-- The requests let through in one span are bounded if they were before this query.
query-bounded :
    (lib : FloatLib) (config : RateLimitConfig) (n : ℕ) (now : ℤ) (qc : QueryContext)
    (e : RateLimitEngine) (log : Log) (r : Response) (id : String) (from : ℤ)
    → Limits config n
    → IsLogged config n now e log
    → Outcome lib now qc e r
    → length (within from config.window_size (times_of id log)) ≤ n
    → length (within from config.window_size (times_of id (logged r.2 (get_client_id qc) now log)))
      ≤ n
query-bounded lib config n now qc e log _ id from l s stopped h = h
query-bounded lib config n now qc e log _ id from l s (skipped same skips) h =
    absurd (ground (arith, skips, s.same_config, l.no_whitelist))
query-bounded lib config n now qc e log _ id from l s (over_limit same over) h = h
query-bounded lib config n now qc e log _ id from l s (admitted {e' = e'} same under off) h =
    elim (Bool-cases (get_client_id qc == id)) [
      | inl this ↦
          let same_id : get_client_id qc ≡ id = (eq_iff (get_client_id qc) id).0 this in
          let s' = SameClients-IsLogged config n now e e' log same s in
          rw (same_id, times_of-logged id now log)
            (add_within from config.window_size now (times_of id log) n h
              (under_fewer config n now e' log id l s' (rw same_id at under)))
      | inr other ↦ rw (times_of-other (get_client_id qc) id now log other) h
    ]

-- For an enabled engine without a whitelist, whose limit is n < 2^53: whatever queries, responses
-- and ticks there were, in time that never ran back, at most n requests of one client were let
-- through in any span as long as the window. The floating point products of limits obey `FloatLaws`.
pub windows_bounded :
    (lib : FloatLib) (laws : FloatLaws lib) (config : RateLimitConfig) (n : ℕ) {t : ℤ}
    {e : RateLimitEngine} {log : Log} (id : String) (from : ℤ)
    → Limits config n
    → Run lib config t e log
    → length (within from config.window_size (times_of id log)) ≤ n
unfolding within
windows_bounded lib laws config n id from l (start now) = omega arith
windows_bounded lib laws config n id from l
      (queries {t = t} {e = e} {log = log} now qc r run h result) =
    let s = Run-IsLogged lib laws config n l run in
    query-bounded lib config n now qc e log r id from l (later-IsLogged config n t now e log h s)
      (process-Outcome lib now qc e r (rw s.same_config l.on) result)
      (windows_bounded lib laws config n id from l run)
windows_bounded lib laws config n id from l (responds now qc run) =
    windows_bounded lib laws config n id from l run
windows_bounded lib laws config n id from l (ticks now order run) =
    windows_bounded lib laws config n id from l run
