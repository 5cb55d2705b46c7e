-- ===== src/RateLimit/Written.antt =====
-- The log after a refused and after an admitted request.
use universal_database_proxy.Prelude.{
  ℕ, String, List, [], ◌∷◌, ◌++◌, ◌≡◌, refl, sym, ap, ◌∙◌, string_eq,
}
use universal_database_proxy.Prelude.Int.{ℤ}
use universal_database_proxy.Types.{QueryContext}
use universal_database_proxy.RateLimit.{
  FloatLib, RateLimitConfig, RateLimitEngine, filter_requests_after,
}
use universal_database_proxy.RateLimit.Steps.{
  client_at, throttled, refuse_over_limit, admit, recorded, restored,
}
use universal_database_proxy.RateLimit.Windows.{filter-append}
use universal_database_proxy.RateLimit.Runs.{Log, times_of, FloatLaws, Limits, IsLogged}
use universal_database_proxy.RateLimit.Logged.{
  times_of-append, throttled-limited, restored-limited, restored-requests, store-IsLogged,
  client_at-requests, client_at-limited, times_of-one, times_of-other,
}

pub refused-IsLogged :
    (lib : FloatLib) (laws : FloatLaws lib) (config : RateLimitConfig) (n : ℕ) (now : ℤ)
    (qc : QueryContext) (id : String) (e : RateLimitEngine) (log : Log)
    → Limits config n
    → IsLogged config n now e log
    → IsLogged config n now (refuse_over_limit lib now id (client_at now id e) qc e).0 log
refused-IsLogged lib laws config n now qc id e log l s =
    let state = client_at now id e in
    store-IsLogged config n now e log log id (throttled lib now e.config state) s (λ j other. refl)
      (λ cutoff later. sym (client_at-requests config n now cutoff e log id s later))
      (throttled-limited lib laws e.config n now state (rw s.same_config l)
        (client_at-limited config n now e log id l s))

-- A request is added to the log and to the client's requests.
add_request :
    (now cutoff : ℤ) (ts requests : List ℤ)
    → filter_requests_after cutoff requests ≡ filter_requests_after cutoff ts
    → filter_requests_after cutoff (ts ++ now ∷ [])
      ≡ filter_requests_after cutoff (requests ++ now ∷ [])
add_request now cutoff ts requests h =
    filter-append cutoff ts (now ∷ [])
    ∙ ap (λ l. l ++ filter_requests_after cutoff (now ∷ [])) (sym h)
    ∙ sym (filter-append cutoff requests (now ∷ []))

pub times_of-logged :
    (id : String) (now : ℤ) (log : Log)
    → times_of id (log ++ (id, now) ∷ []) ≡ times_of id log ++ now ∷ []
times_of-logged id now log =
    times_of-append id log ((id, now) ∷ []) ∙ ap (λ l. times_of id log ++ l) (times_of-one id now)

pub admit-IsLogged :
    (lib : FloatLib) (laws : FloatLaws lib) (config : RateLimitConfig) (n : ℕ) (now : ℤ)
    (qc : QueryContext) (id : String) (e : RateLimitEngine) (log : Log)
    → Limits config n
    → IsLogged config n now e log
    → IsLogged config n now (admit lib now id (client_at now id e) qc e).0 (log ++ (id, now) ∷ [])
admit-IsLogged lib laws config n now qc id e log l s =
    let state = client_at now id e in
    store-IsLogged config n now e log (log ++ (id, now) ∷ []) id
      (restored lib e.config (recorded now state)) s (λ j other. times_of-other id j now log other)
      (λ cutoff later.
        rw (times_of-logged id now log, restored-requests lib e.config (recorded now state))
          (add_request now cutoff (times_of id log) state.requests
            (client_at-requests config n now cutoff e log id s later)))
      (restored-limited lib laws e.config n (recorded now state) (rw s.same_config l)
        (client_at-limited config n now e log id l s))
