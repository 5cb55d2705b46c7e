-- ===== src/RateLimit/Logged.antt =====
-- Writing one client of the rate limit engine, and what it adds to the log.
use mathlib.Core.Path.{subst}
use mathlib.Core.List.{append-nil}
use universal_database_proxy.Prelude.{
  ℕ, false, ◌&&◌, String, Option, none, some, [], ◌∷◌, ◌++◌, ◌≡◌, refl, sym, ◌∙◌, arith, ◌==◌,
  string_eq, eq_iff, beq_refl, Bool-cases, inl, inr, length,
}
use universal_database_proxy.Prelude.Int.{ℤ, pos, ◌-ℤ◌, ◌≤ℤ◌, ltb_ℤ, -ℤ_parts}
use universal_database_proxy.Prelude.Division.{half_of}
use universal_database_proxy.GoMap.{lookup, insert}
use universal_database_proxy.GoMap.Laws.{lookup-insert}
use universal_database_proxy.RateLimit.{
  FloatLib, float_zero, tenth, half, float_one, RateLimitConfig, ClientState, RateLimitEngine,
  filter_requests_after,
}
use universal_database_proxy.RateLimit.Steps.{client_or_new, client_at, store, throttled, restored}
use universal_database_proxy.RateLimit.Outcomes.{SameClients}
use universal_database_proxy.RateLimit.Windows.{filter-filter}
use universal_database_proxy.RateLimit.Runs.{
  Log, times_of, FloatLaws, Limits, requests_of, IsLogged,
}

pub times_of-append :
    (id : String) (log more : Log) → times_of id (log ++ more) ≡ times_of id log ++ times_of id more
times_of-append id [] more = refl
times_of-append id ((j, t) ∷ log) more = ground (arith, times_of-append id log more)

requests_of-client :
    (config : RateLimitConfig) (id : String) (o : Option ClientState)
    → (client_or_new config id o).requests ≡ requests_of o
requests_of-client config id none = refl
requests_of-client config id (some state) = refl

client_or_new-limited :
    (config : RateLimitConfig) (n : ℕ) (id : String) (o : Option ClientState)
    → config.per_client_limit ≡ pos n
    → ((state : ClientState) → o ≡ some state → state.current_limit ≤ℤ pos n)
    → (client_or_new config id o).current_limit ≤ℤ pos n
client_or_new-limited config n id none limit h = ground (arith, limit)
client_or_new-limited config n id (some state) limit h = h state refl

pub throttled-limited :
    (lib : FloatLib) (laws : FloatLaws lib) (config : RateLimitConfig) (n : ℕ) (now : ℤ)
    (state : ClientState)
    → Limits config n
    → state.current_limit ≤ℤ pos n
    → (throttled lib now config state).current_limit ≤ℤ pos n
throttled-limited lib laws config n now state l h =
    let trust = lib.maximum float_zero (lib.sub state.trust_score tenth) in
    elim (Bool-cases (config.adaptive_throttling && lib.less trust half)) [
      | inl lowered ↦
          rw (lowered, l.limit) (laws.scaled_le n trust l.exact (ground (arith, lowered)))
      | inr kept ↦ rw kept h
    ]

pub restored-limited :
    (lib : FloatLib) (laws : FloatLaws lib) (config : RateLimitConfig) (n : ℕ) (state : ClientState)
    → Limits config n
    → state.current_limit ≤ℤ pos n
    → (restored lib config state).current_limit ≤ℤ pos n
restored-limited lib laws config n state l h =
    elim (Bool-cases (
      lib.less state.trust_score float_one
      && ltb_ℤ (pos (length state.requests)) (half_of state.current_limit))) [
        | inl raised ↦
            rw (raised, l.limit)
              (laws.restored_le n state.trust_score l.exact (ground (arith, raised)))
        | inr kept ↦ rw kept h
      ]

pub restored-requests :
    (lib : FloatLib) (config : RateLimitConfig) (state : ClientState)
    → (restored lib config state).requests ≡ state.requests
restored-requests lib config state = ground arith

pub SameClients-IsLogged :
    (config : RateLimitConfig) (n : ℕ) (t : ℤ) (e e' : RateLimitEngine) (log : Log)
    → SameClients e e'
    → IsLogged config n t e log
    → IsLogged config n t e' log
SameClients-IsLogged config n t e e' log same s = record {
  same_config = same.config ∙ s.same_config;
  same_times = rw same.clients s.same_times;
  limited = rw same.clients s.limited;
}

later_cutoff :
    (t now window cutoff : ℤ) → t ≤ℤ now → (now -ℤ window) ≤ℤ cutoff → (t -ℤ window) ≤ℤ cutoff
later_cutoff t now window cutoff h later =
    omega (arith, h, later, -ℤ_parts t window, -ℤ_parts now window)

pub later-IsLogged :
    (config : RateLimitConfig) (n : ℕ) (t now : ℤ) (e : RateLimitEngine) (log : Log)
    → t ≤ℤ now
    → IsLogged config n t e log
    → IsLogged config n now e log
later-IsLogged config n t now e log h s = record {
  same_config = s.same_config;
  same_times = λ id cutoff later.
      s.same_times id cutoff (later_cutoff t now config.window_size cutoff h later);
  limited = s.limited;
}

-- Writing one client, whose requests are those of the new log.
pub store-IsLogged :
    (config : RateLimitConfig) (n : ℕ) (now : ℤ) (e : RateLimitEngine) (log log' : Log)
    (id : String) (state : ClientState)
    → IsLogged config n now e log
    → ((j : String) → (id == j) ≡ false → times_of j log' ≡ times_of j log)
    → ((cutoff : ℤ)
        → (now -ℤ config.window_size) ≤ℤ cutoff
        → filter_requests_after cutoff (times_of id log')
          ≡ filter_requests_after cutoff state.requests)
    → state.current_limit ≤ℤ pos n
    → IsLogged config n now (store id state e) log'
store-IsLogged config n now e log log' id state s others own small = record {
  same_config = s.same_config;
  same_times = λ j cutoff later. elim (Bool-cases (id == j)) [
    | inl same ↦
        let here : lookup j (insert id state e.clients) ≡ some state =
          ground (arith, lookup-insert id j state e.clients, same) in
        rw (here, ← (eq_iff id j).0 same) (own cutoff later)
    | inr other ↦
        let there : lookup j (insert id state e.clients) ≡ lookup j e.clients =
          ground (arith, lookup-insert id j state e.clients, other) in
        rw (others j other, there) (s.same_times j cutoff later)
  ];
  limited = λ j st found. elim (Bool-cases (id == j)) [
    | inl same ↦
        let here : state ≡ st = ground (arith, lookup-insert id j state e.clients, same, found) in
        subst (λ (c : ClientState). c.current_limit ≤ℤ pos n) here small
    | inr other ↦ s.limited j st (ground (arith, lookup-insert id j state e.clients, other, found))
  ];
}

-- The requests of the window, of a client that is known or new.
pub client_at-requests :
    (config : RateLimitConfig) (n : ℕ) (now cutoff : ℤ) (e : RateLimitEngine) (log : Log)
    (id : String)
    → IsLogged config n now e log
    → (now -ℤ config.window_size) ≤ℤ cutoff
    → filter_requests_after cutoff (client_at now id e).requests
      ≡ filter_requests_after cutoff (times_of id log)
client_at-requests config n now cutoff e log id s later =
    let window : (now -ℤ e.config.window_size) ≤ℤ cutoff = rw s.same_config later in
    filter-filter (now -ℤ e.config.window_size) cutoff
      (client_or_new e.config id (lookup id e.clients)).requests window
    ∙ (rw (requests_of-client e.config id (lookup id e.clients))
        (sym (s.same_times id cutoff later)))

pub client_at-limited :
    (config : RateLimitConfig) (n : ℕ) (now : ℤ) (e : RateLimitEngine) (log : Log) (id : String)
    → Limits config n
    → IsLogged config n now e log
    → (client_at now id e).current_limit ≤ℤ pos n
client_at-limited config n now e log id l s =
    client_or_new-limited e.config n id (lookup id e.clients) (rw s.same_config l.limit)
      (s.limited id)

pub times_of-one : (id : String) (now : ℤ) → times_of id ((id, now) ∷ []) ≡ now ∷ []
times_of-one id now = ground (arith, beq_refl id)

pub times_of-other :
    (id j : String) (now : ℤ) (log : Log)
    → (id == j) ≡ false
    → times_of j (log ++ (id, now) ∷ []) ≡ times_of j log
times_of-other id j now log other =
    times_of-append j log ((id, now) ∷ []) ∙ ground (arith, other, append-nil (times_of j log))
