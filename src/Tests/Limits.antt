-- ===== src/Tests/Limits.antt =====
-- The rate limit engine at concrete inputs.
use universal_database_proxy.Prelude.{
  Bool, true, false, some, [], ◌∷◌, ◌≡◌, ◌≤◌, ◌/◌, ltb, refl, arith, length,
}
use universal_database_proxy.Prelude.Int.{pos, pos_part}
use universal_database_proxy.Prelude.Result.{done}
use universal_database_proxy.GoMap.{lookup}
use universal_database_proxy.Types.{QueryContext, continue_result}
use universal_database_proxy.RateLimit.{
  FloatLib, RateLimitConfig, RateLimitEngine, default_config, new, get_client_id,
  filter_requests_after,
}
use universal_database_proxy.RateLimit.Steps.{Response, process, limit_client, admit, new_client}
use universal_database_proxy.RateLimit.Outcomes.{process_passes_whitelisted, IsTrusted}
use universal_database_proxy.RateLimit.Runs.{times_of, start, queries, FloatLaws}
use universal_database_proxy.RateLimit.Windows.{within}
use universal_database_proxy.RateLimit.Bounded.{windows_bounded}
use universal_database_proxy.Tests.Samples.{query_of}

-- A float is read as the integer it rounds to, and every factor as one half.
abbrev coarse_lib : FloatLib
coarse_lib = record {
  add = λ x y. x;
  sub = λ x y. x;
  mul = λ x y. x / 2;
  div = λ x y. x;
  maximum = λ x y. y;
  minimum = λ x y. y;
  less = ltb;
  of_int = pos_part;
  to_int = λ x. pos x;
}

coarse_laws : FloatLaws coarse_lib
coarse_laws = record {
  scaled_le = λ n t small h. omega arith;
  restored_le = λ n t small h. omega arith;
}

abbrev two_a_minute : Bool → RateLimitConfig
two_a_minute whitelist = record default_config {
  per_client_limit = pos 2;
  anomaly_detection = whitelist;
  enable_ip_whitelist = whitelist;
}

abbrev ping : QueryContext
ping = query_of "SELECT 1"

abbrev first_answer : Response
first_answer =
    admit coarse_lib (pos 5) "ann" (new_client (two_a_minute false) "ann") ping
      (new (some (two_a_minute false)))

first_query : process coarse_lib (pos 5) ping (new (some (two_a_minute false))) ≡ done first_answer
unfolding process limit_client new get_client_id lookup filter_requests_after
first_query = refl

windows_bounded_example :
    length (within (pos 0) (pos 60000000000) (times_of "ann" (("ann", pos 5) ∷ []))) ≤ 2
unfolding new get_client_id
windows_bounded_example =
    windows_bounded coarse_lib coarse_laws (two_a_minute false) 2 "ann" (pos 0)
      (record { on = refl; no_whitelist = refl; limit = refl; exact = omega arith })
      (queries (pos 5) ping first_answer (start (pos 1)) (omega arith) first_query)

abbrev trusting : RateLimitEngine
trusting = record {
  config = two_a_minute true;
  clients = ("ann", record (new_client (two_a_minute true) "ann") { is_whitelisted = true }) ∷ [];
  history = [];
  circuit_breaker = (new (some (two_a_minute true))).circuit_breaker;
}

whitelisted_query :
    process coarse_lib (pos 5) ping trusting ≡ done (trusting, ping, continue_result)
unfolding process new get_client_id lookup
whitelisted_query = refl

process_passes_whitelisted_example : IsTrusted (get_client_id ping) trusting
process_passes_whitelisted_example =
    process_passes_whitelisted coarse_lib (pos 5) ping trusting (trusting, ping, continue_result)
      refl refl whitelisted_query refl
