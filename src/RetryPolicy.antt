-- ===== src/RetryPolicy.antt =====
-- backend/internal/retry/policy.go: the retry loop and its test for errors worth a retry. An error
-- is its message in bytes. The delay between two attempts, a float with random jitter, decides only
-- how long the loop sleeps, and is left out.
pub mod Loop
use universal_database_proxy.Prelude.{
  ℕ, zero, suc, ◌+◌, Bool, true, false, String, Option, none, some, List, [], ◌∷◌, ◌==◌, nat_eq,
  string_eq, if◌then◌else◌,
}
use universal_database_proxy.Prelude.Int.{ℤ, pos, pos_part}
use universal_database_proxy.GoMap.{GoMap, lookup, insert}
use universal_database_proxy.Bytes.{Bytes, utf8, contains}

pub record RetryPolicy : Type 0 where
  pub max_attempts : ℤ
  pub retryable_errors : List Bytes
  pub non_retryable_errs : List Bytes

-- `NewRetryPolicy`
unfoldable pub new : ℤ → RetryPolicy
new max_attempts = record {
  max_attempts = max_attempts;
  retryable_errors = [];
  non_retryable_errs = [];
}

pub retryable_patterns : List Bytes
retryable_patterns =
    utf8 "connection refused"
    ∷ utf8 "timeout"
    ∷ utf8 "temporary failure"
    ∷ utf8 "network"
    ∷ utf8 "ECONNREFUSED"
    ∷ utf8 "ETIMEDOUT"
    ∷ utf8 "i/o timeout"
    ∷ utf8 "server closed connection"
    ∷ utf8 "too many connections"
    ∷ utf8 "deadlock"
    ∷ utf8 "resource governor"
    ∷ []

-- A loop that looks for any of the patterns.
unfoldable pub contains_any : Bytes → List Bytes → Bool
contains_any msg [] = false
contains_any msg (p ∷ ps) = if contains msg p then true else contains_any msg ps

-- `isCommonRetryableError`
unfoldable pub is_common_retryable_error : Bytes → Bool
is_common_retryable_error msg = contains_any msg retryable_patterns

-- `isRetryable` of an error that is not nil
unfoldable pub is_retryable : RetryPolicy → Bytes → Bool
is_retryable rp msg =
    if contains_any msg rp.non_retryable_errs
    then false
    else if contains_any msg rp.retryable_errors
    then true
    else is_common_retryable_error msg

-- What the loop meets at each attempt, counted from 1: whether the context is done before it, what
-- `fn` returns, and whether the context is done before the sleep after it ends.
pub record Env : Type 0 where
  pub done_before : ℕ → Bool
  pub outcome : ℕ → Option Bytes
  pub done_during : ℕ → Bool

-- What `Execute` returns: nil, the context's error, the last error as it is, or the message that
-- the attempts are used up, which wraps the last error, if there was any.
pub data Result : Type 0 where
  succeeded : Result
  cancelled : Result
  returned : Bytes → Result
  exhausted : Option Bytes → Result

-- The loop from `attempt` on, with the rounds left to `MaxAttempts` and the calls of `fn` made.
module _ (rp : RetryPolicy) (env : Env) where
  unfoldable pub attempt_loop : ℕ → ℕ → ℕ → Option Bytes → Result × ℕ
  attempt_loop zero attempt calls last = (exhausted last, calls)
  attempt_loop (suc rounds) attempt calls last = elim (env.done_before attempt) [
    | true ↦ (cancelled, calls)
    | false ↦ elim (env.outcome attempt) [
      | none ↦ (succeeded, calls + 1)
      | some err ↦ elim (is_retryable rp err) [
        | false ↦ (returned err, calls + 1)
        | true ↦ elim (attempt == pos_part rp.max_attempts) [
          | true ↦ (exhausted (some err), calls + 1)
          | false ↦ elim (env.done_during attempt) [
            | true ↦ (cancelled, calls + 1)
            | false ↦ attempt_loop rounds (attempt + 1) (calls + 1) (some err)
          ]
        ]
      ]
    ]
  ]

  -- `Execute`, with the number of calls of `fn`
  unfoldable pub execute : Result × ℕ
  execute = attempt_loop (pos_part rp.max_attempts) 1 0 none

pub record RetryManager : Type 0 where
  pub policies : GoMap String RetryPolicy
  pub default_policy : RetryPolicy

-- `RegisterPolicy`, `GetPolicy`, `SetDefaultPolicy` and `ExecuteWithPolicy`
unfoldable pub register_policy : String → RetryPolicy → RetryManager → RetryManager
register_policy name policy rm = record rm { policies = insert name policy rm.policies }

abbrev pub or_default : RetryPolicy → Option RetryPolicy → RetryPolicy
or_default d none = d
or_default d (some policy) = policy

unfoldable pub get_policy : String → RetryManager → RetryPolicy
get_policy name rm = or_default rm.default_policy (lookup name rm.policies)

unfoldable pub set_default_policy : RetryPolicy → RetryManager → RetryManager
set_default_policy policy rm = record rm { default_policy = policy }

unfoldable pub execute_with_policy : RetryManager → String → Env → Result × ℕ
execute_with_policy rm name env = execute (get_policy name rm) env
