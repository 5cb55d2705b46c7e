-- ===== src/RetryPolicy/Loop.antt =====
-- How the retry loop ends.
use universal_database_proxy.Prelude.{
  ℕ, zero, suc, ◌+◌, ◌<◌, true, false, Option, none, some, ◌≡◌, ◌⊎◌, refl, arith, Bool-cases,
  Option-cases, inl, inr, ◌==◌, nat_eq,
}
use universal_database_proxy.Prelude.Int.{pos_part}
use universal_database_proxy.Bytes.{Bytes}
use universal_database_proxy.RetryPolicy.{
  RetryPolicy, Env, Result, succeeded, cancelled, returned, exhausted, is_retryable, attempt_loop,
  execute,
}

module _ (rp : RetryPolicy) (env : Env) where
  -- An attempt that fails with an error worth a retry.
  pub record FailsAt (attempt : ℕ) : Type 0 where
    pub running : env.done_before attempt ≡ false
    pub err : Bytes
    pub failed : env.outcome attempt ≡ some err
    pub retryable : is_retryable rp err ≡ true

  -- The first `k` attempts fail so, and the context is not done during the sleep after any of them.
  abbrev pub Retried : ℕ → Type 0
  Retried k = (i : ℕ) → i < k → FailsAt (suc i) × (env.done_during (suc i) ≡ false)

  abbrev pub max : ℕ
  max = pos_part rp.max_attempts

  -- How the loop can end after `k` attempts that were retried, and the calls of `fn` until then.
  pub data Ends : Result → ℕ → Type 0 where
    no_attempts : max ≡ 0 → Ends (exhausted none) 0
    success :
        (k : ℕ)
        → k < max
        → Retried k
        → env.done_before (suc k) ≡ false
        → env.outcome (suc k) ≡ none
        → Ends succeeded (suc k)
    not_retryable :
        (k : ℕ) (err : Bytes)
        → k < max
        → Retried k
        → env.done_before (suc k) ≡ false
        → env.outcome (suc k) ≡ some err
        → is_retryable rp err ≡ false
        → Ends (returned err) (suc k)
    cancelled_before :
        (k : ℕ) → k < max → Retried k → env.done_before (suc k) ≡ true → Ends cancelled k
    cancelled_during :
        (k : ℕ)
        → suc k < max
        → Retried k
        → FailsAt (suc k)
        → env.done_during (suc k) ≡ true
        → Ends cancelled (suc k)
    used_up :
        (k : ℕ) (f : FailsAt (suc k))
        → suc k ≡ max
        → Retried k
        → Ends (exhausted (some f.err)) (suc k)

  Retried-snoc :
      (k : ℕ) → Retried k → FailsAt (suc k) → env.done_during (suc k) ≡ false → Retried (suc k)
  Retried-snoc k h f d i lt = elim (Bool-cases (i == k)) [
    | inl same ↦ let e : k ≡ i = ground arith in rw (← e) (f, d)
    | inr other ↦ h i (ground arith)
  ]

  at_end : {x : Result × ℕ} {r : Result} {n : ℕ} → Ends r n → x ≡ (r, n) → Ends x.0 x.1
  at_end h e = rw e h

  -- The goal of the induction on the rounds.
  abbrev LoopEnds : ℕ → ℕ → Option Bytes → Type 0
  LoopEnds rounds k last = let r = attempt_loop rp env rounds (suc k) k last in Ends r.0 r.1

  step :
      (n k : ℕ) (last : Option Bytes) (f : FailsAt (suc k))
      → (suc k == max) ≡ false
      → env.done_during (suc k) ≡ false
      → attempt_loop rp env (suc n) (suc k) k last
        ≡ attempt_loop rp env n (suc k + 1) (k + 1) (some f.err)
  unfolding attempt_loop
  step n k last f more on = ground (arith, f.running, f.failed, f.retryable)

  -- After a failure that is worth a retry.
  ends_retryable :
      (n k : ℕ) (last : Option Bytes) (f : FailsAt (suc k))
      → k + suc n ≡ max
      → Retried k
      → (env.done_during (suc k) ≡ false → suc k < max → LoopEnds n (suc k) (some f.err))
      → LoopEnds (suc n) k last
  unfolding attempt_loop
  ends_retryable n k last f total h rest = elim (Bool-cases (suc k == max)) [
    | inl last_one ↦
        at_end (used_up k f (ground arith) h) (ground (arith, f.running, f.failed, f.retryable))
    | inr more ↦ elim (Bool-cases (env.done_during (suc k))) [
      | inl d ↦
          at_end (cancelled_during k (ground arith) h f d)
            (ground (arith, f.running, f.failed, f.retryable))
      | inr on ↦
          let two : suc k + 1 ≡ suc (suc k) = omega arith in
          let one : k + 1 ≡ suc k = omega arith in
          rw (step n k last f more on, two, one) (rest on (ground arith))
    ]
  ]

  loop-Ends :
      (rounds k : ℕ) (last : Option Bytes)
      → k + rounds ≡ max
      → (k ≡ 0) ⊎ (k < max)
      → (k ≡ 0 → last ≡ none)
      → Retried k
      → LoopEnds rounds k last
  unfolding attempt_loop
  loop-Ends zero k last total begun first h =
      at_end (no_attempts (ground arith)) (ground (arith, first))
  loop-Ends (suc n) k last total begun first h = elim (Bool-cases (env.done_before (suc k))) [
    | inl d ↦ at_end (cancelled_before k (omega arith) h d) (ground arith)
    | inr going ↦ elim (Option-cases (env.outcome (suc k))) [
      | inl fine ↦ at_end (success k (omega arith) h going fine) (ground arith)
      | inr (err, bad) ↦ elim (Bool-cases (is_retryable rp err)) [
        | inr final ↦ at_end (not_retryable k err (omega arith) h going bad final) (ground arith)
        | inl again ↦
            let f : FailsAt (suc k) = record {
              running = going;
              err = err;
              failed = bad;
              retryable = again;
            } in
            ends_retryable n k last f total h (λ on more.
              loop-Ends n (suc k) (some err) (omega arith) (inr more) (λ z. absurd (omega arith))
                (Retried-snoc k h f on))
      ]
    ]
  ]

  -- `Execute` always ends, and in one of the ways that `Ends` lists: at the first attempt that succeeds, fails for
  -- good or meets a context that is done, or after `MaxAttempts` attempts worth a retry.
  pub execute-Ends : let r = execute rp env in Ends r.0 r.1
  unfolding execute
  execute-Ends = loop-Ends max 0 none (omega arith) (inl refl) (λ _. refl) (λ i lt. elim lt [ ])
