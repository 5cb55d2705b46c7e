-- ===== src/Pipeline/Order.antt =====
-- How the pipeline composes its engines.
use universal_database_proxy.Prelude.{
  true, false, List, [], ◌∷◌, ◌++◌, ◌≡◌, refl, ap, arith, Bool-cases, inl, inr, ◌⊎◌,
}
use universal_database_proxy.Prelude.Result.{Go, done, panic, blocked, ◌>>=◌}
use universal_database_proxy.Types.{QueryContext, continue_result}
use universal_database_proxy.Pipeline.{Step, Method, Engine, next, process, process_response}

module _ {W : Type 0} where
  -- One engine more in front: if the rest splits in two, so does the whole.
  bind_next :
      (m : Go (Step W)) (f g h : Method W)
      → ((qc : QueryContext) (w : W) → h qc w ≡ (f qc w >>= next g))
      → (m >>= next h) ≡ ((m >>= next f) >>= next g)
  bind_next panic f g h split = refl
  bind_next blocked f g h split = refl
  bind_next (done s) f g h split = ground (arith, split s.query s.world)

  -- A pipeline step that returns either went on after the engine, or has the engine's own result.
  pub next-eq-done :
      (m : Go (Step W)) (f : Method W) (s : Step W)
      → (m >>= next f) ≡ done s
      → ((t : Step W) × (m ≡ done t) × (t.result.continues ≡ true) × (f t.query t.world ≡ done s))
        ⊎ ((m ≡ done s) × (s.result.continues ≡ false))
  next-eq-done panic f s h = cc
  next-eq-done blocked f s h = cc
  next-eq-done (done t) f s h = elim (Bool-cases t.result.continues) [
    | inl on ↦ inl (t, refl, on, ground arith)
    | inr off ↦ inr (ground arith)
  ]

  -- A pipeline in two parts runs the first part, and then the second from the query and the world
  -- that the first left if it ended with `Continue`; otherwise it has the first part's result, and
  -- the engines of the second part do not run. A panic of the first part is a panic of the whole,
  -- and so is a call of it that never returns.
  pub process-append :
      (es fs : List (Engine W)) (qc : QueryContext) (w : W)
      → process (es ++ fs) qc w ≡ (process es qc w >>= next (process fs))
  unfolding process
  process-append [] fs qc w = refl
  process-append (e ∷ es) fs qc w =
      bind_next (e.process qc w) (process es) (process fs) (process (es ++ fs))
        (process-append es fs)

  pub process_response-append :
      (es fs : List (Engine W)) (qc : QueryContext) (w : W)
      → process_response (es ++ fs) qc w ≡ (process_response es qc w >>= next (process_response fs))
  unfolding process_response
  process_response-append [] fs qc w = refl
  process_response-append (e ∷ es) fs qc w =
      bind_next (e.process_response qc w) (process_response es) (process_response fs)
        (process_response (es ++ fs)) (process_response-append es fs)

  -- The engine that stopped a pipeline, and how it was reached.
  pub record StoppedBy (es : List (Engine W)) (qc : QueryContext) (w : W) (s : Step W)
      : Type 0 where
    pub before : List (Engine W)
    pub engine : Engine W
    pub after : List (Engine W)
    pub split : es ≡ before ++ engine ∷ after
    pub reached : Step W
    pub passed : process before qc w ≡ done reached
    pub passing : reached.result ≡ continue_result
    pub stopping : engine.process reached.query reached.world ≡ done s

  stopped_cons :
      (e : Engine W) (es : List (Engine W)) (qc : QueryContext) (w : W) {t s : Step W}
      → e.process qc w ≡ done t
      → t.result.continues ≡ true
      → StoppedBy es t.query t.world s
      → StoppedBy (e ∷ es) qc w s
  unfolding process
  stopped_cons e es qc w {t} ran on st = record {
    before = e ∷ st.before;
    engine = st.engine;
    after = st.after;
    split = ap (λ l. e ∷ l) st.split;
    reached = st.reached;
    passed = ground (arith, st.passed);
    passing = st.passing;
    stopping = st.stopping;
  }

  -- A pipeline result without `Continue` is the result of one of its engines, as that engine gave it:
  -- the engines before it ended with `Continue`, and none after it ran.
  pub process_stopped :
      (es : List (Engine W)) (qc : QueryContext) (w : W) (s : Step W)
      → process es qc w ≡ done s
      → s.result.continues ≡ false
      → StoppedBy es qc w s
  unfolding process
  process_stopped [] qc w s ran off = ground arith
  process_stopped (e ∷ es) qc w s ran off =
      elim (next-eq-done (e.process qc w) (process es) s ran) [
        | inl (t, p, on, rest) ↦
            stopped_cons e es qc w p on (process_stopped es t.query t.world s rest off)
        | inr (p, _) ↦ record {
          before = [];
          engine = e;
          after = es;
          split = refl;
          reached = record { result = continue_result; query = qc; world = w };
          passed = refl;
          passing = refl;
          stopping = p;
        }
      ]

  -- When a pipeline ends with `Continue`, its result is the plain `{Continue: true}`, whatever
  -- flags, error or metadata its engines returned with their own `Continue`.
  pub process_passed :
      (es : List (Engine W)) (qc : QueryContext) (w : W) (s : Step W)
      → process es qc w ≡ done s
      → s.result.continues ≡ true
      → s.result ≡ continue_result
  unfolding process
  process_passed [] qc w s ran on = ground arith
  process_passed (e ∷ es) qc w s ran on = elim (next-eq-done (e.process qc w) (process es) s ran) [
    | inl (t, p, _, rest) ↦ process_passed es t.query t.world s rest on
    | inr (p, off) ↦ cc
  ]
