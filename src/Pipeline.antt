-- ===== src/Pipeline.antt =====
-- backend/internal/engines/base.go: the engine interface and the pipeline. An engine is an object
-- with state, so its methods take and return a world `W` that holds the state of all engines.
pub mod Order
use universal_database_proxy.Prelude.{Bool, true, false, String, List, [], ◌∷◌, ◌++◌, if◌then◌else◌}
use universal_database_proxy.Prelude.Result.{Go, done, ◌>>=◌}
use universal_database_proxy.Types.{QueryContext, EngineResult, continue_result}

-- What a method of an engine returns: its result, and the query and the engines after it.
pub record Step (W : Type 0) : Type 0 where
  pub result : EngineResult
  pub query : QueryContext
  pub world : W

abbrev pub Method : Type 0 → Type 0
Method W = QueryContext → W → Go (Step W)

pub record Engine (W : Type 0) : Type 0 where
  pub name : String
  pub process : Method W
  pub process_response : Method W

module _ {W : Type 0} where
  -- `BaseEngine`
  unfoldable pub base_method : Method W
  base_method qc w = done (record { result = continue_result; query = qc; world = w })

  abbrev pub base_engine : String → Engine W
  base_engine name = record { name = name; process = base_method; process_response = base_method }

  -- After an engine: stop with its result, or go on with the query and world that it left.
  abbrev pub next : Method W → Step W → Go (Step W)
  next rest s = if s.result.continues then rest s.query s.world else done s

  -- `EnginePipeline.Process`
  unfoldable pub process : List (Engine W) → Method W
  process [] qc w = done (record { result = continue_result; query = qc; world = w })
  process (e ∷ es) qc w = e.process qc w >>= next (process es)

  -- `EnginePipeline.ProcessResponse`, in the same order
  unfoldable pub process_response : List (Engine W) → Method W
  process_response [] qc w = done (record { result = continue_result; query = qc; world = w })
  process_response (e ∷ es) qc w = e.process_response qc w >>= next (process_response es)

  -- `EnginePipeline.AddEngine`
  unfoldable pub add_engine : List (Engine W) → Engine W → List (Engine W)
  add_engine es e = es ++ e ∷ []
