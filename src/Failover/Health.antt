-- ===== src/Failover/Health.antt =====
-- The engine over its life, and the health of a database over failures in a row.
use Prim.Native.Nat.add
use universal_database_proxy.Prelude.{
  ℕ, zero, suc, ◌+◌, ◌<◌, false, not, String, Option, none, some, List, [], ◌∷◌, ◌≡◌, ◌≢◌, refl, ap,
  arith, if◌then◌else◌, string_eq, beq_refl,
}
use universal_database_proxy.Prelude.Int.{ℤ, pos, incr, incr-pos, leb_ℤ}
use universal_database_proxy.GoMap.{lookup}
use universal_database_proxy.GoMap.Laws.{lookup-insert}
use universal_database_proxy.Types.{QueryContext, QueryResponse}
use universal_database_proxy.Failover.{
  FailoverConfig, DatabaseNode, FailoverEngine, new, add_database, process, unlock_of_unlocked,
  record_success, record_failure, update_health, trigger_failover, fail_over_if, process_response,
  succeeded, failed,
}

-- What happens to an engine.
pub data FailoverStep : Type 0 where
  adds : DatabaseNode → FailoverStep
  responds : List String → QueryContext → FailoverStep

abbrev pub take_step : FailoverEngine → FailoverStep → FailoverEngine
take_step e (adds node) = add_database node e
take_step e (responds order qc) = process_response order qc e

abbrev pub take_steps : FailoverEngine → List FailoverStep → FailoverEngine
take_steps e [] = e
take_steps e (s ∷ ss) = take_steps (take_step e s) ss

abbrev IsIdle : FailoverEngine → Type 0
IsIdle e = e.failover_ctx.failover_in_progress ≡ false

update_health-IsIdle :
    (name : String) (resp : Option QueryResponse) (e : FailoverEngine)
    → IsIdle e
    → IsIdle (update_health name resp e)
unfolding record_success record_failure
update_health-IsIdle name none e idle = idle
update_health-IsIdle name (some resp) e idle = ground (arith, idle)

fail_over_if-IsIdle :
    (order : List String) (e : FailoverEngine) → IsIdle e → IsIdle (fail_over_if order e)
unfolding trigger_failover
fail_over_if-IsIdle order e idle = ground (arith, idle)

take_steps-IsIdle :
    (e : FailoverEngine) (ss : List FailoverStep) → IsIdle e → IsIdle (take_steps e ss)
unfolding add_database process_response
take_steps-IsIdle e [] idle = idle
take_steps-IsIdle e (adds node ∷ ss) idle = take_steps-IsIdle (add_database node e) ss idle
take_steps-IsIdle e (responds order qc ∷ ss) idle =
    take_steps-IsIdle (process_response order qc e) ss
      (fail_over_if-IsIdle order _ (update_health-IsIdle qc.database qc.response e idle))

-- Whatever databases were added and responses processed since the engine was made, `Process` does
-- not run into its second unlock: no failover is in progress between two calls.
pub process_unlocks_once :
    (config : Option FailoverConfig) (ss : List FailoverStep) (qc : QueryContext)
    → process (take_steps (new config) ss) qc ≢ unlock_of_unlocked
unfolding process
process_unlocks_once config ss qc h =
    ground (arith, h, take_steps-IsIdle (new config) ss (unfold new in refl))

-- `n` failures of a database in a row.
unfoldable pub fail_times : ℕ → String → FailoverEngine → FailoverEngine
fail_times zero name e = e
fail_times (suc n) name e = fail_times n name (record_failure name e)

-- The failures in a row are counted, and decide the health.
pub record Counts (name : String) (k : ℕ) (e : FailoverEngine) : Type 0 where
  pub node : DatabaseNode
  pub stands : lookup name e.databases ≡ some node
  pub count : node.fail_count ≡ pos k
  pub decides : node.is_healthy ≡ not (leb_ℤ e.config.failure_threshold (pos k))

record_failure-lookup :
    (name : String) (e : FailoverEngine) (node : DatabaseNode)
    → lookup name e.databases ≡ some node
    → lookup name (record_failure name e).databases ≡ some (failed e.config.failure_threshold node)
unfolding record_failure
record_failure-lookup name e node there =
    rw
      (
        there,
        lookup-insert name name (failed e.config.failure_threshold node) e.databases,
        beq_refl name,
      )
      refl

-- A failure is counted; the database is unhealthy if the count reaches the threshold, and as
-- healthy as before otherwise.
failed-counts :
    (threshold : ℤ) (k : ℕ) (node : DatabaseNode)
    → k < 9223372036854775807
    → node.fail_count ≡ pos k
    → ((failed threshold node).fail_count ≡ pos (suc k))
      × ((failed threshold node).is_healthy
          ≡ (if leb_ℤ threshold (pos (suc k)) then false else node.is_healthy))
failed-counts threshold k node small h = ground (arith, incr-pos k, ap incr h)

Counts-step :
    (name : String) (k : ℕ) (e : FailoverEngine)
    → k < 9223372036854775807
    → Counts name k e
    → Counts name (suc k) (record_failure name e)
Counts-step name k e small c =
    let f = failed-counts e.config.failure_threshold k c.node small c.count in
    record {
      node = failed e.config.failure_threshold c.node;
      stands = record_failure-lookup name e c.node c.stands;
      count = f.0;
      decides = unfold record_failure in ground (arith, f.1, c.decides);
    }

Counts-fail_times :
    (name : String) (n k : ℕ) (e : FailoverEngine)
    → n + k < 9223372036854775808
    → Counts name k e
    → Counts name (n + k) (fail_times n name e)
unfolding fail_times
Counts-fail_times name zero k e small c = rw add.zero c
Counts-fail_times name (suc n) k e small c =
    let e' : suc n + k ≡ n + suc k = omega arith in
    rw e' (
      Counts-fail_times name n (suc k) (record_failure name e) (omega arith)
        (Counts-step name k e (omega arith) c))

-- After a success of a database and then `n + 1` failures in a row, it counts `n + 1` failures, and
-- is healthy exactly if they do not reach the threshold.
pub fail_times-Counts :
    (name : String) (n : ℕ) (e : FailoverEngine) (node : DatabaseNode)
    → n < 9223372036854775807
    → lookup name e.databases ≡ some node
    → Counts name (suc n) (fail_times (suc n) name (record_success name e))
fail_times-Counts name n e node small there =
    let first : lookup name (record_success name e).databases ≡ some (succeeded node) =
      unfold record_success in
      rw (there, lookup-insert name name (succeeded node) e.databases, beq_refl name) refl in
    let f = failed-counts e.config.failure_threshold 0 (succeeded node) (omega arith) refl in
    let once : Counts name 1 (record_failure name (record_success name e)) = record {
      node = failed e.config.failure_threshold (succeeded node);
      stands = unfold record_success in record_failure-lookup name (record_success name e) _ first;
      count = f.0;
      decides = unfold record_success record_failure in ground (arith, f.1);
    } in
    let e' : suc n ≡ n + 1 = omega arith in
    unfold fail_times in
    rw e'
      (Counts-fail_times name n 1 (record_failure name (record_success name e)) (omega arith) once)
