-- ===== src/Failover/Promotion.antt =====
-- Which database is the primary after a response.
use mathlib.Core.Option
use mathlib.Core.Path.{subst}
use universal_database_proxy.Prelude.{
  true, false, ◌&&◌, String, Option, none, some, List, ◌≡◌, ◌≢◌, ◌⊎◌, refl, arith, if◌then◌else◌,
  ◌==◌, string_eq, eq_iff, beq_refl, Option-cases, Bool-cases, inl, inr,
}
use universal_database_proxy.Prelude.Int.{ℤ, ◌<ℤ◌}
use universal_database_proxy.GoMap.{GoMap, lookup, range, Covers}
use universal_database_proxy.GoMap.Laws.{lookup-insert}
use universal_database_proxy.GoMap.Range.{mem-range, range-mem}
use universal_database_proxy.Types.{QueryContext, QueryResponse}
use universal_database_proxy.Failover.{
  DatabaseNode, FailoverEngine, record_success, record_failure, update_node, update_health, is_down,
  should_failover, find_target, promoted, promote, trigger_failover, fail_over_if, process_response,
}
use universal_database_proxy.Failover.Targets.{ne_of_test, find_target-Target, find_target-NoTarget}

-- The primary after a response: a database that is healthy or has failed fewer times than the
-- threshold, or none of the others is healthy.
pub data Settled (e : FailoverEngine) : Type 0 where
  up :
      (node : DatabaseNode)
      → lookup e.primary e.databases ≡ some node
      → (node.is_healthy ≡ true) ⊎ (node.fail_count <ℤ e.config.failure_threshold)
      → Settled e
  no_other :
      ((k : String) (node : DatabaseNode)
        → lookup k e.databases ≡ some node
        → k ≢ e.primary
        → node.is_healthy ≡ false)
      → Settled e

lookup-update_node :
    (name j : String) (change : DatabaseNode → DatabaseNode) (m : GoMap String DatabaseNode)
    → lookup j (update_node name change (lookup name m) m)
      ≡ (if name == j then Option.map change (lookup j m) else lookup j m)
lookup-update_node name j change m = elim (Option-cases (lookup name m)) [
  | inl n ↦ ground (arith, n, eq_iff name j)
  | inr f ↦ ground (arith, f.1, lookup-insert name j (change f.0) m, eq_iff name j)
]

-- What the engine needs for a failover: it is on, none is in progress, the loop visits every
-- database, and no database has the empty name.
pub record Ready (order : List String) (e : FailoverEngine) : Type 0 where
  pub automatic : e.config.enable_auto_failover ≡ true
  pub idle : e.failover_ctx.failover_in_progress ≡ false
  pub covers : Covers order e.databases
  pub unnamed : lookup "" e.databases ≡ none

promote_found :
    (e : FailoverEngine) (target : String) (node : DatabaseNode)
    → target ≢ ""
    → lookup target e.databases ≡ some node
    → node.is_healthy ≡ true
    → Settled (promote target e)
promote_found e target node named there healthy =
    let tested : target == "" ≡ false = ground (arith, eq_iff target "", named) in
    rw tested (
      up (promoted node)
        (rw (lookup-update_node target target promoted e.databases, there, beq_refl target) refl)
        (inl healthy))

trigger_failover-Settled :
    (order : List String) (e : FailoverEngine) → Ready order e → Settled (trigger_failover order e)
unfolding trigger_failover
trigger_failover-Settled order e ready =
    let target = find_target e.primary (range order e.databases) in
    elim (Bool-cases (target == "")) [
      | inl failed ↦
          let none_found =
            find_target-NoTarget e.primary (range order e.databases)
              (λ k n i empty. absurd (
                ground (
                  arith,
                  ready.unnamed,
                  subst (λ j. lookup j e.databases ≡ some n) empty
                      (mem-range order e.databases k n i),
                )))
              ((eq_iff target "").0 failed) in
          rw failed (
            no_other (λ k node there other.
              none_found k node
                (range-mem order e.databases k node there (ready.covers k node there)) other))
      | inr found ↦
          let named : target ≢ "" = ne_of_test target "" found in
          let t = find_target-Target e.primary (range order e.databases) target refl named in
          promote_found e target t.node named (mem-range order e.databases target t.node t.member)
            t.healthy
    ]

promote_primary :
    (e : FailoverEngine) (target : String) → target ≢ "" → (promote target e).primary ≡ target
promote_primary e target named = ground (arith, eq_iff target "", named)

update_node-Ready :
    (order : List String) (e : FailoverEngine) (name : String)
    (change : DatabaseNode → DatabaseNode)
    → Ready order e
    → Ready order
        (record e { databases = update_node name change (lookup name e.databases) e.databases })
update_node-Ready order e name change ready = record {
  automatic = ready.automatic;
  idle = ready.idle;
  covers = λ k node there. elim (Option-cases (lookup k e.databases)) [
    | inl n ↦ absurd (ground (arith, n, there, lookup-update_node name k change e.databases))
    | inr f ↦ ready.covers k f.0 f.1
  ];
  unnamed = rw (lookup-update_node name "" change e.databases, ready.unnamed) (ground arith);
}

update_health-Ready :
    (order : List String) (e : FailoverEngine) (name : String) (resp : Option QueryResponse)
    → Ready order e
    → Ready order (update_health name resp e)
update_health-Ready order e name none ready = ready
update_health-Ready order e name (some resp) ready = elim (Option-cases resp.error) [
  | inl n ↦ rw n (unfold record_success in update_node-Ready order e name _ ready)
  | inr f ↦ rw f.1 (unfold record_failure in update_node-Ready order e name _ ready)
]

stays_up :
    (threshold : ℤ) (node : DatabaseNode)
    → is_down threshold (some node) ≡ false
    → (node.is_healthy ≡ true) ⊎ (node.fail_count <ℤ threshold)
stays_up threshold node h = elim (Bool-cases node.is_healthy) [
  | inl well ↦ inl well
  | inr ill ↦ inr (ground (arith, ill, h))
]

should_failover-Settled :
    (e : FailoverEngine)
    → e.failover_ctx.failover_in_progress ≡ false
    → should_failover e ≡ false
    → Settled e
unfolding should_failover
should_failover-Settled e idle h = elim (Option-cases (lookup e.primary e.databases)) [
  | inl n ↦ absurd (ground (arith, idle, n, h))
  | inr f ↦ up f.0 f.1 (stays_up e.config.failure_threshold f.0 (ground (arith, idle, f.1, h)))
]

fail_over_if-Settled :
    (order : List String) (e : FailoverEngine) → Ready order e → Settled (fail_over_if order e)
fail_over_if-Settled order e ready = elim (Bool-cases (should_failover e)) [
  | inl down ↦
      let test : e.config.enable_auto_failover && should_failover e ≡ true =
        ground (arith, ready.automatic, down) in
      rw test (trigger_failover-Settled order e ready)
  | inr ok ↦
      let test : e.config.enable_auto_failover && should_failover e ≡ false =
        ground (arith, ready.automatic, ok) in
      rw test (should_failover-Settled e ready.idle ok)
]

-- With automatic failover on, after every response the primary is a registered database that is
-- healthy or has failed fewer times than the threshold, or no other database is healthy. No failover is in progress, the order of the loop leaves no database
-- out, and no database has the empty name.
pub process_response-Settled :
    (order : List String) (qc : QueryContext) (e : FailoverEngine)
    → Ready order e
    → Settled (process_response order qc e)
unfolding process_response
process_response-Settled order qc e ready =
    fail_over_if-Settled order (update_health qc.database qc.response e)
      (update_health-Ready order e qc.database qc.response ready)

-- The database of that name is marked as primary.
pub record IsFlagged (name : String) (e : FailoverEngine) : Type 0 where
  pub node : DatabaseNode
  pub stands : lookup name e.databases ≡ some node
  pub flagged : node.is_primary ≡ true

promote-IsFlagged :
    (e : FailoverEngine) (target name : String) (node : DatabaseNode)
    → target ≢ ""
    → lookup name e.databases ≡ some node
    → (target ≡ name) ⊎ (node.is_primary ≡ true)
    → IsFlagged name (promote target e)
promote-IsFlagged e target name node named there why =
    let tested : target == "" ≡ false = ground (arith, eq_iff target "", named) in
    let after = lookup-update_node target name promoted e.databases in
    rw tested (elim (Bool-cases (target == name)) [
      | inl same ↦ record {
        node = promoted node;
        stands = rw (after, there, same) refl;
        flagged = refl;
      }
      | inr other ↦ record {
        node = node;
        stands = rw (after, there, other) refl;
        flagged = ground (arith, why, other, eq_iff target name);
      }
    ])

-- A failover that finds a target makes another database the primary and marks it, and leaves the
-- mark of the old primary: both databases are then marked as primary.
pub trigger_failover-IsFlagged :
    (order : List String) (e : FailoverEngine) (old : DatabaseNode)
    → lookup e.primary e.databases ≡ some old
    → old.is_primary ≡ true
    → find_target e.primary (range order e.databases) ≢ ""
    → ((trigger_failover order e).primary ≢ e.primary)
      × IsFlagged (trigger_failover order e).primary (trigger_failover order e)
      × IsFlagged e.primary (trigger_failover order e)
unfolding trigger_failover
trigger_failover-IsFlagged order e old there flagged named =
    let target = find_target e.primary (range order e.databases) in
    let t = find_target-Target e.primary (range order e.databases) target refl named in
    let stands = mem-range order e.databases target t.node t.member in
    let moved = promote_primary e target named in
    rw moved (
      t.other,
      promote-IsFlagged e target target t.node named stands (inl refl),
      promote-IsFlagged e target e.primary old named there (inr flagged),
    )
