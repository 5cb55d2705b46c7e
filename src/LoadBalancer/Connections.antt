-- ===== src/LoadBalancer/Connections.antt =====
-- The connection counts over a query and its response.
use universal_database_proxy.Prelude.{
  ℕ, ◌<◌, true, false, List, String, Option, some, ◌≡◌, ◌≢◌, refl, ap, sym, ◌∙◌, arith,
  if◌then◌else◌, ◌==◌, string_eq, eq_iff, Option-cases, Bool-cases, inl, inr,
}
use mathlib.Core.Option
use mathlib.Core.Path.{subst}
use universal_database_proxy.Prelude.Int.{ℤ, pos, incr, decr, decr-incr, ltb_ℤ}
use universal_database_proxy.Prelude.Result.{Go, done, panic, blocked, ◌>>=◌}
use universal_database_proxy.GoMap.{GoMap, lookup, insert}
use universal_database_proxy.GoMap.Laws.{lookup-insert}
use universal_database_proxy.Types.{
  EngineResult, QueryContext, QueryResponse, continue_result, string_value, lookup_meta, make_meta,
}
use universal_database_proxy.LoadBalancer.{
  process, select_node, LbNode, LoadBalancerEngine, change_node, joined, left_by, process_target,
  process_response, target_of,
}

lookup-change_node :
    (name j : String) (change : LbNode → LbNode) (m : GoMap String LbNode)
    → lookup j (change_node name change (lookup name m) m)
      ≡ (if name == j then Option.map change (lookup j m) else lookup j m)
lookup-change_node name j change m = elim (Option-cases (lookup name m)) [
  | inl n ↦ ground (arith, n, eq_iff name j)
  | inr f ↦ ground (arith, f.1, lookup-insert name j (change f.0) m, eq_iff name j)
]

-- The number of connections of a node, as far as it is known.
abbrev pub connections_of : String → LoadBalancerEngine → Option ℤ
connections_of name e = Option.map (λ (n : LbNode). n.connections) (lookup name e.nodes)

-- The counts are not negative, and far enough from the largest int.
abbrev pub IsCounting : LoadBalancerEngine → Type 0
IsCounting e =
    (name : String) (node : LbNode)
    → lookup name e.nodes ≡ some node
    → (n : ℕ) × (n < 9223372036854775807) × (node.connections ≡ pos n)

-- `qc'` is the query that `Process` passed on, with the response that was put into it.
abbrev pub answered : QueryContext → QueryResponse → QueryContext
answered qc resp = record qc { response = some resp }

left_by-joined :
    (duration : ℤ) (node : LbNode) (n : ℕ)
    → n < 9223372036854775807
    → node.connections ≡ pos n
    → (left_by duration (joined node)).connections ≡ node.connections
left_by-joined duration node n small h =
    let back : decr (incr node.connections) ≡ node.connections =
      ap (λ z. decr (incr z)) h ∙ (decr-incr n small ∙ sym h) in
    elim (Bool-cases (ltb_ℤ (pos 0) duration)) [
      | inl long ↦ rw long back
      | inr short ↦ rw short back
    ]

abbrev joined_nodes : String → GoMap String LbNode → GoMap String LbNode
joined_nodes target m = change_node target joined (lookup target m) m

-- A node joined and then left has as many connections as before.
left-joined :
    (target : String) (duration : ℤ) (e : LoadBalancerEngine) (name : String)
    → IsCounting e
    → Option.map
        (λ (n : LbNode). n.connections)
        (lookup name (
          change_node target
            (left_by duration)
            (lookup target (joined_nodes target e.nodes))
            (joined_nodes target e.nodes)))
      ≡ connections_of name e
left-joined target duration e name counting =
    let outer = lookup-change_node target name (left_by duration) (joined_nodes target e.nodes) in
    let inner = lookup-change_node target name joined e.nodes in
    elim (Option-cases (lookup name e.nodes)) [
      | inl gone ↦ rw (outer, inner, gone) (ground arith)
      | inr f ↦
          let c = counting name f.0 f.1 in
          let back = left_by-joined duration f.0 c.0 c.1 c.2 in
          elim (Bool-cases (target == name)) [
            | inl same ↦ rw (outer, inner, f.1, same) (ap (λ z. some z) back)
            | inr other ↦ rw (outer, inner, f.1, other) refl
          ]
    ]

-- The engine and the query that `Process` leaves for a target.
record IsRouted (target : String) (e : LoadBalancerEngine) (resp : QueryResponse)
    (after : LoadBalancerEngine) (qc : QueryContext) : Type 0 where
  nodes : after.nodes ≡ joined_nodes target e.nodes
  response : qc.response ≡ some resp
  noted : target_of (lookup_meta "load_balance_target" qc.metadata) ≡ target

process_target-IsRouted :
    (target : String) (e : LoadBalancerEngine) (qc : QueryContext) (resp : QueryResponse)
    → target ≢ ""
    → IsRouted target e resp
        (process_target target e qc).0
        (answered (process_target target e qc).1 resp)
unfolding process_target
process_target-IsRouted target e qc resp named =
    let tested : target == "" ≡ false = ground (arith, eq_iff target "", named) in
    let m = make_meta qc.metadata in
    rw tested (record {
      nodes = refl;
      response = refl;
      noted =
          rw
            (
              lookup-insert "load_balance_strategy" "load_balance_target" (string_value e.strategy)
                  (insert "load_balance_target" (string_value target) m),
              lookup-insert "load_balance_target" "load_balance_target" (string_value target) m,
            )
            refl;
    })

routed_return :
    (target : String) (e after : LoadBalancerEngine) (qc : QueryContext) (resp : QueryResponse)
    (name : String)
    → IsRouted target e resp after qc
    → IsCounting e
    → connections_of name (process_response qc after) ≡ connections_of name e
unfolding process_response
routed_return target e after qc resp name r counting =
    rw (r.noted, r.response, r.nodes) (left-joined target resp.duration e name counting)

result_inj : {A : Type 0} (a b : A) → done a ≡ done b → a ≡ b
result_inj a b h = ap (λ g. elim g [ done x ↦ x | panic ↦ a | blocked ↦ a ]) h

target_return :
    (target : String) (e after : LoadBalancerEngine) (qc qc' : QueryContext) (res : EngineResult)
    (resp : QueryResponse) (name : String)
    → process_target target e qc ≡ (after, qc', res)
    → res.continues ≡ true
    → IsCounting e
    → connections_of name (process_response (answered qc' resp) after) ≡ connections_of name e
target_return target e after qc qc' res resp name ran goes_on counting =
    elim (Bool-cases (target == "")) [
      | inl empty ↦
          let refused : (process_target target e qc).2.continues ≡ false =
            unfold process_target in rw empty refl in
          absurd (ground (arith, refused, goes_on, ap (λ x. x.2.continues) ran))
      | inr full ↦
          let routed =
            process_target-IsRouted target e qc resp
              (λ empty. ground (arith, full, eq_iff target "", empty)) in
          subst
            (λ x.
              connections_of name (process_response (answered x.1 resp) x.0)
              ≡ connections_of name e)
            ran (routed_return target e _ _ resp name routed counting)
    ]

process-enabled :
    (order : List String) (e : LoadBalancerEngine) (qc : QueryContext)
    → e.config.enabled ≡ true
    → process order e qc ≡ (select_node order e >>= λ target. done (process_target target e qc))
unfolding process
process-enabled order e qc h =
    ap
      (λ b.
        if b
        then (select_node order e >>= λ target. done (process_target target e qc))
        else done (e, qc, continue_result))
      h

result_of_bind :
    {A B : Type 0} (g : Go A) (f : A → B) (b : B)
    → (g >>= λ a. done (f a)) ≡ done b
    → (a : A) × (f a ≡ b)
result_of_bind (done a) f b h = (a, result_inj (f a) b h)
result_of_bind panic f b h = absurd (ground (arith, h))
result_of_bind blocked f b h = absurd (ground (arith, h))

target_of_run :
    (order : List String) (e : LoadBalancerEngine) (qc : QueryContext)
    (r : LoadBalancerEngine × QueryContext × EngineResult)
    → e.config.enabled ≡ true
    → process order e qc ≡ done r
    → (target : String) × (process_target target e qc ≡ r)
target_of_run order e qc r enabled ran =
    result_of_bind (select_node order e) (λ target. process_target target e qc) r
      (sym (process-enabled order e qc enabled) ∙ ran)

-- A query that the enabled engine routes to a node and the response to it leave every node with as
-- many connections as before. The counts are not negative and below the largest int.
pub process-process_response :
    (order : List String) (e after : LoadBalancerEngine) (qc qc' : QueryContext)
    (res : EngineResult) (resp : QueryResponse) (name : String)
    → e.config.enabled ≡ true
    → process order e qc ≡ done (after, qc', res)
    → res.continues ≡ true
    → IsCounting e
    → connections_of name (process_response (answered qc' resp) after) ≡ connections_of name e
process-process_response order e after qc qc' res resp name enabled ran goes_on counting =
    let chosen = target_of_run order e qc (after, qc', res) enabled ran in
    target_return chosen.0 e after qc qc' res resp name chosen.1 goes_on counting
