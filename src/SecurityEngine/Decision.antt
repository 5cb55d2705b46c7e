-- ===== src/SecurityEngine/Decision.antt =====
-- When the security engine stops a query, and what a mask rule does from the query to its response.
use universal_database_proxy.Prelude.{
  ℕ, true, false, String, Option, none, some, List, [], ◌∷◌, ◌≡◌, ◌≢◌, ◌⊎◌, refl, ap, arith,
  Bool-cases, inl, inr, string_eq, eq_iff, get_elem?,
}
use universal_database_proxy.Prelude.Result.{done, panic}
use universal_database_proxy.GoMap.{insert}
use universal_database_proxy.GoMap.Laws.{lookup-insert}
use universal_database_proxy.Types.{
  Value, bool_value, strings_value, Metadata, QueryContext, QueryResponse, EngineResult,
  continue_result, SecurityRule, SecurityAction, deny, mask, allow, log, custom_action,
}
use universal_database_proxy.SecurityEngine.{
  TextLib, match_rule, apply_action, apply_rule, check_query, process, process_response, mask_rows,
  process_rows, detect_sql_injection, contains_dangerous_functions, injection_result,
  dangerous_result, denied_result,
}
use universal_database_proxy.SecurityEngine.Rules.{
  Unmatched, FirstMatch, check_rules-Unmatched, check_rules-split,
}
use universal_database_proxy.SecurityEngine.Masking.{cell, is_masked, mask_if, cell-mask_rows}

-- The reasons to refuse a query, with the result that the client gets.
pub data Refuses (lib : TextLib) (rules : List SecurityRule) (query : String)
    : EngineResult → Type 0 where
  by_rule :
      (rule : SecurityRule)
      → FirstMatch lib query rules rule
      → rule.action ≡ deny
      → Refuses lib rules query (denied_result rule)
  by_injection :
      Unmatched lib query rules
      → detect_sql_injection lib query ≡ true
      → Refuses lib rules query injection_result
  by_function :
      Unmatched lib query rules
      → detect_sql_injection lib query ≡ false
      → contains_dangerous_functions lib query ≡ true
      → Refuses lib rules query dangerous_result

Refuses-continues :
    {lib : TextLib} {rules : List SecurityRule} {query : String} {res : EngineResult}
    → Refuses lib rules query res
    → res.continues ≡ false
Refuses-continues (Refuses.by_rule rule f a) = refl
Refuses-continues (Refuses.by_injection h d) = refl
Refuses-continues (Refuses.by_function h d f) = refl

-- The query that a mask rule leaves.
abbrev pub masked_query : SecurityRule → Metadata → QueryContext → QueryContext
masked_query rule m qc = record qc {
  metadata =
      some (
        insert "mask_fields" (strings_value rule.mask_fields)
          (insert "masked" (bool_value true) m));
}

-- A cell of the response that a query carries.
abbrev pub response_cell : QueryContext → ℕ → ℕ → Option Value
response_cell qc i j = elim qc.response [
  | none ↦ none
  | some resp ↦ elim resp.rows [ none ↦ none | some rows ↦ cell rows i j ]
]

-- Either no rule matches, or there is a first that does.
pub first_match :
    (lib : TextLib) (query : String) (rules : List SecurityRule)
    → Unmatched lib query rules ⊎ ((rule : SecurityRule) × FirstMatch lib query rules rule)
first_match lib query [] = inl tt
first_match lib query (r ∷ rules) = elim (Bool-cases (match_rule lib query r)) [
  | inl hit ↦
      inr (r, record { before = []; after = rules; split = refl; passed_over = tt; matches = hit })
  | inr miss ↦ elim (first_match lib query rules) [
    | inl h ↦ inl (miss, h)
    | inr (rule, f) ↦ inr (
      rule,
      record {
        before = r ∷ f.before;
        after = f.after;
        split = ap (λ l. r ∷ l) f.split;
        passed_over = (miss, f.passed_over);
        matches = f.matches;
      },
    )
  ]
]

-- The response of a query that a mask rule left.
process_rows-masked_query :
    (rule : SecurityRule) (m : Metadata) (resp : QueryResponse) (rows : List (List Value))
    → rule.mask_fields ≢ []
    → process_rows
        (some (
          insert "mask_fields"
            (strings_value rule.mask_fields)
            (insert "masked" (bool_value true) m)))
        resp
        (some rows)
      ≡ record resp { rows = some (mask_rows rule.mask_fields resp.columns 0 rows) }
process_rows-masked_query rule m resp rows fields = simp lookup-insert (ground arith)

response_cell-masked_query :
    (rule : SecurityRule) (m : Metadata) (qc : QueryContext) (resp : QueryResponse)
    (rows : List (List Value)) (i j : ℕ) {row : List Value}
    → rule.mask_fields ≢ []
    → resp.rows ≡ some rows
    → get_elem? rows i ≡ some row
    → response_cell
        (process_response (record (masked_query rule m qc) { response = some resp })).0
        i
        j
      ≡ mask_if (is_masked rule.mask_fields resp.columns i j row) (get_elem? row j)
unfolding process_response
response_cell-masked_query rule m qc resp rows i j fields data_rows at_i =
    simp (data_rows, process_rows-masked_query rule m resp rows fields)
      (cell-mask_rows rule.mask_fields resp.columns rows i j at_i)

module _ (lib : TextLib) (rules : List SecurityRule) (qc : QueryContext) where
  process-FirstMatch :
      (rule : SecurityRule)
      → qc.raw_query ≢ ""
      → FirstMatch lib qc.raw_query rules rule
      → process lib rules qc ≡ apply_rule rule qc
  unfolding process
  process-FirstMatch rule text f =
      rw f.split
        (ground (arith, eq_iff qc.raw_query "", check_rules-split lib f.before rule f.after qc))

  process-Unmatched :
      qc.raw_query ≢ ""
      → Unmatched lib qc.raw_query rules
      → process lib rules qc ≡ check_query lib qc
  unfolding process
  process-Unmatched text h =
      ground (arith, eq_iff qc.raw_query "", check_rules-Unmatched lib rules qc)

  action_refuses :
      (a : SecurityAction) (rule : SecurityRule) (qc' : QueryContext) (res : EngineResult)
      → apply_action a rule qc ≡ done (qc', res)
      → res.continues ≡ false
      → (a ≡ deny) × (res ≡ denied_result rule) × (qc' ≡ qc)
  unfolding apply_action
  action_refuses deny rule qc' res ran off = ground arith
  action_refuses _ rule qc' res ran off = ground arith

  apply_refuses :
      (rule : SecurityRule) (qc' : QueryContext) (res : EngineResult)
      → apply_rule rule qc ≡ done (qc', res)
      → res.continues ≡ false
      → (rule.action ≡ deny) × (res ≡ denied_result rule) × (qc' ≡ qc)
  unfolding apply_rule
  apply_refuses rule = action_refuses rule.action rule

  check-Refuses :
      (qc' : QueryContext) (res : EngineResult)
      → Unmatched lib qc.raw_query rules
      → check_query lib qc ≡ done (qc', res)
      → res.continues ≡ false
      → Refuses lib rules qc.raw_query res × (qc' ≡ qc)
  unfolding check_query
  check-Refuses qc' res h ran off = elim (Bool-cases (detect_sql_injection lib qc.raw_query)) [
    | inl d ↦
        let e : (res ≡ injection_result) × (qc' ≡ qc) = ground arith in
        (rw e.0 (Refuses.by_injection h d), e.1)
    | inr d ↦ elim (Bool-cases (contains_dangerous_functions lib qc.raw_query)) [
      | inl f ↦
          let e : (res ≡ dangerous_result) × (qc' ≡ qc) = ground arith in
          (rw e.0 (Refuses.by_function h d f), e.1)
      | inr f ↦ ground arith
    ]
  ]

  pub refused_has_reason :
      (qc' : QueryContext) (res : EngineResult)
      → qc.raw_query ≢ ""
      → process lib rules qc ≡ done (qc', res)
      → res.continues ≡ false
      → Refuses lib rules qc.raw_query res × (qc' ≡ qc)
  refused_has_reason qc' res text ran off = elim (first_match lib qc.raw_query rules) [
    | inl h ↦ check-Refuses qc' res h (rw (process-Unmatched text h) at ran) off
    | inr (rule, f) ↦
        let e = apply_refuses rule qc' res (rw (process-FirstMatch rule text f) at ran) off in
        (rw e.1 (Refuses.by_rule rule f e.0), e.2)
  ]

  pub reason-Refuses :
      (res : EngineResult)
      → qc.raw_query ≢ ""
      → Refuses lib rules qc.raw_query res
      → process lib rules qc ≡ done (qc, res)
  unfolding apply_rule apply_action check_query
  reason-Refuses res text (Refuses.by_rule rule f a) =
      rw (process-FirstMatch rule text f) (ground arith)
  reason-Refuses res text (Refuses.by_injection h d) = rw (process-Unmatched text h) (ground arith)
  reason-Refuses res text (Refuses.by_function h d f) = rw (process-Unmatched text h) (ground arith)

  -- A query with text is refused exactly when its first matching rule says DENY, or no rule matches
  -- and the injection check or, failing that, the check for dangerous functions finds something:
  -- a refusal has such a reason, with the reason's result and the query unchanged, and each reason
  -- leads to its refusal.
  pub process-Refuses_iff :
      (res : EngineResult)
      → qc.raw_query ≢ ""
      → ((qc' : QueryContext)
          → process lib rules qc ≡ done (qc', res)
          → res.continues ≡ false
          → Refuses lib rules qc.raw_query res × (qc' ≡ qc))
        × (Refuses lib rules qc.raw_query res
            → (process lib rules qc ≡ done (qc, res)) × (res.continues ≡ false))
  process-Refuses_iff res text = (
    λ qc' ran off. refused_has_reason qc' res text ran off,
    λ why. (reason-Refuses res text why, Refuses-continues why),
  )

  action_passes :
      (a : SecurityAction) (rule : SecurityRule) (m : Metadata)
      → qc.metadata ≡ some m
      → a ≢ deny
      → (qc' : QueryContext) × (apply_action a rule qc ≡ done (qc', continue_result))
        × (qc'.raw_query ≡ qc.raw_query)
  unfolding apply_action
  action_passes allow rule m meta nd = (qc, refl, refl)
  action_passes deny rule m meta nd = absurd (nd refl)
  action_passes mask rule m meta nd = (masked_query rule m qc, ground arith, refl)
  action_passes log rule m meta nd = (qc, refl, refl)
  action_passes (custom_action _) rule m meta nd = (qc, refl, refl)

  -- The first matching rule shadows the later rules and both built-in checks: unless it says DENY,
  -- a query whose metadata is not nil passes with its text unchanged, whatever the later rules and
  -- the checks say of it.
  pub process_shadowed :
      (rule : SecurityRule) (m : Metadata)
      → qc.raw_query ≢ ""
      → qc.metadata ≡ some m
      → FirstMatch lib qc.raw_query rules rule
      → rule.action ≢ deny
      → (qc' : QueryContext) × (process lib rules qc ≡ done (qc', continue_result))
        × (qc'.raw_query ≡ qc.raw_query)
  unfolding apply_rule
  process_shadowed rule m text meta f not_deny =
      rw (process-FirstMatch rule text f) (action_passes rule.action rule m meta not_deny)

  -- A query that a mask rule matches first, and whose metadata is nil, makes the engine panic.
  pub process_panics :
      (rule : SecurityRule)
      → qc.raw_query ≢ ""
      → qc.metadata ≡ none
      → FirstMatch lib qc.raw_query rules rule
      → rule.action ≡ mask
      → process lib rules qc ≡ panic
  unfolding apply_rule apply_action
  process_panics rule text meta f m = rw (process-FirstMatch rule text f) (ground arith)

  -- From a mask rule to the client: for a query with a text and metadata, where the first matching
  -- rule says MASK and names a field, the query passes, and of the response to it a cell in row `i` and column `j` is masked if the column's name is one of
  -- the rule's fields and row `i` has more than `i` cells, and is unchanged otherwise.
  pub mask_flow :
      (rule : SecurityRule) (m : Metadata) (resp : QueryResponse) (rows : List (List Value))
      (i j : ℕ) {row : List Value}
      → qc.raw_query ≢ ""
      → qc.metadata ≡ some m
      → FirstMatch lib qc.raw_query rules rule
      → rule.action ≡ mask
      → rule.mask_fields ≢ []
      → resp.rows ≡ some rows
      → get_elem? rows i ≡ some row
      → (process lib rules qc ≡ done (masked_query rule m qc, continue_result))
        × (response_cell
              (process_response (record (masked_query rule m qc) { response = some resp })).0
              i
              j
            ≡ mask_if (is_masked rule.mask_fields resp.columns i j row) (get_elem? row j))
  unfolding apply_rule apply_action
  mask_flow rule m resp rows i j text meta f a fields data_rows at_i = (
    rw (process-FirstMatch rule text f) (ground arith),
    response_cell-masked_query rule m qc resp rows i j fields data_rows at_i,
  )
