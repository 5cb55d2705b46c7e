-- ===== src/SecurityEngine/Rules.antt =====
-- Which rule of the security engine decides, and the changes of its rule list.
use universal_database_proxy.Prelude.{
  true, false, String, List, [], ◌∷◌, ◌++◌, ◌≡◌, refl, arith, string_eq, eq_iff,
}
use universal_database_proxy.Types.{QueryContext, SecurityRule}
use universal_database_proxy.SecurityEngine.{
  TextLib, match_rule, apply_rule, check_query, check_rules, process, remove_rule,
}

-- No rule of the list matches the query.
abbrev pub Unmatched : TextLib → String → List SecurityRule → Type 0
Unmatched lib query [] = Unit
Unmatched lib query (r ∷ rules) = (match_rule lib query r ≡ false) × Unmatched lib query rules

-- The first rule that matches is `rule`.
pub record FirstMatch (lib : TextLib) (query : String) (rules : List SecurityRule)
    (rule : SecurityRule) : Type 0 where
  pub before : List SecurityRule
  pub after : List SecurityRule
  pub split : rules ≡ before ++ rule ∷ after
  pub passed_over : Unmatched lib query before
  pub matches : match_rule lib query rule ≡ true

module _ (lib : TextLib) where
  pub check_rules-Unmatched :
      (rules : List SecurityRule) (qc : QueryContext)
      → Unmatched lib qc.raw_query rules
      → check_rules lib rules qc ≡ check_query lib qc
  unfolding check_rules
  check_rules-Unmatched [] qc h = refl
  check_rules-Unmatched (r ∷ rules) qc h = ground (arith, check_rules-Unmatched rules qc)

  pub check_rules-split :
      (before : List SecurityRule) (rule : SecurityRule) (after : List SecurityRule)
      (qc : QueryContext)
      → Unmatched lib qc.raw_query before
      → match_rule lib qc.raw_query rule ≡ true
      → check_rules lib (before ++ rule ∷ after) qc ≡ apply_rule rule qc
  unfolding check_rules
  check_rules-split [] rule after qc h m = ground arith
  check_rules-split (r ∷ before) rule after qc h m =
      ground (arith, check_rules-split before rule after qc)

  check_rules-remove_rule :
      (rules : List SecurityRule) (name : String) (qc : QueryContext)
      → ((r : SecurityRule) → r.name ≡ name → match_rule lib qc.raw_query r ≡ false)
      → check_rules lib (remove_rule rules name) qc ≡ check_rules lib rules qc
  unfolding check_rules remove_rule
  check_rules-remove_rule [] name qc h = refl
  check_rules-remove_rule (r ∷ rules) name qc h =
      ground (arith, h r, eq_iff r.name name, check_rules-remove_rule rules name qc h)

  -- Removing the rules of a name changes nothing for a query that no rule of that name matches.
  pub process-remove_rule :
      (rules : List SecurityRule) (name : String) (qc : QueryContext)
      → ((r : SecurityRule) → r.name ≡ name → match_rule lib qc.raw_query r ≡ false)
      → process lib (remove_rule rules name) qc ≡ process lib rules qc
  unfolding process
  process-remove_rule rules name qc h = rw (check_rules-remove_rule rules name qc h)
