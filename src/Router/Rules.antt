-- ===== src/Router/Rules.antt =====
-- The rule that the router follows.
use mathlib.Core.List.{Memᴰ}
use universal_database_proxy.Prelude.{
  Bool, true, false, String, Option, List, [], ◌∷◌, ◌≡◌, ◌↔◌, ◌⊎◌, refl, ap, arith, inl, inr,
  Bool-cases,
}
use universal_database_proxy.Prelude.Int.{◌≤ℤ◌}
use universal_database_proxy.Types.{QueryContext, RoutingRule}
use universal_database_proxy.Router.{match_rule, find_matching_db}

-- What `sort.Slice` promises of the slice that it leaves: the same rules, by falling priority.
abbrev pub NoneAbove : RoutingRule → List RoutingRule → Type 0
NoneAbove rule rules = (r : RoutingRule) → Memᴰ r rules → r.priority ≤ℤ rule.priority

abbrev pub IsSorted : List RoutingRule → Type 0
IsSorted [] = Unit
IsSorted (rule ∷ rules) = NoneAbove rule rules × IsSorted rules

pub record Sorts (sorted rules : List RoutingRule) : Type 0 where
  pub same : (r : RoutingRule) → Memᴰ r sorted ↔ Memᴰ r rules
  pub falling : IsSorted sorted

module _ (match_string : String → String → Option Bool) (qc : QueryContext) where
  -- The rule that decides: it matches, and no matching rule has a higher priority.
  pub record Decides (rules : List RoutingRule) (rule : RoutingRule) : Type 0 where
    pub listed : Memᴰ rule rules
    pub matches : match_rule match_string rule qc ≡ true
    pub highest :
        (r : RoutingRule)
        → Memᴰ r rules
        → match_rule match_string r qc ≡ true
        → r.priority ≤ℤ rule.priority

  abbrev pub NoMatch : List RoutingRule → Type 0
  NoMatch rules = (r : RoutingRule) → Memᴰ r rules → match_rule match_string r qc ≡ false

  abbrev pub Outcome : List RoutingRule → String → Type 0
  Outcome rules db =
      ((rule : RoutingRule) × Decides rules rule × (db ≡ rule.database))
      ⊎ (NoMatch rules × (db ≡ ""))

  highest_cons :
      (rule : RoutingRule) (rules : List RoutingRule)
      → NoneAbove rule rules
      → NoneAbove rule (rule ∷ rules)
  highest_cons rule rules above r (Memᴰ.head p) =
      rw (ap (λ (x : RoutingRule). x.priority) p) (omega arith)
  highest_cons rule rules above r (Memᴰ.tail i) = above r i

  miss_cons :
      (rule : RoutingRule) (rules : List RoutingRule)
      → match_rule match_string rule qc ≡ false
      → NoMatch rules
      → NoMatch (rule ∷ rules)
  miss_cons rule rules miss h r (Memᴰ.head p) = rw p miss
  miss_cons rule rules miss h r (Memᴰ.tail i) = h r i

  Decides-cons :
      (rule : RoutingRule) (rules : List RoutingRule) (chosen : RoutingRule)
      → match_rule match_string rule qc ≡ false
      → Decides rules chosen
      → Decides (rule ∷ rules) chosen
  Decides-cons rule rules chosen miss d = record {
    listed = Memᴰ.tail d.listed;
    matches = d.matches;
    highest = λ r i m. still r i m;
  }
    where
      still :
          (r : RoutingRule)
          → Memᴰ r (rule ∷ rules)
          → match_rule match_string r qc ≡ true
          → r.priority ≤ℤ chosen.priority
      still r (Memᴰ.head p) m = let q : match_rule match_string r qc ≡ false = rw p miss in cc
      still r (Memᴰ.tail i) m = d.highest r i m

  sorted-Outcome :
      (sorted : List RoutingRule)
      → IsSorted sorted
      → Outcome sorted (find_matching_db match_string sorted qc)
  unfolding find_matching_db
  sorted-Outcome [] s = inr (λ r i. elim i [ ], refl)
  sorted-Outcome (rule ∷ sorted) s = elim (Bool-cases (match_rule match_string rule qc)) [
    | inl hit ↦ inl (
      rule,
      record {
        listed = Memᴰ.head refl;
        matches = hit;
        highest = λ r i _. highest_cons rule sorted s.0 r i;
      },
      ground arith,
    )
    | inr miss ↦ elim (sorted-Outcome sorted s.1) [
      | inl (chosen, d, e) ↦ inl (chosen, Decides-cons rule sorted chosen miss d, ground (arith, e))
      | inr (h, e) ↦ inr (miss_cons rule sorted miss h, ground (arith, e))
    ]
  ]

  -- However `sort.Slice` orders rules of equal priority, the database is that of a matching rule
  -- with the highest priority among the matching rules, or empty if no rule matches.
  pub find_matching_db-Outcome :
      (rules sorted : List RoutingRule)
      → Sorts sorted rules
      → Outcome rules (find_matching_db match_string sorted qc)
  find_matching_db-Outcome rules sorted s = elim (sorted-Outcome sorted s.falling) [
    | inl (rule, d, e) ↦ inl (
      rule,
      record {
        listed = (s.same rule).0 d.listed;
        matches = d.matches;
        highest = λ r i m. d.highest r ((s.same r).1 i) m;
      },
      e,
    )
    | inr (h, e) ↦ inr (λ r i. h r ((s.same r).1 i), e)
  ]
