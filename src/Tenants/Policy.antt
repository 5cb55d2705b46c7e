-- ===== src/Tenants/Policy.antt =====
-- What an access policy permits, and what a quota leaves, stated without the code's tests.
use mathlib.Core.List.{Memᴰ}
use universal_database_proxy.Prelude.{
  Bool, true, false, not, ◌&&◌, ◌||◌, String, List, [], ◌∷◌, ◌≡◌, ◌⊎◌, refl, sym, arith,
  if◌then◌else◌, ◌==◌, string_eq, eq_iff, mem, Bool-cases, inl, inr,
}
use mathlib.Core.Path.{subst}
use universal_database_proxy.Prelude.Int.{ℤ, pos, ◌+ℤ◌, ◌≤ℤ◌, ◌<ℤ◌, wrap64}
use universal_database_proxy.Bytes.{utf8}
use universal_database_proxy.Bytes.Search.{Occurs}
use universal_database_proxy.Types.{QueryContext}
use universal_database_proxy.Tenants.{TenantQuota, AccessPolicy, mentions}
use universal_database_proxy.Tenants.Checks.{
  allowed, any_mentioned, is_empty, command_of, validate_access_policy, check_limits,
}
use universal_database_proxy.Tenants.Search.{contains_string_iff}

-- The word stands somewhere in the query.
abbrev pub Mentions : String → String → Type 0
Mentions query word = Occurs (utf8 query) (utf8 word)

pub record MentionsAny (query : String) (words : List String) : Type 0 where
  pub word : String
  pub listed : Memᴰ word words
  pub found : Mentions query word

MentionsAny-cons :
    (query w : String) (words : List String)
    → MentionsAny query words
    → MentionsAny query (w ∷ words)
MentionsAny-cons query w words m = record {
  word = m.word;
  listed = Memᴰ.tail m.listed;
  found = m.found;
}

any_mentioned-MentionsAny :
    (query : String) (words : List String)
    → any_mentioned query words ≡ true
    → MentionsAny query words
any_mentioned-MentionsAny query [] h = absurd (ground (arith, h))
any_mentioned-MentionsAny query (w ∷ words) h = elim (Bool-cases (mentions query w)) [
  | inl yes_here ↦ record {
    word = w;
    listed = Memᴰ.head refl;
    found = (contains_string_iff (utf8 query) (utf8 w)).0 yes_here;
  }
  | inr not_here ↦
      MentionsAny-cons query w words
        (any_mentioned-MentionsAny query words (rw (not_here, if◌then◌else◌) at h))
]

any_mentioned-Memᴰ :
    (query word : String) (words : List String)
    → Memᴰ word words
    → Mentions query word
    → any_mentioned query words ≡ true
any_mentioned-Memᴰ query word [] i m = elim i [ ]
any_mentioned-Memᴰ query word (w ∷ words) (Memᴰ.head p) m =
    let here : mentions query w ≡ true =
      subst (λ v. mentions query v ≡ true) p ((contains_string_iff (utf8 query) (utf8 word)).1 m) in
    ground (arith, here)
any_mentioned-Memᴰ query word (w ∷ words) (Memᴰ.tail i) m =
    ground (arith, any_mentioned-Memᴰ query word words i m)

mem-Memᴰ : (a : String) (l : List String) → mem a l ≡ true → Memᴰ a l
mem-Memᴰ a [] h = absurd (ground (arith, h))
mem-Memᴰ a (x ∷ l) h = elim (Bool-cases (x == a)) [
  | inl same ↦ Memᴰ.head (sym ((eq_iff x a).0 same))
  | inr other ↦ Memᴰ.tail (mem-Memᴰ a l (rw (other, if◌then◌else◌) at h))
]

Memᴰ-mem : (a : String) (l : List String) → Memᴰ a l → mem a l ≡ true
Memᴰ-mem a [] i = elim i [ ]
Memᴰ-mem a (x ∷ l) (Memᴰ.head p) = ground (arith, (eq_iff x a).1 (sym p))
Memᴰ-mem a (x ∷ l) (Memᴰ.tail i) = ground (arith, Memᴰ-mem a l i)

is_empty-eq : (l : List String) → is_empty l ≡ true → l ≡ []
is_empty-eq [] h = refl
is_empty-eq (x ∷ l) h = absurd (ground (arith, h))

-- A policy permits a query: its command is listed, unless none is; it mentions no blocked table;
-- and it mentions an allowed table, unless none is listed.
pub record Permits (qc : QueryContext) (policy : AccessPolicy) : Type 0 where
  pub command :
      (policy.allowed_commands ≡ []) ⊎ Memᴰ (command_of qc.operation) policy.allowed_commands
  pub unblocked : (word : String) → Memᴰ word policy.blocked_tables → Mentions qc.raw_query word → ⊥
  pub table : (policy.allowed_tables ≡ []) ⊎ MentionsAny qc.raw_query policy.allowed_tables

command_listed :
    (command : String) (commands : List String)
    → not (is_empty commands) && not (mem command commands) ≡ false
    → (commands ≡ []) ⊎ Memᴰ command commands
command_listed command [] h = inl refl
command_listed command (c ∷ commands) h = inr (mem-Memᴰ command (c ∷ commands) (ground (arith, h)))

listed_command :
    (command : String) (commands : List String)
    → (commands ≡ []) ⊎ Memᴰ command commands
    → not (is_empty commands) && not (mem command commands) ≡ false
listed_command command [] h = refl
listed_command command (c ∷ commands) (inl none_listed) = absurd (ground (arith, none_listed))
listed_command command (c ∷ commands) (inr i) = ground (arith, Memᴰ-mem command (c ∷ commands) i)

table_found :
    (query : String) (tables : List String)
    → is_empty tables || any_mentioned query tables ≡ true
    → (tables ≡ []) ⊎ MentionsAny query tables
table_found query [] h = inl refl
table_found query (t ∷ tables) h = inr (any_mentioned-MentionsAny query (t ∷ tables) h)

found_table :
    (query : String) (tables : List String)
    → (tables ≡ []) ⊎ MentionsAny query tables
    → is_empty tables || any_mentioned query tables ≡ true
found_table query [] h = refl
found_table query (t ∷ tables) (inl none_listed) = absurd (ground (arith, none_listed))
found_table query (t ∷ tables) (inr m) =
    any_mentioned-Memᴰ query m.word (t ∷ tables) m.listed m.found

pub validate-Permits :
    (qc : QueryContext) (policy : AccessPolicy)
    → validate_access_policy qc policy ≡ true
    → Permits qc policy
unfolding validate_access_policy
validate-Permits qc policy h = record {
  command = command_listed (command_of qc.operation) policy.allowed_commands (ground (arith, h));
  unblocked =
      λ word i m. ground (arith, h, any_mentioned-Memᴰ qc.raw_query word policy.blocked_tables i m);
  table = table_found qc.raw_query policy.allowed_tables (ground (arith, h));
}

not_blocked :
    (query : String) (words : List String)
    → ((word : String) → Memᴰ word words → Mentions query word → ⊥)
    → any_mentioned query words ≡ false
not_blocked query words h = elim (Bool-cases (any_mentioned query words)) [
  | inl found ↦
      let m = any_mentioned-MentionsAny query words found in absurd (h m.word m.listed m.found)
  | inr clean ↦ clean
]

pub Permits-validate :
    (qc : QueryContext) (policy : AccessPolicy)
    → Permits qc policy
    → validate_access_policy qc policy ≡ true
unfolding validate_access_policy
Permits-validate qc policy p =
    rw
      (
        listed_command (command_of qc.operation) policy.allowed_commands p.command,
        not_blocked qc.raw_query policy.blocked_tables p.unblocked,
      )
      (found_table qc.raw_query policy.allowed_tables p.table)

-- A query is within a quota: fewer queries are counted than the daily limit, if that is positive,
-- and, where rows are limited and expected, they fit in what is left of the row limit.
pub record WithinQuota (row_limit : Bool) (rows : ℤ) (q : TenantQuota) : Type 0 where
  pub queries :
      pos 0 <ℤ q.limits.daily_query_limit → q.current_queries <ℤ q.limits.daily_query_limit
  pub row_count :
      row_limit ≡ true
      → pos 0 <ℤ rows
      → pos 0 <ℤ q.limits.daily_row_limit
      → wrap64 (q.current_rows +ℤ rows) ≤ℤ q.limits.daily_row_limit

pub check_limits-WithinQuota :
    (row_limit : Bool) (rows : ℤ) (q : TenantQuota)
    → check_limits row_limit rows q ≡ allowed
    → WithinQuota row_limit rows q
check_limits-WithinQuota row_limit rows q h = record {
  queries = λ p. ground (arith, h, p);
  row_count = λ on p limited. ground (arith, h, on, p, limited);
}

pub WithinQuota-check_limits :
    (row_limit : Bool) (rows : ℤ) (q : TenantQuota)
    → WithinQuota row_limit rows q
    → check_limits row_limit rows q ≡ allowed
WithinQuota-check_limits row_limit rows q w = ground (arith, w.queries, w.row_count)
