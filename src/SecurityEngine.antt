-- ===== src/SecurityEngine.antt =====
-- backend/internal/engines/security_engine.go: the rules, the SQL injection check and the masking
-- of results.
pub mod Rules
pub mod Decision
pub mod Masking
use Prim.Native.String.{String}
use text.Mathlib.Text.{find?}
use universal_database_proxy.Prelude.{
  ℕ, suc, Bool, true, false, not, ◌&&◌, ◌||◌, Option, none, some, List, [], ◌∷◌, ◌++◌,
  if◌then◌else◌, ◌==◌, string_eq, nat_eq, ltb, length, set, mem,
}
use universal_database_proxy.Prelude.Result.{Go, done, ◌>>=◌}
use universal_database_proxy.GoMap.{insert}
use universal_database_proxy.Types.{
  Value, bool_value, string_value, strings_value, Metadata, QueryResponse, QueryContext,
  EngineResult, continue_result, SecurityAction, allow, deny, mask, log, custom_action,
  SecurityRule, lookup_meta, insert_meta,
}
use universal_database_proxy.Pipeline.{Step}

-- What the engine uses of the packages `regexp` and `strings`: `match_string pattern text` is
-- `none` if the pattern does not compile.
pub record TextLib : Type 0 where
  pub match_string : String → String → Option Bool
  pub to_lower : String → String

-- `strings.Contains`
abbrev pub contains : String → String → Bool
contains s sub = elim (find? s sub) [ none ↦ false | some _ ↦ true ]

pub sql_injection_patterns : List String
sql_injection_patterns =
    "(?i)'(\\s*or\\s*'?\\d*'?\\s*=\\s*'?\\\\?\\\\d)" ∷ "(?i)'(\\s*or\\s+\\w+\\s*=\\s*\\w+)"
    ∷ "(?i)union\\s+select" ∷ "(?i)union\\s+all\\s+select" ∷ "(?i)insert\\s+into"
    ∷ "(?i)drop\\s+table" ∷ "(?i)delete\\s+from" ∷ "(?i)update\\s+\\w+\\s+set"
    ∷ "(?i)alter\\s+table" ∷ "--\\s*$" ∷ "/\\*.*\\*/" ∷ ";\\s*drop" ∷ []

pub dangerous_functions : List String
dangerous_functions =
    "exec(" ∷ "execute(" ∷ "eval(" ∷ "system(" ∷ "xp_cmdshell" ∷ "sp_executesql" ∷ []

-- `err == nil && matched`
abbrev pub matched : Option Bool → Bool
matched none = false
matched (some b) = b

-- `action: deny`, the metadata of a refusal without a rule
abbrev pub deny_metadata : Metadata
deny_metadata = ("action", string_value "deny") ∷ []

abbrev pub injection_result : EngineResult
injection_result = record {
  continues = false;
  modified = false;
  error = some "potential SQL injection detected";
  metadata = some deny_metadata;
}

abbrev pub dangerous_result : EngineResult
dangerous_result = record {
  continues = false;
  modified = false;
  error = some "dangerous function call not allowed";
  metadata = some deny_metadata;
}

abbrev pub denied_result : SecurityRule → EngineResult
denied_result rule = record {
  continues = false;
  modified = false;
  error = some (Prim.Native.String.◌++◌ "query denied by rule: " rule.name);
  metadata = some (("rule", string_value rule.name) ∷ []);
}

-- `applyRule`. The logger's calls are left out.
unfoldable pub apply_action :
    SecurityAction → SecurityRule → QueryContext → Go (QueryContext × EngineResult)
apply_action deny rule qc = done (qc, denied_result rule)
apply_action log rule qc = done (qc, continue_result)
apply_action mask rule qc = insert_meta "masked" (bool_value true) qc.metadata >>= λ m.
    insert_meta "mask_fields" (strings_value rule.mask_fields) m >>= λ m'.
    done (record qc { metadata = m' }, continue_result)
apply_action allow rule qc = done (qc, continue_result)
apply_action (custom_action _) rule qc = done (qc, continue_result)

unfoldable pub apply_rule : SecurityRule → QueryContext → Go (QueryContext × EngineResult)
unfolding apply_action
apply_rule rule qc = apply_action rule.action rule qc

module _ (lib : TextLib) where
  open lib use {match_string, to_lower}

  -- `matchRule`
  unfoldable pub match_rule : String → SecurityRule → Bool
  match_rule query rule =
      if rule.match_pattern == ""
      then false
      else matched (match_string (Prim.Native.String.◌++◌ "(?i)" rule.match_pattern) query)

  -- The loops of `detectSQLInjection` and `containsDangerousFunctions`.
  unfoldable pub any_pattern : List String → String → Bool
  any_pattern [] query = false
  any_pattern (p ∷ ps) query = if matched (match_string p query) then true else any_pattern ps query

  unfoldable pub detect_sql_injection : String → Bool
  detect_sql_injection query = any_pattern sql_injection_patterns query

  abbrev pub any_contained : List String → String → Bool
  any_contained [] lower_query = false
  any_contained (fn ∷ fns) lower_query =
      if contains lower_query fn then true else any_contained fns lower_query

  unfoldable pub contains_dangerous_functions : String → Bool
  contains_dangerous_functions query = any_contained dangerous_functions (to_lower query)

  -- The checks of `Process` after the loop over the rules.
  unfoldable pub check_query : QueryContext → Go (QueryContext × EngineResult)
  check_query qc =
      if detect_sql_injection qc.raw_query
      then done (qc, injection_result)
      else if contains_dangerous_functions qc.raw_query
      then done (qc, dangerous_result)
      else done (qc, continue_result)

  unfoldable pub check_rules : List SecurityRule → QueryContext → Go (QueryContext × EngineResult)
  check_rules [] qc = check_query qc
  check_rules (rule ∷ rules) qc =
      if match_rule qc.raw_query rule then apply_rule rule qc else check_rules rules qc

  -- `Process`
  unfoldable pub process : List SecurityRule → QueryContext → Go (QueryContext × EngineResult)
  process rules qc = if qc.raw_query == "" then done (qc, continue_result) else check_rules rules qc

-- `"***MASKED***"`
abbrev pub masked_value : Value
masked_value = string_value "***MASKED***"

-- The loop over `maskFields` at one column of one row.
unfoldable pub mask_fields_at : List String → String → ℕ → ℕ → List Value → List Value
mask_fields_at [] col i j row = row
mask_fields_at (field ∷ fields) col i j row = mask_fields_at fields col i j (
    if col == field && ltb i (length row) && ltb j (length row)
    then set row j masked_value
    else row)

-- The loop over the columns, from column `j` on, at row `i`.
unfoldable pub mask_columns : List String → ℕ → ℕ → List String → List Value → List Value
mask_columns fields i j [] row = row
mask_columns fields i j (col ∷ cols) row =
    mask_columns fields i (suc j) cols (mask_fields_at fields col i j row)

-- The loop over the rows, from row `i` on.
unfoldable pub mask_rows : List String → List String → ℕ → List (List Value) → List (List Value)
mask_rows fields cols i [] = []
mask_rows fields cols i (row ∷ rows) =
    mask_columns fields i 0 cols row ∷ mask_rows fields cols (suc i) rows

abbrev pub as_bool : Option Value → Bool
as_bool (some (bool_value b)) = b
as_bool _ = false

abbrev pub as_strings : Option Value → List String
as_strings (some (strings_value l)) = l
as_strings _ = []

-- The masking of the rows, after the checks of `ProcessResponse`.
abbrev pub mask_response : List String → QueryResponse → List (List Value) → QueryResponse
mask_response fields resp rows = record resp { rows = some (mask_rows fields resp.columns 0 rows) }

abbrev pub process_rows :
    Option Metadata → QueryResponse → Option (List (List Value)) → QueryResponse
process_rows m resp none = resp
process_rows m resp (some rows) =
    if not (as_bool (lookup_meta "masked" m))
    then resp
    else if length (as_strings (lookup_meta "mask_fields" m)) == 0
    then resp
    else mask_response (as_strings (lookup_meta "mask_fields" m)) resp rows

abbrev pub process_optional : Option Metadata → Option QueryResponse → Option QueryResponse
process_optional m none = none
process_optional m (some resp) = some (process_rows m resp resp.rows)

-- `ProcessResponse`
unfoldable pub process_response : QueryContext → QueryContext × EngineResult
process_response qc =
    (record qc { response = process_optional qc.metadata qc.response }, continue_result)

-- `AddRule`
unfoldable pub add_rule : List SecurityRule → SecurityRule → List SecurityRule
add_rule rules rule = rules ++ rule ∷ []

-- `RemoveRule`
unfoldable pub remove_rule : List SecurityRule → String → List SecurityRule
remove_rule [] name = []
remove_rule (r ∷ rules) name =
    let rest = remove_rule rules name in if r.name == name then rest else r ∷ rest
