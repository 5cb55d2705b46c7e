-- ===== src/Tests/Engines.antt =====
-- The engines and the pipeline at concrete inputs.
use text.Mathlib.TextLemmas.{cons≢nil}
use universal_database_proxy.Prelude.{false, some, [], ◌∷◌, ◌≡◌, refl, arith, string_eq}
use universal_database_proxy.Prelude.Result.{done}
use universal_database_proxy.Types.{
  string_value, QueryContext, continue_result, error_result, mask, deny, log,
}
use universal_database_proxy.Pipeline
use universal_database_proxy.Pipeline.{Engine, Step, base_engine, next}
use universal_database_proxy.Pipeline.Order.{process_stopped, StoppedBy}
use universal_database_proxy.SecurityEngine
use universal_database_proxy.SecurityEngine.{
  match_rule, masked_value, injection_result, denied_result,
}
use universal_database_proxy.SecurityEngine.Rules.{FirstMatch}
use universal_database_proxy.SecurityEngine.Decision.{
  Refuses, process-Refuses_iff, process_shadowed, mask_flow, masked_query, response_cell,
}
use universal_database_proxy.Tests.Samples.{
  literal_lib, salary_query, salary_rule, salary_rows, salary_response,
}

-- An engine over no state that lets every query pass, and one that lets none.
abbrev passing : Engine (Unit {0})
passing = base_engine "base"

abbrev blocking : Engine (Unit {0})
blocking = record {
  name = "block";
  process = λ qc w. done (record { result = error_result "no"; query = qc; world = w });
  process_response = λ qc w. done (record { result = continue_result; query = qc; world = w });
}

process_stopped_example :
    StoppedBy
      (passing ∷ blocking ∷ [])
      salary_query
      tt
      (record { result = error_result "no"; query = salary_query; world = tt })
unfolding Pipeline.process Pipeline.base_method
process_stopped_example =
    process_stopped (passing ∷ blocking ∷ []) salary_query tt
      (record { result = error_result "no"; query = salary_query; world = tt }) refl refl

pay_matches :
    FirstMatch literal_lib salary_query.raw_query (salary_rule mask ∷ []) (salary_rule mask)
unfolding match_rule
pay_matches = record { before = []; after = []; split = refl; passed_over = tt; matches = refl }

log_matches : FirstMatch literal_lib salary_query.raw_query (salary_rule log ∷ []) (salary_rule log)
unfolding match_rule
log_matches = record { before = []; after = []; split = refl; passed_over = tt; matches = refl }

process-Refuses_iff_example :
    ((qc' : QueryContext)
      → SecurityEngine.process literal_lib (salary_rule deny ∷ []) salary_query
        ≡ done (qc', denied_result (salary_rule deny))
      → (denied_result (salary_rule deny)).continues ≡ false
      → Refuses literal_lib
          (salary_rule deny ∷ [])
          salary_query.raw_query
          (denied_result (salary_rule deny))
        × (qc' ≡ salary_query))
    × (Refuses literal_lib
          (salary_rule deny ∷ [])
          salary_query.raw_query
          (denied_result (salary_rule deny))
        → (SecurityEngine.process literal_lib (salary_rule deny ∷ []) salary_query
            ≡ done (salary_query, denied_result (salary_rule deny)))
          × ((denied_result (salary_rule deny)).continues ≡ false))
process-Refuses_iff_example =
    process-Refuses_iff literal_lib (salary_rule deny ∷ []) salary_query
      (denied_result (salary_rule deny)) (λ e. cons≢nil e)

process_shadowed_example :
    (qc' : QueryContext) × (SecurityEngine.process literal_lib (salary_rule log ∷ []) salary_query
      ≡ done (qc', continue_result))
    × (qc'.raw_query ≡ salary_query.raw_query)
process_shadowed_example =
    process_shadowed literal_lib (salary_rule log ∷ []) salary_query (salary_rule log) []
      (λ e. cons≢nil e) refl log_matches (λ e. ground arith)

mask_flow_example :
    (SecurityEngine.process literal_lib (salary_rule mask ∷ []) salary_query
      ≡ done (masked_query (salary_rule mask) [] salary_query, continue_result))
    × (response_cell
          (SecurityEngine.process_response
            (record (masked_query (salary_rule mask) [] salary_query) {
              response = some salary_response;
            })).0
          0
          1
        ≡ some masked_value)
mask_flow_example =
    mask_flow literal_lib (salary_rule mask ∷ []) salary_query (salary_rule mask) [] salary_response
      salary_rows 0 1 (λ e. cons≢nil e) refl pay_matches refl (λ e. ground arith) refl refl

-- The third row is longer than the table is wide, and keeps its salary.
third_row_leaks :
    response_cell
      (SecurityEngine.process_response (record (masked_query (salary_rule mask) [] salary_query) {
        response = some salary_response;
      })).0
      2
      1
    ≡ some (string_value "300")
third_row_leaks =
    (mask_flow literal_lib (salary_rule mask ∷ []) salary_query (salary_rule mask) []
      salary_response salary_rows 2 1 (λ e. cons≢nil e) refl pay_matches refl (λ e. ground arith)
      refl refl).1
