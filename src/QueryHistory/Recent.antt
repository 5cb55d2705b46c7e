-- ===== src/QueryHistory/Recent.antt =====
-- The history as a log of bounded length.
use mathlib.Core.Path.{subst}
use mathlib.Core.List.{append-nil}
use universal_database_proxy.Prelude.{
  ℕ, zero, suc, ◌≤◌, ◌+◌, ◌-◌, true, false, not, ◌||◌, String, List, [], ◌∷◌, ◌++◌, ◌≡◌, refl, sym,
  ap, ◌∙◌, arith, if◌then◌else◌, ◌==◌, string_eq, Bool-cases, inl, inr, length, drop, map,
  length-append, length-drop, length-map,
}
use universal_database_proxy.Prelude.Int.{ℤ, pos}
use universal_database_proxy.Prelude.Result.{Go, done, ◌>>=◌}
use universal_database_proxy.Types.{QueryContext, QueryResponse}
use universal_database_proxy.QueryHistory.{
  HistoryLib, QueryRecord, QueryHistoryEngine, record_of, store, stored, process, change_last,
  process_response, indexed, hash_query,
}

-- The last `n` of a list
abbrev pub last_of {ℓ} : {A : Type ℓ} → ℕ → List A → List A
last_of n l = drop (length l - n) l

-- A call, and the identifiers of the queries that were to be recorded, in order.
pub data Call : Type 0 where
  queries : ℤ → QueryContext → Call
  responds : QueryContext → Call

unfoldable pub run : HistoryLib → List Call → QueryHistoryEngine → Go QueryHistoryEngine
run lib [] e = done e
run lib (queries now qc ∷ calls) e = process lib now qc e >>= λ e'. run lib calls e'
run lib (responds qc ∷ calls) e = run lib calls (process_response qc e)

unfoldable pub recorded : List Call → List String
recorded [] = []
recorded (queries now qc ∷ calls) =
    let rest = recorded calls in if qc.raw_query == "" then rest else qc.id ∷ rest
recorded (responds qc ∷ calls) = recorded calls

abbrev pub ids : List QueryRecord → List String
ids history = map (λ r. r.id) history

module _ {ℓ} {A : Type ℓ} where
  pub drop-nil : (m : ℕ) → drop {A = A} m [] ≡ []
  drop-nil zero = refl
  drop-nil (suc m) = refl

  drop-drop : (m n : ℕ) (l : List A) → drop m (drop n l) ≡ drop (n + m) l
  drop-drop m zero l = ap (λ k. drop k l) (omega arith)
  drop-drop m (suc n) [] = drop-nil m ∙ sym (drop-nil (suc n + m))
  drop-drop m (suc n) (x ∷ l) =
      let more : suc n + m ≡ suc (n + m) = omega arith in rw more (drop-drop m n l)

  drop-append : (n : ℕ) (l k : List A) → n ≤ length l → drop n (l ++ k) ≡ drop n l ++ k
  drop-append zero l k h = refl
  drop-append (suc n) [] k h = absurd (omega (arith, h))
  drop-append (suc n) (x ∷ l) k h = drop-append n l k (omega (arith, h))

  -- To keep the last of a list that was cut before is to keep the last of all.
  last_of-append :
      (n : ℕ) (l : List A) (x : A) → last_of n (last_of n l ++ x ∷ []) ≡ last_of n (l ++ x ∷ [])
  last_of-append n l x =
      let d = length l - n in
      let longer = l ++ x ∷ [] in
      ap (last_of n) (sym (drop-append d l (x ∷ []) (omega arith)))
      ∙ drop-drop (length (drop d longer) - n) d longer
      ∙ ap (λ k. drop k longer) (omega (arith, length-drop d longer, length-append l (x ∷ [])))

drop-ids : (n : ℕ) (h : List QueryRecord) → ids (drop n h) ≡ drop n (ids h)
drop-ids zero h = refl
drop-ids (suc n) [] = refl
drop-ids (suc n) (r ∷ h) = drop-ids n h

append-ids : (h k : List QueryRecord) → ids (h ++ k) ≡ ids h ++ ids k
append-ids [] k = refl
append-ids (r ∷ h) k = ap (λ l. r.id ∷ l) (append-ids h k)

pub change_last-ids :
    (response : QueryResponse) (h : List QueryRecord) → ids (change_last response h) ≡ ids h
change_last-ids response [] = refl
change_last-ids response (r ∷ []) = refl
change_last-ids response (r ∷ s ∷ h) = ap (λ l. r.id ∷ l) (change_last-ids response (s ∷ h))

-- The engine keeps at most `n` records, those of the last queries of the log.
pub record IsRecent (n : ℕ) (log : List String) (e : QueryHistoryEngine) : Type 0 where
  pub on : e.config.enabled ≡ true
  pub maximum : e.config.max_records ≡ pos n
  pub latest : ids e.history ≡ last_of n log

store-IsRecent :
    (lib : HistoryLib) (n : ℕ) (log : List String) (now : ℤ) (qc : QueryContext)
    (e : QueryHistoryEngine)
    → IsRecent n log e
    → (e' : QueryHistoryEngine) × (store lib now qc e ≡ done e') × IsRecent n (log ++ qc.id ∷ []) e'
store-IsRecent lib n log now qc e s =
    let history = e.history ++ record_of lib now qc ∷ [] in
    let index =
      indexed e.config.index_enabled (hash_query lib qc.raw_query) (length e.history) e.index in
    let same_ids : ids history ≡ last_of n log ++ qc.id ∷ [] =
      append-ids e.history (record_of lib now qc ∷ []) ∙ ap (λ l. l ++ qc.id ∷ []) s.latest in
    (
      stored e index (drop (length history - n) history),
      rw s.maximum,
      record {
        on = s.on;
        maximum = s.maximum;
        latest =
            drop-ids (length history - n) history
            ∙ ap (λ k. drop (k - n) (ids history)) (sym (length-map history (λ r. r.id)))
            ∙ ap (last_of n) same_ids
            ∙ last_of-append n log qc.id;
      },
    )

process-empty :
    (lib : HistoryLib) (now : ℤ) (qc : QueryContext) (e : QueryHistoryEngine)
    → (qc.raw_query == "") ≡ true
    → process lib now qc e ≡ done e
unfolding process
process-empty lib now qc e empty = ground (arith, empty)

process-store :
    (lib : HistoryLib) (now : ℤ) (qc : QueryContext) (e : QueryHistoryEngine)
    → e.config.enabled ≡ true
    → (qc.raw_query == "") ≡ false
    → process lib now qc e ≡ store lib now qc e
unfolding process
process-store lib now qc e on text =
    let test : not e.config.enabled || qc.raw_query == "" ≡ false = ground (arith, on, text) in
    rw test

pub query-IsRecent :
    (lib : HistoryLib) (n : ℕ) (log : List String) (now : ℤ) (qc : QueryContext)
    (e : QueryHistoryEngine)
    → IsRecent n log e
    → (e' : QueryHistoryEngine) × (process lib now qc e ≡ done e')
      × IsRecent n (log ++ recorded (queries now qc ∷ [])) e'
unfolding recorded
query-IsRecent lib n log now qc e s = elim (Bool-cases (qc.raw_query == "")) [
  | inl empty ↦
      rw empty
        (e, process-empty lib now qc e empty, subst (λ l. IsRecent n l e) (sym (append-nil log)) s)
  | inr text ↦
      let (e', result, recent) = store-IsRecent lib n log now qc e s in
      rw text (e', process-store lib now qc e s.on text ∙ result, recent)
]
