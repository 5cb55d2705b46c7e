-- ===== src/Tenants/Search.antt =====
-- The third substring search of the repository against the two others' specification.
use mathlib.Core.List.{append-nil}
use universal_database_proxy.Prelude.{
  ℕ, suc, ◌≤◌, true, [], ◌∷◌, ◌++◌, ◌≡◌, ◌↔◌, sym, ap, ◌∙◌, arith, Bool-cases, inl, inr, length,
  take, drop, take-append-drop, length-append,
}
use universal_database_proxy.Bytes.{Bytes, bytes_eq}
use universal_database_proxy.Bytes.Search.{bytes_eq_iff, Occurs, take-length-append}
use universal_database_proxy.Tenants.{contains_string}

Occurs-whole : (s substr : Bytes) → bytes_eq s substr ≡ true → Occurs s substr
Occurs-whole s substr h = record {
  before = [];
  after = [];
  split = (bytes_eq_iff s substr).0 h ∙ sym (append-nil substr);
}

Occurs-prefix :
    (s substr : Bytes) → bytes_eq (take (length substr) s) substr ≡ true → Occurs s substr
Occurs-prefix s substr h = record {
  before = [];
  after = drop (length substr) s;
  split =
      sym (take-append-drop (length substr) s)
      ∙ ap (λ t. t ++ drop (length substr) s) ((bytes_eq_iff (take (length substr) s) substr).0 h);
}

contains_string-Occurs : (s substr : Bytes) → contains_string s substr ≡ true → Occurs s substr
unfolding contains_string
contains_string-Occurs [] substr h = Occurs-whole [] substr (ground (arith, h))
contains_string-Occurs (c ∷ s) substr h = elim (Bool-cases (bytes_eq (c ∷ s) substr)) [
  | inl whole ↦ Occurs-whole (c ∷ s) substr whole
  | inr other ↦ elim (Bool-cases (bytes_eq (take (length substr) (c ∷ s)) substr)) [
    | inl here ↦ Occurs-prefix (c ∷ s) substr here
    | inr miss ↦
        let o = contains_string-Occurs s substr (ground (arith, h, other, miss)) in
        record { before = c ∷ o.before; after = o.after; split = ap (λ t. c ∷ t) o.split }
  ]
]

bytes_eq-prefix : (s t : Bytes) → bytes_eq (take (length s) (s ++ t)) s ≡ true
bytes_eq-prefix s t = (bytes_eq_iff (take (length s) (s ++ t)) s).1 (take-length-append s t)

contains_string-prefix : (substr after : Bytes) → contains_string (substr ++ after) substr ≡ true
unfolding contains_string bytes_eq
contains_string-prefix [] [] = ground arith
contains_string-prefix [] (c ∷ after) = ground arith
contains_string-prefix (c ∷ substr) after =
    ground (arith, bytes_eq-prefix (c ∷ substr) after, length-append substr after)

contains_string-cons :
    (c : ℕ) (s substr : Bytes)
    → length substr ≤ suc (length s)
    → contains_string s substr ≡ true
    → contains_string (c ∷ s) substr ≡ true
unfolding contains_string
contains_string-cons c s substr fits rest = ground (arith, rest)

contains_string-split :
    (before substr after : Bytes) → contains_string (before ++ (substr ++ after)) substr ≡ true
contains_string-split [] substr after = contains_string-prefix substr after
contains_string-split (c ∷ before) substr after =
    let rest = contains_string-split before substr after in
    contains_string-cons c (before ++ (substr ++ after)) substr
      (omega (arith, length-append before (substr ++ after), length-append substr after)) rest

-- `containsString` is true exactly if the second text stands somewhere in the first, as the search
-- of the retry policy is.
pub contains_string_iff : (s substr : Bytes) → (contains_string s substr ≡ true) ↔ Occurs s substr
contains_string_iff s substr = (
  contains_string-Occurs s substr,
  λ o. rw o.split (contains_string-split o.before substr o.after),
)
