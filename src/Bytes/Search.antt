-- ===== src/Bytes/Search.antt =====
-- Substrings, and the search for them.
use mathlib.Core.List.{append-nil}
use universal_database_proxy.Prelude.{
  ℕ, zero, suc, ◌+◌, ◌-◌, ◌<◌, ◌≤◌, true, [], ◌∷◌, ◌++◌, ◌≡◌, ◌↔◌, refl, sym, ap, ◌∙◌, arith,
  Bool-cases, inl, inr, length, take, drop, take-append-drop, length-append,
}
use universal_database_proxy.Bytes.{
  Bytes, bytes_eq, slice, contains_from, contains_helper, contains,
}

pub bytes_eq_iff : (s t : Bytes) → (bytes_eq s t ≡ true) ↔ (s ≡ t)
unfolding bytes_eq
bytes_eq_iff [] [] = ground arith
bytes_eq_iff [] (d ∷ t) = ground arith
bytes_eq_iff (c ∷ s) [] = ground arith
bytes_eq_iff (c ∷ s) (d ∷ t) = ground (arith, bytes_eq_iff s t)

-- `substr` stands somewhere in `s`.
pub record Occurs (s substr : Bytes) : Type 0 where
  pub before : Bytes
  pub after : Bytes
  pub split : s ≡ before ++ (substr ++ after)

contains_from-Occurs :
    (rounds i : ℕ) (s substr : Bytes) → contains_from rounds i s substr ≡ true → Occurs s substr
unfolding contains_from
contains_from-Occurs zero i s substr h = cc
contains_from-Occurs (suc rounds) i s substr h =
    elim (Bool-cases (bytes_eq (slice s i (length substr)) substr)) [
      | inl hit ↦
          let rest = drop i s in
          let part = (bytes_eq_iff (slice s i (length substr)) substr).0 hit in
          record {
            before = take i s;
            after = drop (length substr) rest;
            split =
                sym (take-append-drop i s)
                ∙ ap (λ t. take i s ++ t)
                    (sym (take-append-drop (length substr) rest)
                      ∙ ap (λ t. t ++ drop (length substr) rest) part);
          }
      | inr miss ↦ contains_from-Occurs rounds (i + 1) s substr (ground arith)
    ]

pub take-length-append : (s t : Bytes) → take (length s) (s ++ t) ≡ s
take-length-append [] t = refl
take-length-append (c ∷ s) t = ap (λ l. c ∷ l) (take-length-append s t)

drop-length-append : (s t : Bytes) → drop (length s) (s ++ t) ≡ t
drop-length-append [] t = refl
drop-length-append (c ∷ s) t = drop-length-append s t

-- A match at index `i + k` is found with more than `k` rounds left.
contains_from-hit :
    (rounds k i : ℕ) (s substr : Bytes)
    → k < rounds
    → bytes_eq (slice s (i + k) (length substr)) substr ≡ true
    → contains_from rounds i s substr ≡ true
unfolding contains_from
contains_from-hit zero k i s substr h hit = elim h [ ]
contains_from-hit (suc rounds) zero i s substr h hit =
    let e : i + 0 ≡ i = omega arith in let here = rw e at hit in ground arith
contains_from-hit (suc rounds) (suc k) i s substr h hit =
    let e : i + suc k ≡ i + 1 + k = omega arith in
    let later = rw e at hit in ground (arith, contains_from-hit rounds k (i + 1) s substr)

at_split :
    (before substr after : Bytes)
    → bytes_eq (slice (before ++ (substr ++ after)) (0 + length before) (length substr)) substr
      ≡ true
at_split before substr after =
    let e : 0 + length before ≡ length before = omega arith in
    rw (e, drop-length-append before (substr ++ after), take-length-append substr after)
      ((bytes_eq_iff substr substr).1 refl)

bytes_eq-empty : (s substr : Bytes) → length s ≡ 0 → length substr ≡ 0 → bytes_eq s substr ≡ true
unfolding bytes_eq
bytes_eq-empty [] [] p q = refl
bytes_eq-empty [] (d ∷ t) p q = ground arith
bytes_eq-empty (c ∷ s) substr p q = ground arith

contains-hit :
    (s substr : Bytes)
    → length substr ≤ length s
    → contains_from (suc (length s - length substr)) 0 s substr ≡ true
    → contains s substr ≡ true
unfolding contains contains_helper
contains-hit s substr fits hit = ground (arith, bytes_eq-empty s substr)

contains-split :
    (before substr after : Bytes) → contains (before ++ (substr ++ after)) substr ≡ true
contains-split before substr after =
    let s = before ++ (substr ++ after) in
    let size : length s ≡ length before + (length substr + length after) =
      length-append before (substr ++ after)
      ∙ ap (λ n. length before + n) (length-append substr after) in
    contains-hit s substr (omega arith) (
      contains_from-hit (suc (length s - length substr)) (length before) 0 s substr (omega arith)
        (at_split before substr after))

contains-Occurs : (s substr : Bytes) → contains s substr ≡ true → Occurs s substr
unfolding contains contains_helper
contains-Occurs s substr h = elim (Bool-cases (bytes_eq s substr)) [
  | inl same ↦ record {
    before = [];
    after = [];
    split = (bytes_eq_iff s substr).0 same ∙ sym (append-nil substr);
  }
  | inr other ↦ contains_from-Occurs (suc (length s - length substr)) 0 s substr (ground arith)
]

-- `contains` is true exactly if the second string stands somewhere in the first, an empty second
-- string always.
pub contains_iff : (s substr : Bytes) → (contains s substr ≡ true) ↔ Occurs s substr
contains_iff s substr =
    (contains-Occurs s substr, λ o. rw o.split (contains-split o.before substr o.after))
