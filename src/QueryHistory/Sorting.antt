-- ===== src/QueryHistory/Sorting.antt =====
-- The exchange sort of the query history engine.
use mathlib.Core.List.{Memᴰ, Permᴰ}
use mathlib.Core.List.Permᴰ
use mathlib.Core.Path.{subst}
use universal_database_proxy.Prelude.{
  ℕ, zero, suc, ◌≤◌, List, [], ◌∷◌, ◌≡◌, ◌⊎◌, refl, sym, ap, ◌∙◌, arith, Bool-cases, inl, inr,
  length, take,
}
use universal_database_proxy.Prelude.Int.{ℤ, ltb_ℤ, ◌≤ℤ◌}
use universal_database_proxy.QueryHistory.Top.{
  QueryFrequency, larger, smaller, exchange, sort_places,
}

-- Every element has a count of at most `n`.
abbrev pub AllBelow : ℤ → List QueryFrequency → Type 0
AllBelow n l = (g : QueryFrequency) → Memᴰ g l → g.count ≤ℤ n

pub data IsSorted : List QueryFrequency → Type 0 where
  sorted_nil : IsSorted []
  sorted_cons :
      {f : QueryFrequency} {l : List QueryFrequency}
      → AllBelow f.count l
      → IsSorted l
      → IsSorted (f ∷ l)

larger_first : (first f : QueryFrequency) → first.count ≤ℤ (larger first f).count
larger_first first f = elim (Bool-cases (ltb_ℤ first.count f.count)) [
  | inl swaps ↦ rw swaps (ground (arith, swaps))
  | inr keeps ↦ rw keeps (omega arith)
]

smaller_larger : (first f : QueryFrequency) → (smaller first f).count ≤ℤ (larger first f).count
smaller_larger first f = elim (Bool-cases (ltb_ℤ first.count f.count)) [
  | inl swaps ↦ rw swaps (ground (arith, swaps))
  | inr keeps ↦ rw keeps (ground (arith, keeps))
]

pair-Permᴰ :
    (first f : QueryFrequency) (rest : List QueryFrequency)
    → Permᴰ (first ∷ f ∷ rest) (smaller first f ∷ larger first f ∷ rest)
pair-Permᴰ first f rest = elim (Bool-cases (ltb_ℤ first.count f.count)) [
  | inl swaps ↦ rw swaps (Permᴰ.refl (first ∷ f ∷ rest))
  | inr keeps ↦ rw keeps (Permᴰ.swap refl refl)
]

-- A pass carries the largest element to the front, and leaves all others.
exchange-Permᴰ :
    (first : QueryFrequency) (rest : List QueryFrequency)
    → Permᴰ (first ∷ rest) ((exchange first rest).0 ∷ (exchange first rest).1)
unfolding exchange
exchange-Permᴰ first [] = Permᴰ.refl (first ∷ [])
exchange-Permᴰ first (f ∷ rest) =
    Permᴰ.trans (pair-Permᴰ first f rest)
      (Permᴰ.trans (Permᴰ.cons refl (exchange-Permᴰ (larger first f) rest)) (Permᴰ.swap refl refl))

AllBelow-cons :
    (n : ℤ) (f : QueryFrequency) (l : List QueryFrequency)
    → f.count ≤ℤ n
    → AllBelow n l
    → AllBelow n (f ∷ l)
AllBelow-cons n f l h below g (Memᴰ.head p) = subst (λ (c : QueryFrequency). c.count ≤ℤ n) (sym p) h
AllBelow-cons n f l h below g (Memᴰ.tail i) = below g i

le_trans : (a b c : ℤ) → a ≤ℤ b → b ≤ℤ c → a ≤ℤ c
le_trans a b c h k = omega (arith, h, k)

exchange-largest :
    (first : QueryFrequency) (rest : List QueryFrequency)
    → (first.count ≤ℤ (exchange first rest).0.count)
      × AllBelow (exchange first rest).0.count (exchange first rest).1
unfolding exchange
exchange-largest first [] = (omega arith, λ g i. elim i [ ])
exchange-largest first (f ∷ rest) =
    let big = larger first f in
    let (top, below) = exchange-largest big rest in
    let result = (exchange big rest).0.count in
    (
      le_trans first.count big.count result (larger_first first f) top,
      AllBelow-cons result (smaller first f) (exchange big rest).1
          (le_trans (smaller first f).count big.count result (smaller_larger first f) top) below,
    )

length-exchange :
    (first : QueryFrequency) (rest : List QueryFrequency)
    → length (exchange first rest).1 ≡ length rest
unfolding exchange
length-exchange first [] = refl
length-exchange first (f ∷ rest) = ap suc (length-exchange (larger first f) rest)

pub Permᴰ-Memᴰ : {l m : List QueryFrequency} (g : QueryFrequency) → Permᴰ l m → Memᴰ g l → Memᴰ g m
Permᴰ-Memᴰ g Permᴰ.nil i = i
Permᴰ-Memᴰ g (Permᴰ.cons e p) (Memᴰ.head q) = Memᴰ.head (q ∙ e)
Permᴰ-Memᴰ g (Permᴰ.cons e p) (Memᴰ.tail i) = Memᴰ.tail (Permᴰ-Memᴰ g p i)
Permᴰ-Memᴰ g (Permᴰ.swap e d) (Memᴰ.head q) = Memᴰ.tail (Memᴰ.head (q ∙ e))
Permᴰ-Memᴰ g (Permᴰ.swap e d) (Memᴰ.tail (Memᴰ.head q)) = Memᴰ.head (q ∙ d)
Permᴰ-Memᴰ g (Permᴰ.swap e d) (Memᴰ.tail (Memᴰ.tail i)) = Memᴰ.tail (Memᴰ.tail i)
Permᴰ-Memᴰ g (Permᴰ.trans p q) i = Permᴰ-Memᴰ g q (Permᴰ-Memᴰ g p i)

pub sort_places-Permᴰ : (places : ℕ) (l : List QueryFrequency) → Permᴰ l (sort_places places l)
unfolding sort_places
sort_places-Permᴰ places [] = Permᴰ.nil
sort_places-Permᴰ zero (f ∷ rest) = Permᴰ.refl (f ∷ rest)
sort_places-Permᴰ (suc places) (f ∷ rest) =
    Permᴰ.trans (exchange-Permᴰ f rest)
      (Permᴰ.cons refl (sort_places-Permᴰ places (exchange f rest).1))

-- With a place for each element, the loops sort by count, the highest first.
pub sort_places-IsSorted :
    (places : ℕ) (l : List QueryFrequency) → length l ≤ places → IsSorted (sort_places places l)
unfolding sort_places
sort_places-IsSorted places [] h = sorted_nil
sort_places-IsSorted zero (f ∷ rest) h = absurd (omega (arith, h))
sort_places-IsSorted (suc places) (f ∷ rest) h =
    sorted_cons
      (λ g i.
        (exchange-largest f rest).1 g
          (Permᴰ-Memᴰ g (Permᴰ.symm (sort_places-Permᴰ places (exchange f rest).1)) i))
      (sort_places-IsSorted places (exchange f rest).1 (omega (arith, h, length-exchange f rest)))

least_cons :
    (g f : QueryFrequency) (l : List QueryFrequency)
    → g.count ≤ℤ f.count
    → ((f' : QueryFrequency) → Memᴰ f' l → g.count ≤ℤ f'.count)
    → (f' : QueryFrequency) → Memᴰ f' (f ∷ l)
    → g.count ≤ℤ f'.count
least_cons g f l h least f' (Memᴰ.head p) =
    subst (λ (c : QueryFrequency). g.count ≤ℤ c.count) (sym p) h
least_cons g f l h least f' (Memᴰ.tail i) = least f' i

-- Of a sorted list, an element is among the first `n`, or these are `n` and none has a lower count.
pub take_top :
    (n : ℕ) (l : List QueryFrequency) (g : QueryFrequency)
    → IsSorted l
    → Memᴰ g l
    → Memᴰ g (take n l)
      ⊎ ((length (take n l) ≡ n) × ((f : QueryFrequency) → Memᴰ f (take n l) → g.count ≤ℤ f.count))
take_top zero l g s i = inr (refl, λ f j. elim j [ ])
take_top (suc n) [] g s i = elim i [ ]
take_top (suc n) (f ∷ l) g s (Memᴰ.head p) = inl (Memᴰ.head p)
take_top (suc n) (f ∷ l) g (sorted_cons below s) (Memᴰ.tail i) = elim (take_top n l g s i) [
  | inl among ↦ inl (Memᴰ.tail among)
  | inr (full, least) ↦ inr (ap suc full, least_cons g f (take n l) (below g i) least)
]
