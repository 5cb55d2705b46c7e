-- ===== src/RateLimit/Windows.antt =====
-- Requests after an instant, and within a span of time.
use universal_database_proxy.Prelude.{
  ℕ, ◌&&◌, List, [], ◌∷◌, ◌++◌, ◌≡◌, ◌≤◌, refl, arith, if◌then◌else◌, Bool-cases, inl, inr, length,
  length-append, ◌<◌,
}
use universal_database_proxy.Prelude.Int.{
  ℤ, ◌+ℤ◌, ◌-ℤ◌, ◌≤ℤ◌, ◌<ℤ◌, ltb_ℤ, leb_ℤ, +ℤ_parts, -ℤ_parts,
}
use universal_database_proxy.RateLimit.{filter_requests_after}

-- The times from `start` on, `start` left out, to the end of a span, which is counted in.
unfoldable pub within : ℤ → ℤ → List ℤ → List ℤ
within start span [] = []
within start span (t ∷ ts) =
    let rest = within start span ts in
    if ltb_ℤ start t && leb_ℤ t (start +ℤ span) then t ∷ rest else rest

pub filter-append :
    (cutoff : ℤ) (ts us : List ℤ)
    → filter_requests_after cutoff (ts ++ us)
      ≡ filter_requests_after cutoff ts ++ filter_requests_after cutoff us
unfolding filter_requests_after
filter-append cutoff [] us = refl
filter-append cutoff (t ∷ ts) us = ground (arith, filter-append cutoff ts us)

-- A later cutoff makes an earlier one superfluous.
pub filter-filter :
    (earlier later : ℤ) (ts : List ℤ)
    → earlier ≤ℤ later
    → filter_requests_after later (filter_requests_after earlier ts)
      ≡ filter_requests_after later ts
unfolding filter_requests_after
filter-filter earlier later [] h = refl
filter-filter earlier later (t ∷ ts) h = ground (arith, filter-filter earlier later ts h, h)

pub length-filter_one : (cutoff t : ℤ) → length (filter_requests_after cutoff (t ∷ [])) ≤ 1
unfolding filter_requests_after
length-filter_one cutoff t = ground arith

pub within-append :
    (start span : ℤ) (ts us : List ℤ)
    → within start span (ts ++ us) ≡ within start span ts ++ within start span us
unfolding within
within-append start span [] us = refl
within-append start span (t ∷ ts) us = ground (arith, within-append start span ts us)

-- A span that ends at `now` or later holds no more of the times than follow its length before `now`.
pub length-within :
    (start span now : ℤ) (ts : List ℤ)
    → now ≤ℤ start +ℤ span
    → length (within start span ts) ≤ length (filter_requests_after (now -ℤ span) ts)
unfolding within filter_requests_after
length-within start span now [] h = omega arith
length-within start span now (t ∷ ts) h =
    ground (arith, length-within start span now ts h, h, +ℤ_parts start span, -ℤ_parts now span)

-- A time after the span does not count in it.
pub within-later : (start span t : ℤ) → (start +ℤ span) <ℤ t → within start span (t ∷ []) ≡ []
unfolding within
within-later start span t h = ground (arith, h)

length-within_one : (start span t : ℤ) → length (within start span (t ∷ [])) ≤ 1
unfolding within
length-within_one start span t = ground arith

-- One more request keeps a bound on every span, if fewer are in the window that ends with it.
pub add_within :
    (start span now : ℤ) (ts : List ℤ) (n : ℕ)
    → length (within start span ts) ≤ n
    → length (filter_requests_after (now -ℤ span) ts) < n
    → length (within start span (ts ++ now ∷ [])) ≤ n
add_within start span now ts n h fewer =
    rw
      (
        within-append start span ts (now ∷ []),
        length-append (within start span ts) (within start span (now ∷ [])),
      )
      (elim (Bool-cases (leb_ℤ now (start +ℤ span))) [
        | inl inside ↦ omega (
          arith,
          fewer,
          length-within start span now ts (ground (arith, inside)),
          length-within_one start span now,
        )
        | inr after ↦ rw (within-later start span now (ground (arith, after))) (omega (arith, h))
      ])
