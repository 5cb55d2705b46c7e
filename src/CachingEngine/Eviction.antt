-- ===== src/CachingEngine/Eviction.antt =====
-- Eviction: which entry goes, and how many stay.
use mathlib.Core.List.{Memᴰ}
use universal_database_proxy.Prelude.{
  String, List, [], ◌∷◌, ◌≡◌, ◌≢◌, ◌⊎◌, refl, ap, arith, inl, inr, string_eq, Bool-cases,
}
use universal_database_proxy.Prelude.Int.{ℤ, pos, ◌≤ℤ◌, ◌<ℤ◌, ltb_ℤ, eq_ℤ_iff}
use universal_database_proxy.CachingEngine.{CacheEntry, oldest}

-- `key` is the key of an entry of the list that expires no later than any other of the list.
pub record IsFirst (l : List (String × CacheEntry)) (key : String) : Type 0 where
  pub entry : CacheEntry
  pub member : Memᴰ (key, entry) l
  pub least : (k : String) (e : CacheEntry) → Memᴰ (k, e) l → entry.expires_at ≤ℤ e.expires_at

-- What the loop has when it holds a key with a time that is not zero: that key, if no entry to come
-- expires earlier, or the first of those to come.
record Kept (l : List (String × CacheEntry)) (key : String) (t : ℤ) (result : String) : Type 0 where
  same : result ≡ key
  least : (k : String) (e : CacheEntry) → Memᴰ (k, e) l → t ≤ℤ e.expires_at

record Found (l : List (String × CacheEntry)) (t : ℤ) (result : String) : Type 0 where
  first : IsFirst l result
  earlier : first.entry.expires_at <ℤ t

-- No entry has the zero time for its expiry.
abbrev pub Timed : List (String × CacheEntry) → Type 0
Timed l = (k : String) (e : CacheEntry) → Memᴰ (k, e) l → e.expires_at ≢ pos 0

-- Every entry of the list expires at `t` or later.
abbrev NoneBefore : ℤ → List (String × CacheEntry) → Type 0
NoneBefore t l = (k : String) (e : CacheEntry) → Memᴰ (k, e) l → t ≤ℤ e.expires_at

NoneBefore-cons :
    (t : ℤ) (k : String) (e : CacheEntry) (rest : List (String × CacheEntry))
    → t ≤ℤ e.expires_at
    → NoneBefore t rest
    → NoneBefore t ((k, e) ∷ rest)
NoneBefore-cons t k e rest h hs k' e' (Memᴰ.head p) =
    let q : e' ≡ e = ap (λ (x : String × CacheEntry). x.1) p in rw q h
NoneBefore-cons t k e rest h hs k' e' (Memᴰ.tail i) = hs k' e' i

NoneBefore-le :
    (s t : ℤ) (l : List (String × CacheEntry)) → s ≤ℤ t → NoneBefore t l → NoneBefore s l
NoneBefore-le s t l h hs k e i = omega (arith, hs k e i)

oldest-picks :
    (k : String) (e : CacheEntry) (rest : List (String × CacheEntry)) (key : String) (t : ℤ)
    → (t ≡ pos 0) ⊎ (e.expires_at <ℤ t)
    → oldest ((k, e) ∷ rest) key t ≡ oldest rest k e.expires_at
unfolding oldest
oldest-picks k e rest key t h = ground arith

oldest-keeps :
    (k : String) (e : CacheEntry) (rest : List (String × CacheEntry)) (key : String) (t : ℤ)
    → t ≢ pos 0
    → t ≤ℤ e.expires_at
    → oldest ((k, e) ∷ rest) key t ≡ oldest rest key t
unfolding oldest
oldest-keeps k e rest key t nz h = ground (arith, eq_ℤ_iff t (pos 0))

-- The first entry of a list whose first entry was picked.
IsFirst-picked :
    (k : String) (e : CacheEntry) (rest : List (String × CacheEntry)) (result : String)
    → Kept rest k e.expires_at result ⊎ Found rest e.expires_at result
    → (f : IsFirst ((k, e) ∷ rest) result) × (f.entry.expires_at ≤ℤ e.expires_at)
IsFirst-picked k e rest result (inl kept) = (
  record {
    entry = e;
    member = rw kept.same (Memᴰ.head refl);
    least = NoneBefore-cons e.expires_at k e rest (omega arith) kept.least;
  },
  omega arith,
)
IsFirst-picked k e rest result (inr found) = (
  record {
    entry = found.first.entry;
    member = Memᴰ.tail found.first.member;
    least = NoneBefore-cons _ k e rest (omega (arith, found.earlier)) found.first.least;
  },
  omega (arith, found.earlier),
)

oldest_from :
    (l : List (String × CacheEntry)) (key : String) (t : ℤ)
    → Timed l
    → t ≢ pos 0
    → Kept l key t (oldest l key t) ⊎ Found l t (oldest l key t)
oldest_from [] key t h nz =
    unfold oldest in inl (record { same = refl; least = λ k e i. elim i [ ] })
oldest_from ((k, e) ∷ rest) key t h nz = elim (Bool-cases (ltb_ℤ e.expires_at t)) [
  | inl less ↦
      let found = IsFirst-picked k e rest (oldest rest k e.expires_at) (
        oldest_from rest k e.expires_at (λ k' e' i. h k' e' (Memᴰ.tail i))
          (h k e (Memᴰ.head refl))) in
      rw (oldest-picks k e rest key t (inr (ground arith)))
        (inr (record { first = found.0; earlier = ground (arith, found.1) }))
  | inr more ↦
      let later : t ≤ℤ e.expires_at = ground arith in
      rw (oldest-keeps k e rest key t nz later)
        (elim (oldest_from rest key t (λ k' e' i. h k' e' (Memᴰ.tail i)) nz) [
          | inl kept ↦
              inl (record { same = kept.same; least = NoneBefore-cons t k e rest later kept.least })
          | inr found ↦ inr (record {
            first = record {
              entry = found.first.entry;
              member = Memᴰ.tail found.first.member;
              least = NoneBefore-cons _ k e rest (omega (arith, found.earlier)) found.first.least;
            };
            earlier = found.earlier;
          })
        ])
]

pub oldest-IsFirst :
    (k : String) (e : CacheEntry) (rest : List (String × CacheEntry))
    → Timed ((k, e) ∷ rest)
    → IsFirst ((k, e) ∷ rest) (oldest ((k, e) ∷ rest) "" (pos 0))
oldest-IsFirst k e rest h =
    rw (oldest-picks k e rest "" (pos 0) (inl refl))
      (IsFirst-picked k e rest (oldest rest k e.expires_at) (
        oldest_from rest k e.expires_at (λ k' e' i. h k' e' (Memᴰ.tail i))
          (h k e (Memᴰ.head refl)))).0
