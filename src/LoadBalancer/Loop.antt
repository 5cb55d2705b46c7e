-- ===== src/LoadBalancer/Loop.antt =====
-- The loop of `selectNode` from a node that it holds.
use mathlib.Core.List.{Memᴰ}
use universal_database_proxy.Prelude.{
  true, false, String, [], ◌∷◌, ◌≡◌, ◌≢◌, ◌⊎◌, refl, sym, ap, ◌∙◌, arith, string_eq, inl, inr,
}
use universal_database_proxy.Prelude.Int.{ℤ, ◌≤ℤ◌}
use universal_database_proxy.Prelude.Result.{Go, done}
use universal_database_proxy.LoadBalancer.{LbNode, node_value, eligible, consider, select_from}
use universal_database_proxy.LoadBalancer.Values.{
  Entries, IsProper, IsCandidate, IsLeast, Considered, skipped, taken, kept, consider-Considered,
  IsCandidate-cons, IsProper-tail,
}

-- What the loop returns when it holds a node with a value.
pub record Held (strategy : String) (max_latency : ℤ) (l : Entries) (best result : String × ℤ)
    : Type 0 where
  pub lower : result.1 ≤ℤ best.1
  pub least : IsLeast strategy max_latency l result.1
  pub source : (result ≡ best) ⊎ IsCandidate strategy max_latency l result

-- What it returns when it holds none.
pub record Started (strategy : String) (max_latency : ℤ) (l : Entries) (result : String × ℤ)
    : Type 0 where
  pub least : IsLeast strategy max_latency l result.1
  pub source : IsCandidate strategy max_latency l result

abbrev pub NoneFits : ℤ → Entries → Type 0
NoneFits max_latency l =
    (k : String) (node : LbNode) → Memᴰ (k, node) l → eligible max_latency node ≡ false

pub IsLeast-cons :
    (strategy : String) (max_latency : ℤ) (name : String) (node : LbNode) (l : Entries) (value : ℤ)
    → ((w : ℤ) → eligible max_latency node ≡ true → node_value strategy node ≡ done w → value ≤ℤ w)
    → IsLeast strategy max_latency l value
    → IsLeast strategy max_latency ((name, node) ∷ l) value
IsLeast-cons strategy max_latency name node l value first rest k n w (Memᴰ.head p) fits v =
    let same : n ≡ node = ap (λ (x : String × LbNode). x.1) p in
    first w (sym (ap (eligible max_latency) same) ∙ fits) (sym (ap (node_value strategy) same) ∙ v)
IsLeast-cons strategy max_latency name node l value first rest k n w (Memᴰ.tail i) fits v =
    rest k n w i fits v

pub done-inj : (v w : ℤ) → done v ≡ done w → v ≡ w
done-inj v w h = ground (arith, h)

abbrev pub Outcome : String → ℤ → Entries → String × ℤ → (String × ℤ → Type 0) → Type 0
Outcome strategy max_latency l best Post =
    (r : String × ℤ) × (select_from strategy max_latency l best ≡ done r) × Post r

pub select_from-step :
    (strategy : String) (max_latency : ℤ) (entry : String × LbNode) (l : Entries)
    (best next : String × ℤ)
    → consider strategy max_latency entry best ≡ done next
    → select_from strategy max_latency (entry ∷ l) best ≡ select_from strategy max_latency l next
unfolding select_from
select_from-step strategy max_latency entry l best next h = rw h refl

-- The rest of the loop, once the node at hand was considered.
pub Held-taken :
    (strategy : String) (max_latency : ℤ) (name : String) (node : LbNode) (l : Entries) (w : ℤ)
    (result : String × ℤ)
    → eligible max_latency node ≡ true
    → node_value strategy node ≡ done w
    → Held strategy max_latency l (name, w) result
    → Started strategy max_latency ((name, node) ∷ l) result
Held-taken strategy max_latency name node l w result fits v held = record {
  least =
      IsLeast-cons strategy max_latency name node l result.1
        (λ u _ vu. ground (arith, held.lower, done-inj w u (sym v ∙ vu))) held.least;
  source = elim held.source [
    | inl same ↦
        rw same (record { node = node; member = Memᴰ.head refl; fits = fits; has_value = v })
    | inr c ↦ IsCandidate-cons strategy max_latency (name, node) l result c
  ];
}

-- A node that was skipped or is no better changes nothing for what is held.
pub Held-passed :
    (strategy : String) (max_latency : ℤ) (name : String) (node : LbNode) (l : Entries)
    (best result : String × ℤ)
    → ((w : ℤ)
        → eligible max_latency node ≡ true
        → node_value strategy node ≡ done w
        → result.1 ≤ℤ w)
    → Held strategy max_latency l best result
    → Held strategy max_latency ((name, node) ∷ l) best result
Held-passed strategy max_latency name node l best result above held = record {
  lower = held.lower;
  least = IsLeast-cons strategy max_latency name node l result.1 above held.least;
  source = elim held.source [
    | inl same ↦ inl same
    | inr c ↦ inr (IsCandidate-cons strategy max_latency (name, node) l result c)
  ];
}

pub Held-Started :
    (strategy : String) (max_latency : ℤ) (l : Entries) (best result : String × ℤ)
    → result.1 ≤ℤ best.1
    → Started strategy max_latency l result
    → Held strategy max_latency l best result
Held-Started strategy max_latency l best result lower s = record {
  lower = lower;
  least = s.least;
  source = inr s.source;
}

-- The loop from a node that is held on, for the rest of the list.
abbrev pub HeldLoop : String → ℤ → Entries → Type 0
HeldLoop strategy max_latency l =
    (best : String × ℤ)
    → best.0 ≢ ""
    → Outcome strategy max_latency l best (Held strategy max_latency l best)

pub HeldLoop-cons :
    (strategy : String) (max_latency : ℤ) (name : String) (node : LbNode) (l : Entries)
    (best : String × ℤ) (g : Go (String × ℤ))
    → name ≢ ""
    → best.0 ≢ ""
    → HeldLoop strategy max_latency l
    → consider strategy max_latency (name, node) best ≡ g
    → Considered strategy max_latency name node best g
    → Outcome strategy max_latency
        ((name, node) ∷ l)
        best
        (Held strategy max_latency ((name, node) ∷ l) best)
HeldLoop-cons strategy max_latency name node l best _ full named loop e (skipped unfit) =
    let r = loop best named in
    (
      r.0,
      select_from-step strategy max_latency (name, node) l best best e ∙ r.1,
      Held-passed strategy max_latency name node l best r.0
          (λ w fits v. absurd (ground (arith, unfit, fits))) r.2,
    )
HeldLoop-cons strategy max_latency name node l best _ full named loop e (taken w fits v why) =
    let r = loop (name, w) full in
    (
      r.0,
      select_from-step strategy max_latency (name, node) l best (name, w) e ∙ r.1,
      Held-Started strategy max_latency ((name, node) ∷ l) best r.0
          (ground (arith, why, named, r.2.lower))
          (Held-taken strategy max_latency name node l w r.0 fits v r.2),
    )
HeldLoop-cons strategy max_latency name node l best _ full named loop e (kept w fits v _ above) =
    let r = loop best named in
    (
      r.0,
      select_from-step strategy max_latency (name, node) l best best e ∙ r.1,
      Held-passed strategy max_latency name node l best r.0
          (λ u _ vu. ground (arith, above, r.2.lower, done-inj w u (sym v ∙ vu))) r.2,
    )

pub select_from-Held :
    (strategy : String) (max_latency : ℤ) (l : Entries)
    → IsProper strategy l
    → HeldLoop strategy max_latency l
select_from-Held strategy max_latency [] proper best named = (
  best,
  unfold select_from in refl,
  record { lower = omega arith; least = λ k n w i. elim i [ ]; source = inl refl },
)
select_from-Held strategy max_latency ((name, node) ∷ l) proper best named =
    HeldLoop-cons strategy max_latency name node l best _ (proper.named name node (Memᴰ.head refl))
      named (select_from-Held strategy max_latency l (IsProper-tail strategy (name, node) l proper))
      refl
      (consider-Considered strategy max_latency name node best
        (proper.valued name node (Memᴰ.head refl)))
