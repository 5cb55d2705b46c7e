-- ===== src/LoadBalancer/Values.antt =====
-- The values of nodes, and what one turn of the loop of `selectNode` does.
use mathlib.Core.List.{Memᴰ}
use universal_database_proxy.Prelude.{
  Bool, true, false, ◌||◌, String, List, ◌∷◌, ◌≡◌, ◌≢◌, ◌⊎◌, refl, arith, if◌then◌else◌, ◌==◌,
  string_eq, eq_iff, Bool-cases, inl, inr,
}
use universal_database_proxy.Prelude.Int.{ℤ, pos, ◌≤ℤ◌, ltb_ℤ, ◌-ℤ◌, wrap64}
use universal_database_proxy.Prelude.Result.{Go, done, ◌>>=◌}
use universal_database_proxy.LoadBalancer.{LbNode, node_value, eligible, consider}
use universal_database_proxy.Prelude.Division.{quotient, quotient-done}

abbrev pub HasValue : Go ℤ → Type 0
HasValue g = (value : ℤ) × (g ≡ done value)

pub if-HasValue : (b : Bool) (x y : Go ℤ) → HasValue x → HasValue y → HasValue (if b then x else y)
if-HasValue true x y p q = p
if-HasValue false x y p q = q

bind-HasValue : (g : Go ℤ) (f : ℤ → ℤ) → HasValue g → HasValue (g >>= λ z. done (f z))
bind-HasValue g f h = (f h.0, rw h.1 refl)

-- A node of a weight other than 0 has a value, under every strategy.
pub node_value-HasValue :
    (strategy : String) (node : LbNode) → node.weight ≢ pos 0 → HasValue (node_value strategy node)
unfolding node_value
node_value-HasValue strategy node h =
    if-HasValue (strategy == "round_robin") _ _ (pos 0, refl)
      (if-HasValue (strategy == "least_connections") _ _ (node.connections, refl)
        (if-HasValue (strategy == "least_latency") _ _ (node.latency_ms, refl)
          (if-HasValue (strategy == "weighted") _ _
            (bind-HasValue (quotient node.connections node.weight) (λ q. wrap64 (pos 100 -ℤ q))
              (quotient-done node.connections node.weight h))
            (pos 0, refl))))

abbrev pub Entries : Type 0
Entries = List (String × LbNode)

-- Every node of the list has a value, and none has the empty name, which the code takes for none.
pub record IsProper (strategy : String) (l : Entries) : Type 0 where
  pub named : (k : String) (node : LbNode) → Memᴰ (k, node) l → k ≢ ""
  pub valued :
      (k : String) (node : LbNode)
      → Memᴰ (k, node) l
      → (value : ℤ) × (node_value strategy node ≡ done value)

-- The name and value are those of an eligible node of the list.
pub record IsCandidate (strategy : String) (max_latency : ℤ) (l : Entries) (best : String × ℤ)
    : Type 0 where
  pub node : LbNode
  pub member : Memᴰ (best.0, node) l
  pub fits : eligible max_latency node ≡ true
  pub has_value : node_value strategy node ≡ done best.1

-- No eligible node of the list has a smaller value.
abbrev pub IsLeast : String → ℤ → Entries → ℤ → Type 0
IsLeast strategy max_latency l value =
    (k : String) (node : LbNode) (w : ℤ)
    → Memᴰ (k, node) l
    → eligible max_latency node ≡ true
    → node_value strategy node ≡ done w
    → value ≤ℤ w

-- What the loop does with one node.
pub data Considered (strategy : String) (max_latency : ℤ) (name : String) (node : LbNode)
    (best : String × ℤ) : Go (String × ℤ) → Type 0 where
  skipped :
      eligible max_latency node ≡ false → Considered strategy max_latency name node best (done best)
  taken :
      (w : ℤ)
      → eligible max_latency node ≡ true
      → node_value strategy node ≡ done w
      → (best.0 ≡ "") ⊎ (w ≤ℤ best.1)
      → Considered strategy max_latency name node best (done (name, w))
  kept :
      (w : ℤ)
      → eligible max_latency node ≡ true
      → node_value strategy node ≡ done w
      → best.0 ≢ ""
      → best.1 ≤ℤ w
      → Considered strategy max_latency name node best (done best)

pub improves :
    (best : String × ℤ) (w : ℤ)
    → best.0 == "" || ltb_ℤ w best.1 ≡ true
    → (best.0 ≡ "") ⊎ (w ≤ℤ best.1)
improves best w h = elim (Bool-cases (best.0 == "")) [
  | inl e ↦ inl ((eq_iff best.0 "").0 e)
  | inr n ↦ inr (ground (arith, n, h))
]

pub consider-Considered :
    (strategy : String) (max_latency : ℤ) (name : String) (node : LbNode) (best : String × ℤ)
    → HasValue (node_value strategy node)
    → Considered strategy max_latency name node best
        (consider strategy max_latency (name, node) best)
consider-Considered strategy max_latency name node best v =
    elim (Bool-cases (eligible max_latency node)) [
      | inr unfit ↦ rw unfit (skipped unfit)
      | inl fits ↦ elim (Bool-cases (best.0 == "" || ltb_ℤ v.0 best.1)) [
        | inl better ↦ rw (fits, v.1, better) (taken v.0 fits v.1 (improves best v.0 better))
        | inr worse ↦
            rw (fits, v.1, worse)
              (kept v.0 fits v.1 (ground (arith, worse, eq_iff best.0 "")) (ground (arith, worse)))
      ]
    ]

pub IsCandidate-cons :
    (strategy : String) (max_latency : ℤ) (entry : String × LbNode) (l : Entries)
    (best : String × ℤ)
    → IsCandidate strategy max_latency l best
    → IsCandidate strategy max_latency (entry ∷ l) best
IsCandidate-cons strategy max_latency entry l best c = record {
  node = c.node;
  member = Memᴰ.tail c.member;
  fits = c.fits;
  has_value = c.has_value;
}

pub IsProper-tail :
    (strategy : String) (entry : String × LbNode) (l : Entries)
    → IsProper strategy (entry ∷ l)
    → IsProper strategy l
IsProper-tail strategy entry l proper = record {
  named = λ k node i. proper.named k node (Memᴰ.tail i);
  valued = λ k node i. proper.valued k node (Memᴰ.tail i);
}
