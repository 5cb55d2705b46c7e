-- ===== src/Failover/Targets.antt =====
-- The database that `triggerFailover` takes for its target.
use mathlib.Core.List.{Memᴰ}
use universal_database_proxy.Prelude.{
  true, false, not, ◌&&◌, String, List, [], ◌∷◌, ◌≡◌, ◌≢◌, refl, sym, ap, arith, if◌then◌else◌,
  ◌==◌, string_eq, eq_iff, Bool-cases, inl, inr,
}
use universal_database_proxy.Failover.{DatabaseNode, find_target}

pub ne_of_test : (s t : String) → (s == t) ≡ false → s ≢ t
ne_of_test s t h p = ground (arith, h, p, eq_iff s t)

-- A target that the loop found: a healthy node met that is not the primary.
pub record Target (primary : String) (l : List (String × DatabaseNode)) (name : String)
    : Type 0 where
  pub node : DatabaseNode
  pub member : Memᴰ (name, node) l
  pub healthy : node.is_healthy ≡ true
  pub other : name ≢ primary

-- No node has the empty name, which the code takes for no target.
abbrev pub NoEmpty : List (String × DatabaseNode) → Type 0
NoEmpty l = (k : String) (node : DatabaseNode) → Memᴰ (k, node) l → k ≢ ""

-- No node met could be a target.
abbrev pub NoTarget : String → List (String × DatabaseNode) → Type 0
NoTarget primary l =
    (k : String) (node : DatabaseNode) → Memᴰ (k, node) l → k ≢ primary → node.is_healthy ≡ false

pub find_target-cons :
    (primary name : String) (node : DatabaseNode) (rest : List (String × DatabaseNode))
    → find_target primary ((name, node) ∷ rest)
      ≡ (if not (name == primary) && node.is_healthy then name else find_target primary rest)
unfolding find_target
find_target-cons primary name node rest = refl

pub find_target-Target :
    (primary : String) (l : List (String × DatabaseNode)) (target : String)
    → find_target primary l ≡ target
    → target ≢ ""
    → Target primary l target
find_target-Target primary [] target h nonempty = absurd (nonempty (sym (unfold find_target in h)))
find_target-Target primary ((name, node) ∷ rest) target h nonempty =
    let c = find_target-cons primary name node rest in
    elim (Bool-cases (not (name == primary) && node.is_healthy)) [
      | inl taken ↦
          let same : name ≡ target = ground (arith, c, h, taken) in
          record {
            node = node;
            member = Memᴰ.head (ap {B = String × DatabaseNode} (λ n. (n, node)) (sym same));
            healthy = ground (arith, taken);
            other = ground (arith, taken, same, eq_iff name primary);
          }
      | inr passed ↦
          let t = find_target-Target primary rest target (ground (arith, c, h, passed)) nonempty in
          record {
            node = t.node;
            member = Memᴰ.tail t.member;
            healthy = t.healthy;
            other = t.other;
          }
    ]

pub find_target-NoTarget :
    (primary : String) (l : List (String × DatabaseNode))
    → NoEmpty l
    → find_target primary l ≡ ""
    → NoTarget primary l
find_target-NoTarget primary [] full h k node i other = elim i [ ]
find_target-NoTarget primary ((name, n) ∷ rest) full h k node (Memᴰ.head p) other =
    let same : k ≡ name = ap (λ (x : String × DatabaseNode). x.0) p in
    let same_node : node ≡ n = ap (λ (x : String × DatabaseNode). x.1) p in
    ground (
      arith,
      same,
      same_node,
      h,
      find_target-cons primary name n rest,
      full name n (Memᴰ.head refl),
      eq_iff name primary,
    )
find_target-NoTarget primary ((name, n) ∷ rest) full h k node (Memᴰ.tail i) other =
    elim (Bool-cases (not (name == primary) && n.is_healthy)) [
      | inl taken ↦
          let same : name ≡ "" = ground (arith, find_target-cons primary name n rest, h, taken) in
          absurd (full name n (Memᴰ.head refl) same)
      | inr passed ↦
          find_target-NoTarget primary rest (λ j m x. full j m (Memᴰ.tail x))
            (ground (arith, find_target-cons primary name n rest, h, passed)) k node i other
    ]
