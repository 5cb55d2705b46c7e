-- ===== src/LoadBalancer/Choice.antt =====
-- Which node `selectNode` takes.
use mathlib.Core.List.{Memᴰ}
use mathlib.Core.Path.{subst}
use universal_database_proxy.Prelude.{
  false, String, none, some, List, [], ◌∷◌, ◌≡◌, ◌≢◌, refl, ap, ◌∙◌, arith, string_eq,
}
use universal_database_proxy.Prelude.Int.{ℤ, pos, ◌≤ℤ◌}
use universal_database_proxy.Prelude.Result.{Go, done}
use universal_database_proxy.GoMap.{lookup, range, Covers}
use universal_database_proxy.GoMap.Range.{mem-range, range-mem}
use universal_database_proxy.LoadBalancer.{
  LbNode, LoadBalancerEngine, eligible, consider, select_from, select_node,
}
use universal_database_proxy.LoadBalancer.Values.{
  node_value-HasValue, Entries, IsProper, IsCandidate, IsLeast, Considered, skipped, taken, kept,
  consider-Considered, IsCandidate-cons, IsProper-tail,
}
use universal_database_proxy.LoadBalancer.Loop.{
  NoneFits, IsLeast-cons, Outcome, select_from-step, Held-taken, select_from-Held,
}
use universal_database_proxy.LoadBalancer.Load.{
  Load, IsAble, eligible-IsAble, IsAble-eligible, node_value-Load, Load-node_value,
}

-- What the loop returns from the start: no node, if none fits, or a node that fits and has the least
-- value of those that fit.
pub data Selected (strategy : String) (max_latency : ℤ) (l : Entries) : String → Type 0 where
  no_node : NoneFits max_latency l → Selected strategy max_latency l ""
  best_node :
      (best : String × ℤ)
      → best.0 ≢ ""
      → IsCandidate strategy max_latency l best
      → IsLeast strategy max_latency l best.1
      → Selected strategy max_latency l best.0

abbrev SelectedFrom : String → ℤ → Entries → Type 0
SelectedFrom strategy max_latency l =
    Outcome strategy max_latency l ("", pos 0) (λ r. Selected strategy max_latency l r.0)

NoneFits-cons :
    (max_latency : ℤ) (name : String) (node : LbNode) (l : Entries)
    → eligible max_latency node ≡ false
    → NoneFits max_latency l
    → NoneFits max_latency ((name, node) ∷ l)
NoneFits-cons max_latency name node l unfit rest k n (Memᴰ.head p) =
    ap (λ (x : String × LbNode). eligible max_latency x.1) p ∙ unfit
NoneFits-cons max_latency name node l unfit rest k n (Memᴰ.tail i) = rest k n i

Selected-skipped :
    (strategy : String) (max_latency : ℤ) (name : String) (node : LbNode) (l : Entries) (s : String)
    → eligible max_latency node ≡ false
    → Selected strategy max_latency l s
    → Selected strategy max_latency ((name, node) ∷ l) s
Selected-skipped strategy max_latency name node l _ unfit (no_node none_fits) =
    no_node (NoneFits-cons max_latency name node l unfit none_fits)
Selected-skipped strategy max_latency name node l _ unfit (best_node best named c least) =
    best_node best named (IsCandidate-cons strategy max_latency (name, node) l best c) (
      IsLeast-cons strategy max_latency name node l best.1
        (λ w fits v. absurd (ground (arith, unfit, fits))) least)

SelectedFrom-cons :
    (strategy : String) (max_latency : ℤ) (name : String) (node : LbNode) (l : Entries)
    (g : Go (String × ℤ))
    → IsProper strategy ((name, node) ∷ l)
    → SelectedFrom strategy max_latency l
    → consider strategy max_latency (name, node) ("", pos 0) ≡ g
    → Considered strategy max_latency name node ("", pos 0) g
    → SelectedFrom strategy max_latency ((name, node) ∷ l)
SelectedFrom-cons strategy max_latency name node l _ proper rest e (skipped unfit) = (
  rest.0,
  select_from-step strategy max_latency (name, node) l ("", pos 0) ("", pos 0) e ∙ rest.1,
  Selected-skipped strategy max_latency name node l rest.0.0 unfit rest.2,
)
SelectedFrom-cons strategy max_latency name node l _ proper rest e (taken w fits v why) =
    let full = proper.named name node (Memᴰ.head refl) in
    let r =
      select_from-Held strategy max_latency l (IsProper-tail strategy (name, node) l proper)
        (name, w) full in
    let s = Held-taken strategy max_latency name node l w r.0 fits v r.2 in
    (
      r.0,
      select_from-step strategy max_latency (name, node) l ("", pos 0) (name, w) e ∙ r.1,
      best_node r.0 (proper.named r.0.0 s.source.node s.source.member) s.source s.least,
    )
SelectedFrom-cons strategy max_latency name node l _ proper rest e (kept w fits v named above) =
    absurd (named refl)

select_from-Selected :
    (strategy : String) (max_latency : ℤ) (l : Entries)
    → IsProper strategy l
    → SelectedFrom strategy max_latency l
select_from-Selected strategy max_latency [] proper =
    (("", pos 0), unfold select_from in refl, no_node (λ k n i. elim i [ ]))
select_from-Selected strategy max_latency ((name, node) ∷ l) proper =
    SelectedFrom-cons strategy max_latency name node l _ proper
      (select_from-Selected strategy max_latency l (IsProper-tail strategy (name, node) l proper))
      refl
      (consider-Considered strategy max_latency name node ("", pos 0)
        (proper.valued name node (Memᴰ.head refl)))

-- Every node has a name and a weight other than 0.
pub record IsWeighed (e : LoadBalancerEngine) : Type 0 where
  pub named : lookup "" e.nodes ≡ none
  pub weighed : (k : String) (node : LbNode) → lookup k e.nodes ≡ some node → node.weight ≢ pos 0

range-IsProper :
    (order : List String) (e : LoadBalancerEngine)
    → IsWeighed e
    → IsProper e.strategy (range order e.nodes)
range-IsProper order e h = record {
  named = λ k node i empty. ground (
    arith,
    h.named,
    subst (λ j. lookup j e.nodes ≡ some node) empty (mem-range order e.nodes k node i),
  );
  valued = λ k node i.
      node_value-HasValue e.strategy node (h.weighed k node (mem-range order e.nodes k node i));
}

-- The choice as a statement about the nodes: no node is able, or the name is that of an able node
-- with the least load among the able nodes.
pub data Chosen (e : LoadBalancerEngine) : String → Type 0 where
  no_choice :
      ((k : String) (node : LbNode) → lookup k e.nodes ≡ some node → IsAble e node → ⊥)
      → Chosen e ""
  choice :
      (name : String) (node : LbNode) (value : ℤ)
      → lookup name e.nodes ≡ some node
      → IsAble e node
      → Load e.strategy node value
      → ((k : String) (other : LbNode) (w : ℤ)
          → lookup k e.nodes ≡ some other
          → IsAble e other
          → Load e.strategy other w
          → value ≤ℤ w)
      → Chosen e name

Selected-Chosen :
    (order : List String) (e : LoadBalancerEngine) (name : String)
    → Covers order e.nodes
    → Selected e.strategy e.config.max_latency_ms (range order e.nodes) name
    → Chosen e name
Selected-Chosen order e _ covers (no_node none_fits) = no_choice (λ k node h able. ground (
  arith,
  none_fits k node (range-mem order e.nodes k node h (covers k node h)),
  IsAble-eligible e node able,
))
Selected-Chosen order e _ covers (best_node best named c least) =
    choice best.0 c.node best.1 (mem-range order e.nodes best.0 c.node c.member)
      (eligible-IsAble e c.node c.fits) (node_value-Load e.strategy c.node best.1 c.has_value)
      (λ k other w h able load.
        least k other w (range-mem order e.nodes k other h (covers k other h))
          (IsAble-eligible e other able) (Load-node_value e.strategy other w load))

-- If every node has a name and a weight other than 0, and the loop leaves no node out, `selectNode`
-- does not panic, and returns a node that is healthy and within the latency limit, with the least
-- load under the strategy among all such nodes, or the empty name if there is no such node.
pub select_node-Chosen :
    (order : List String) (e : LoadBalancerEngine)
    → IsWeighed e
    → Covers order e.nodes
    → (name : String) × (select_node order e ≡ done name) × Chosen e name
unfolding select_node
select_node-Chosen order e h covers =
    let r =
      select_from-Selected e.strategy e.config.max_latency_ms (range order e.nodes)
        (range-IsProper order e h) in
    (r.0.0, rw r.1 refl, Selected-Chosen order e r.0.0 covers r.2)
