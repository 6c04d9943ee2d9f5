-- ===== src/ControlFlow/Petgraph.antt =====
-- What smpl/src/analysis/control_flow.rs uses of the `Graph` of the petgraph crate, as an interface:
-- its operations, and what the crate documents of them.
use smpl_mirror.Common.{ℕ, suc, List, [], ◌∷◌, Option, some, ◌==◌, if◌then◌else◌, ◌≡◌, ◌<◌, ◌⊎◌}
use smpl_mirror.ControlFlow.{Node, Edge, Cfg}

-- The nodes have the numbers from 0 on, in the order in which they are added. In which order the
-- crate lists the edges of a node is left open: `put` is what an added edge does to the list. The
-- crate documents a panic at an edge between numbers that are not of nodes: the code that adds one asks
-- `node_count` first (ControlFlow/Generate), and nothing is known of `add_edge` here in that case.
-- The crate's largest number of nodes, 2^32 - 1, at which `add_node` panics, is left out.
pub record Petgraph : Type 1 where
  pub Graph : Type 0
  pub new : Graph
  pub add_node : Node → Graph → Graph
  pub add_edge : ℕ → ℕ → Edge → Graph → Graph
  pub weight : Graph → ℕ → Option Node
  pub edges : Graph → ℕ → List (Edge × ℕ)
  pub node_count : Graph → ℕ
  pub put : Edge × ℕ → List (Edge × ℕ) → List (Edge × ℕ)
  pub node_count-new : node_count new ≡ 0
  pub node_count-add_node : (w : Node) (g : Graph) → node_count (add_node w g) ≡ suc (node_count g)
  pub weight-add_node :
      (w : Node) (g : Graph) (n : ℕ)
      → weight (add_node w g) n ≡ (if n == node_count g then some w else weight g n)
  pub edges-add_node :
      (w : Node) (g : Graph) (n : ℕ)
      → edges (add_node w g) n ≡ (if n == node_count g then [] else edges g n)
  pub node_count-add_edge :
      (a b : ℕ) (e : Edge) (g : Graph)
      → a < node_count g
      → b < node_count g
      → node_count (add_edge a b e g) ≡ node_count g
  pub weight-add_edge :
      (a b : ℕ) (e : Edge) (g : Graph) (n : ℕ)
      → a < node_count g
      → b < node_count g
      → weight (add_edge a b e g) n ≡ weight g n
  pub edges-add_edge :
      (a b : ℕ) (e : Edge) (g : Graph) (n : ℕ)
      → a < node_count g
      → b < node_count g
      → edges (add_edge a b e g) n ≡ (if n == a then put (e, b) (edges g n) else edges g n)
  pub put-first : (x : Edge × ℕ) → put x [] ≡ x ∷ []
  pub put-second : (x y : Edge × ℕ) → (put x (y ∷ []) ≡ y ∷ x ∷ []) ⊎ (put x (y ∷ []) ≡ x ∷ y ∷ [])

-- A graph with the node at which it starts.
abbrev pub cfg_of : (P : Petgraph) → P.Graph → ℕ → Cfg
cfg_of P g start = record {
  weight = P.weight g;
  edges = P.edges g;
  node_count = P.node_count g;
  start_node = start;
}
