-- ===== src/ControlFlow/Listed.antt =====
-- An implementation of the interface of the petgraph crate, by a list of the nodes with their edges:
-- it stands for the graph in the tests of smpl/src/analysis/control_flow.rs.
use smpl_mirror.Common.{
  ℕ, zero, suc, List, [], ◌∷◌, Option, none, some, ◌==◌, if◌then◌else◌, ◌≡◌, refl, ◌<◌, inr, ap,
  arith,
}
use smpl_mirror.ControlFlow.{Node, Edge}
use smpl_mirror.ControlFlow.Petgraph.{Petgraph}

abbrev pub Nodes : Type 0
Nodes = List (Node × List (Edge × ℕ))

unfoldable pub weight_of : Nodes → ℕ → Option Node
weight_of [] n = none
weight_of ((w, es) ∷ g) zero = some w
weight_of ((w, es) ∷ g) (suc n) = weight_of g n

unfoldable pub edges_of : Nodes → ℕ → List (Edge × ℕ)
edges_of [] n = []
edges_of ((w, es) ∷ g) zero = es
edges_of ((w, es) ∷ g) (suc n) = edges_of g n

unfoldable pub count : Nodes → ℕ
count [] = 0
count (node ∷ g) = suc (count g)

unfoldable pub with_node : Node → Nodes → Nodes
with_node w [] = (w, []) ∷ []
with_node w (node ∷ g) = node ∷ with_node w g

-- Without a node of the number, nothing changes.
unfoldable pub with_edge : ℕ → ℕ → Edge → Nodes → Nodes
with_edge a b e [] = []
with_edge zero b e ((w, es) ∷ g) = (w, (e, b) ∷ es) ∷ g
with_edge (suc a) b e (node ∷ g) = node ∷ with_edge a b e g

pub count-with_node : (w : Node) (g : Nodes) → count (with_node w g) ≡ suc (count g)
unfolding count with_node
count-with_node w [] = refl
count-with_node w (node ∷ g) = ap suc (count-with_node w g)

pub weight_of-with_node :
    (w : Node) (g : Nodes) (n : ℕ)
    → weight_of (with_node w g) n ≡ (if n == count g then some w else weight_of g n)
unfolding weight_of count with_node
weight_of-with_node w [] zero = ground arith
weight_of-with_node w [] (suc n) = ground arith
weight_of-with_node w (node ∷ g) zero = ground arith
weight_of-with_node w (node ∷ g) (suc n) = rw (weight_of-with_node w g n) (ground arith)

pub edges_of-with_node :
    (w : Node) (g : Nodes) (n : ℕ)
    → edges_of (with_node w g) n ≡ (if n == count g then [] else edges_of g n)
unfolding edges_of count with_node
edges_of-with_node w [] zero = ground arith
edges_of-with_node w [] (suc n) = ground arith
edges_of-with_node w (node ∷ g) zero = ground arith
edges_of-with_node w (node ∷ g) (suc n) = rw (edges_of-with_node w g n) (ground arith)

pub count-with_edge : (a b : ℕ) (e : Edge) (g : Nodes) → count (with_edge a b e g) ≡ count g
unfolding count with_edge
count-with_edge a b e [] = refl
count-with_edge zero b e (node ∷ g) = refl
count-with_edge (suc a) b e (node ∷ g) = ap suc (count-with_edge a b e g)

pub weight_of-with_edge :
    (a b : ℕ) (e : Edge) (g : Nodes) (n : ℕ) → weight_of (with_edge a b e g) n ≡ weight_of g n
unfolding weight_of with_edge
weight_of-with_edge a b e [] n = refl
weight_of-with_edge zero b e (node ∷ g) zero = refl
weight_of-with_edge zero b e (node ∷ g) (suc n) = refl
weight_of-with_edge (suc a) b e (node ∷ g) zero = refl
weight_of-with_edge (suc a) b e (node ∷ g) (suc n) = weight_of-with_edge a b e g n

pub edges_of-with_edge :
    (a b : ℕ) (e : Edge) (g : Nodes) (n : ℕ)
    → a < count g
    → edges_of (with_edge a b e g) n ≡ (if n == a then (e, b) ∷ edges_of g n else edges_of g n)
unfolding edges_of with_edge count
edges_of-with_edge a b e [] n h = ground (arith, h)
edges_of-with_edge zero b e (node ∷ g) zero h = ground arith
edges_of-with_edge zero b e (node ∷ g) (suc n) h = ground arith
edges_of-with_edge (suc a) b e (node ∷ g) zero h = ground arith
edges_of-with_edge (suc a) b e (node ∷ g) (suc n) h =
    rw (edges_of-with_edge a b e g n (omega (arith, h))) (ground arith)

-- The newest edge of a node is the first.
unfoldable pub listed : Petgraph
unfolding weight_of edges_of count with_node with_edge
listed = record {
  Graph = Nodes;
  new = [];
  add_node = with_node;
  add_edge = with_edge;
  weight = weight_of;
  edges = edges_of;
  node_count = count;
  put = λ x xs. x ∷ xs;
  node_count-new = refl;
  node_count-add_node = count-with_node;
  weight-add_node = weight_of-with_node;
  edges-add_node = edges_of-with_node;
  node_count-add_edge = λ a b e g h h'. count-with_edge a b e g;
  weight-add_edge = λ a b e g n h h'. weight_of-with_edge a b e g n;
  edges-add_edge = λ a b e g n h h'. edges_of-with_edge a b e g n h;
  put-first = λ x. refl;
  put-second = λ x y. inr refl;
}
