-- ===== src/Toposort/Edges.antt =====
-- The edges of the graph of toposort.rs: how many lead into a node, and from one node to another.
use crubit4rust.Base.{
  ℕ, ◌+◌, ◌≤◌, ◌<◌, List, [], ◌∷◌, Option, none, some, Eq, occ, arith, ◌≡◌, refl, if◌then◌else◌,
  inl, inr, Bool-cases, beq_refl, occ-append, ltb,
}
use crubit4rust.Toposort.{GraphNode, Graph, Dependency, keys, get, modify, erase, push_successor}
use crubit4rust.Toposort.Lookup.{erase_absent}

module _ {ℓ} {NodeId : Type ℓ} ⦃e : Eq NodeId⦄ where
  -- The edges into `s`, from any node of the graph.
  unfoldable pub in_edges : NodeId → Graph NodeId → ℕ
  in_edges s [] = 0
  in_edges s ((_, node) ∷ g) = occ s node.successors + in_edges s g

  -- The edges from a node that was looked up to `s`.
  abbrev pub edges_to : NodeId → Option (GraphNode NodeId) → ℕ
  edges_to s none = 0
  edges_to s (some node) = occ s node.successors

  -- The edges from `p` to `s`.
  abbrev pub edges : NodeId → NodeId → Graph NodeId → ℕ
  edges p s g = edges_to s (get p g)

  -- How often `deps` asks for `p` before `s`.
  abbrev pub occ_dep : NodeId → NodeId → List (Dependency NodeId) → ℕ
  occ_dep p s [] = 0
  occ_dep p s (d ∷ ds) =
      (if e.beq d.predecessor p then (if e.beq d.successor s then 1 else 0) else 0) + occ_dep p s ds

  pub in_edges-modify :
      (s j : NodeId) (f : GraphNode NodeId → GraphNode NodeId) (g : Graph NodeId)
      → ((node : GraphNode NodeId) → (f node).successors ≡ node.successors)
      → in_edges s (modify j f g) ≡ in_edges s g
  unfolding in_edges modify
  in_edges-modify s j f [] same = refl
  in_edges-modify s j f ((i, node) ∷ g) same =
      ground (arith, same node, in_edges-modify s j f g same)

  pub in_edges-push :
      (s p t : NodeId) (g : Graph NodeId) (node : GraphNode NodeId)
      → get p g ≡ some node
      → in_edges s (modify p (push_successor t) g) ≡ in_edges s g + (if e.beq t s then 1 else 0)
  unfolding in_edges modify get
  in_edges-push s p t [] node h = cc
  in_edges-push s p t ((i, first) ∷ g) node h =
      ground (arith, occ-append s first.successors (t ∷ []), in_edges-push s p t g node)

  pub in_edges-erase :
      (s p : NodeId) (g : Graph NodeId) (node : GraphNode NodeId)
      → occ p (keys g) ≤ 1
      → get p g ≡ some node
      → in_edges s (erase p g) + occ s node.successors ≡ in_edges s g
  unfolding in_edges erase get
  in_edges-erase s p [] node u h = cc
  in_edges-erase s p ((i, first) ∷ g) node u h =
      ground (arith, erase_absent p g, in_edges-erase s p g node)

  pub edges-modify :
      (p s j : NodeId) (f : GraphNode NodeId → GraphNode NodeId) (g : Graph NodeId)
      → ((node : GraphNode NodeId) → (f node).successors ≡ node.successors)
      → edges p s (modify j f g) ≡ edges p s g
  unfolding modify get
  edges-modify p s j f [] same = refl
  edges-modify p s j f ((i, node) ∷ g) same = ground (arith, same node, edges-modify p s j f g same)

  -- An edge from a node is among the edges into its target.
  pub edges-le-in_edges : (p s : NodeId) (g : Graph NodeId) → edges p s g ≤ in_edges s g
  unfolding in_edges get
  edges-le-in_edges p s [] = omega arith
  edges-le-in_edges p s ((i, node) ∷ g) = ground (arith, edges-le-in_edges p s g)

  -- A node with an edge into it has a predecessor, provided that no key stands twice.
  pub in_edges_source :
      (s : NodeId) (g : Graph NodeId)
      → ((k : NodeId) → occ k (keys g) ≤ 1)
      → 0 < in_edges s g
      → (p : NodeId) × (0 < edges p s g) × (0 < occ p (keys g))
  unfolding in_edges get
  in_edges_source s [] u h = elim h [ ]
  in_edges_source s ((i, node) ∷ g) u h = elim (Bool-cases (ltb 0 (occ s node.successors))) [
    | inl here ↦ (i, ground (arith, beq_refl i), ground (arith, beq_refl i))
    | inr later ↦
        let (p, out, member) = in_edges_source s g (λ k. ground (arith, u k)) (ground arith) in
        (p, ground (arith, u p), ground arith)
  ]
