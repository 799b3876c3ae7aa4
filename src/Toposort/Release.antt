-- ===== src/Toposort/Release.antt =====
-- The inner loop of `toposort`: the successors of a removed node lose a predecessor each.
use crubit4rust.Base.{
  ℕ, suc, ◌-◌, List, [], ◌∷◌, some, Eq, occ, arith, ◌≡◌, refl, if◌then◌else◌, inl, inr, beq_refl,
  ok, ◌==◌, Option-cases, ◌∙◌,
}
use crubit4rust.Toposort.{GraphNode, Graph, keys, get, modify, set_count, release}
use crubit4rust.Toposort.Lookup.{get-modify, keys-modify, get-eq-some}
use crubit4rust.Toposort.Edges.{edges, in_edges-modify, edges-modify}
use crubit4rust.Toposort.Build.{IsGraph, is_ready}

module _ {ℓ} {NodeId : Type ℓ} ⦃e : Eq NodeId⦄ where
  -- The graph is in order, and the heap holds exactly the nodes without predecessors, each once.
  pub record Inv (g : Graph NodeId) (ready owed : List NodeId) : Type ℓ where
    pub graph : IsGraph g owed
    pub queue : (k : NodeId) → occ k ready ≡ is_ready (get k g)

  release-step :
      (s : NodeId) (ss : List NodeId) (g : Graph NodeId) (ready : List NodeId)
      (node : GraphNode NodeId) (c : ℕ)
      → get s g ≡ some node
      → node.count_of_predecessors ≡ suc c
      → release (s ∷ ss) g ready
        ≡ release ss (modify s (set_count c) g) (if c == 0 then s ∷ ready else ready)
  unfolding release
  release-step s ss g ready node c h k = rw (h, k, release)

  step-Inv :
      (s : NodeId) (ss : List NodeId) (g : Graph NodeId) (ready : List NodeId)
      (node : GraphNode NodeId) (c : ℕ)
      → get s g ≡ some node
      → node.count_of_predecessors ≡ suc c
      → Inv g ready (s ∷ ss)
      → Inv (modify s (set_count c) g) (if c == 0 then s ∷ ready else ready) ss
  step-Inv s ss g ready node c h k inv = record {
    graph = record {
      unique = λ i. rw (keys-modify s (set_count c) g) (inv.graph.unique i);
      counts = λ i n found. elim (Option-cases (get i g)) [
        | inl absent ↦ absurd (ground (arith, get-modify i s (set_count c) g))
        | inr (old, was) ↦ ground (
          arith,
          get-modify i s (set_count c) g,
          inv.graph.counts i old was,
          e.beq_iff s i,
          in_edges-modify i s (set_count c) g (λ _. refl),
        )
      ];
      closed = λ i pos.
          rw (keys-modify s (set_count c) g)
            (inv.graph.closed i (ground (arith, in_edges-modify i s (set_count c) g (λ _. refl))));
    };
    queue = λ i. elim (Option-cases (get i g)) [
      | inl absent ↦ ground (arith, get-modify i s (set_count c) g, e.beq_iff s i, inv.queue i)
      | inr (old, was) ↦ ground (arith, get-modify i s (set_count c) g, e.beq_iff s i, inv.queue i)
    ];
  }

  -- The loop ends without a panic: every successor is still in the graph, with a predecessor to
  -- give up. Nodes and edges stay.
  pub release-Inv :
      (owed : List NodeId) (g : Graph NodeId) (ready : List NodeId)
      → Inv g ready owed
      → (g' : Graph NodeId) × (ready' : List NodeId) × (release owed g ready ≡ ok (g', ready'))
        × Inv g' ready' []
        × (keys g' ≡ keys g)
        × ((p s : NodeId) → edges p s g' ≡ edges p s g)
  unfolding release
  release-Inv [] g ready inv = (g, ready, refl, inv, refl, λ p s. refl)
  release-Inv (s ∷ ss) g ready inv =
      let (node, found) = get-eq-some s g (inv.graph.closed s (ground (arith, beq_refl s))) in
      let c = node.count_of_predecessors - 1 in
      let count : node.count_of_predecessors ≡ suc c =
        ground (arith, inv.graph.counts s node found, beq_refl s) in
      let g₁ = modify s (set_count c) g in
      let (g', ready', ends, inv', same, kept) =
        release-Inv ss g₁ (if c == 0 then s ∷ ready else ready)
          (step-Inv s ss g ready node c found count inv) in
      (
        g',
        ready',
        release-step s ss g ready node c found count ∙ ends,
        inv',
        same ∙ keys-modify s (set_count c) g,
        λ p t. kept p t ∙ edges-modify p t s (set_count c) g (λ _. refl),
      )
