-- ===== src/Toposort/Build.antt =====
-- The first part of `toposort`: the graph that is built from `nodes` and `deps`.
use crubit4rust.Base.{
  ℕ, ◌+◌, ◌≤◌, ◌<◌, List, [], ◌∷◌, Option, none, some, Eq, occ, arith, ◌≡◌, refl, if◌then◌else◌,
  inl, inr, occ-append, All, subst, contains, ok, ◌==◌, Option-cases, ◌∙◌, >>=-eq-ok,
}
use crubit4rust.Toposort.{
  GraphNode, Graph, Dependency, keys, get, modify, default_node, add_predecessor, push_successor,
  insert, add_nodes, add_dep, add_deps, initial_ready,
}
use crubit4rust.Toposort.Lookup.{
  get-modify, keys-modify, get-insert, occ-keys-insert, get-eq-none, get-eq-some, occ-of-get,
}
use crubit4rust.Toposort.Edges.{in_edges, edges, occ_dep, in_edges-modify, in_edges-push}

module _ {ℓ} {NodeId : Type ℓ} ⦃e : Eq NodeId⦄ where
  -- What holds of the graph at every time: no key stands twice, `count_of_predecessors` counts
  -- the edges into the node, and edges lead to nodes of the graph. `owed` are edges that a node
  -- had which was removed, and whose targets have not been told yet.
  pub record IsGraph (g : Graph NodeId) (owed : List NodeId) : Type ℓ where
    pub unique : (k : NodeId) → occ k (keys g) ≤ 1
    pub counts :
        (k : NodeId) (node : GraphNode NodeId)
        → get k g ≡ some node
        → node.count_of_predecessors ≡ in_edges k g + occ k owed
    pub closed : (k : NodeId) → 0 < in_edges k g + occ k owed → 0 < occ k (keys g)

  -- 1 for a node without predecessors, 0 for others and for an absent key.
  abbrev pub is_ready : Option (GraphNode NodeId) → ℕ
  is_ready none = 0
  is_ready (some node) = if node.count_of_predecessors == 0 then 1 else 0

  -- Both ends of a dependency are among the nodes.
  abbrev pub IsKnown : List NodeId → Dependency NodeId → Type 0
  IsKnown nodes d = (0 < occ d.successor nodes) × (0 < occ d.predecessor nodes)

  in_edges-insert :
      (s k : NodeId) (g : Graph NodeId) → in_edges s (insert k default_node g) ≤ in_edges s g
  unfolding in_edges insert
  in_edges-insert s k [] = omega arith
  in_edges-insert s k ((j, node) ∷ g) = ground (arith, in_edges-insert s k g)

  -- A graph whose nodes have no edges yet.
  record IsBare (g : Graph NodeId) : Type ℓ where
    once : (k : NodeId) → occ k (keys g) ≤ 1
    bare :
        (k : NodeId) (node : GraphNode NodeId)
        → get k g ≡ some node
        → node.count_of_predecessors ≡ 0
    edgeless : (s : NodeId) → in_edges s g ≡ 0
    silent : (p s : NodeId) → edges p s g ≡ 0

  insert-IsBare : (j : NodeId) (g : Graph NodeId) → IsBare g → IsBare (insert j default_node g)
  insert-IsBare j g h = record {
    once = λ k. ground (arith, h.once k, occ-keys-insert k j default_node g);
    bare = λ k node p. ground (arith, get-insert k j default_node g, h.bare k node);
    edgeless = λ s. omega (arith, h.edgeless s, in_edges-insert s j g);
    silent = λ p s. ground (arith, get-insert p j default_node g, h.silent p s);
  }

  add_nodes-IsBare :
      (ks : List NodeId) (g : Graph NodeId)
      → IsBare g
      → IsBare (add_nodes ks g)
        × ((k : NodeId)
            → occ k (keys (add_nodes ks g)) ≡ (if contains ks k then 1 else occ k (keys g)))
  unfolding add_nodes
  add_nodes-IsBare [] g h = (h, λ k. refl)
  add_nodes-IsBare (j ∷ ks) g h =
      let (bare, members) = add_nodes-IsBare ks (insert j default_node g) (insert-IsBare j g h) in
      (bare, λ k. ground (arith, members k, h.once k, occ-keys-insert k j default_node g))

  empty-IsBare : IsBare []
  unfolding in_edges get
  empty-IsBare = record {
    once = λ k. omega arith;
    bare = λ k node p. cc;
    edgeless = λ s. refl;
    silent = λ p s. refl;
  }

  -- The graph of the nodes alone: each of them once, and no edges.
  pub add_nodes-IsGraph :
      (ks : List NodeId)
      → IsGraph (add_nodes ks []) []
        × ((k : NodeId) → occ k (keys (add_nodes ks [])) ≡ (if contains ks k then 1 else 0))
        × ((p s : NodeId) → edges p s (add_nodes ks []) ≡ 0)
  add_nodes-IsGraph ks =
      let (h, members) = add_nodes-IsBare ks [] empty-IsBare in
      (
        record {
          unique = h.once;
          counts = λ k node p. omega (arith, h.bare k node p, h.edgeless k);
          closed = λ k p. absurd (omega (arith, h.edgeless k));
        },
        members,
        h.silent,
      )

  module _ (d : Dependency NodeId) (g : Graph NodeId) where
    linked : Graph NodeId
    linked =
        modify d.predecessor (push_successor d.successor) (modify d.successor add_predecessor g)

    in_edges-linked :
        (k : NodeId)
        → 0 < occ d.predecessor (keys g)
        → in_edges k linked ≡ in_edges k g + (if e.beq d.successor k then 1 else 0)
    unfolding linked
    in_edges-linked k known =
        let g' = modify d.successor add_predecessor g in
        let (node, found) =
          get-eq-some d.predecessor g' (rw (keys-modify d.successor add_predecessor g) known) in
        omega (
          arith,
          in_edges-push k d.predecessor d.successor g' node found,
          in_edges-modify k d.successor add_predecessor g (λ _. refl),
        )

    keys-linked : keys linked ≡ keys g
    unfolding linked
    keys-linked = keys-modify _ _ _ ∙ keys-modify _ _ _

    counts-linked :
        (k : NodeId) (node : GraphNode NodeId)
        → get k linked ≡ some node
        → (old : GraphNode NodeId) × (get k g ≡ some old)
          × (node.count_of_predecessors
              ≡ old.count_of_predecessors + (if e.beq d.successor k then 1 else 0))
    unfolding linked
    counts-linked k node h = elim (Option-cases (get k g)) [
      | inl absent ↦ absurd (
          ground (
            arith,
            get-modify k d.successor add_predecessor g,
            get-modify k d.predecessor (push_successor d.successor)
                (modify d.successor add_predecessor g),
          ))
      | inr (old, found) ↦ (
        old,
        found,
        ground (
          arith,
          get-modify k d.successor add_predecessor g,
          get-modify k d.predecessor (push_successor d.successor)
              (modify d.successor add_predecessor g),
        ),
      )
    ]

    edges-linked :
        (p s : NodeId)
        → 0 < occ d.predecessor (keys g)
        → edges p s linked ≡ edges p s g + occ_dep p s (d ∷ [])
    unfolding linked
    edges-linked p s known =
        let g' = modify d.successor add_predecessor g in
        let to_successor = get-modify p d.predecessor (push_successor d.successor) g' in
        let counted = get-modify p d.successor add_predecessor g in
        let member = get-eq-some p g in
        elim (Option-cases (get p g)) [
          | inl absent ↦ ground (
            arith,
            to_successor,
            counted,
            get-eq-some d.predecessor g known,
            e.beq_iff d.predecessor p,
          )
          | inr (node, found) ↦
              ground (arith, to_successor, counted, occ-append s node.successors (d.successor ∷ []))
        ]

  -- One dependency more: one edge more.
  pub add_dep-IsGraph :
      (d : Dependency NodeId) (g : Graph NodeId)
      → IsGraph g []
      → IsKnown (keys g) d
      → (g' : Graph NodeId) × (add_dep d g ≡ ok g')
        × IsGraph g' []
        × (keys g' ≡ keys g)
        × ((p s : NodeId) → edges p s g' ≡ edges p s g + occ_dep p s (d ∷ []))
  unfolding add_dep linked
  add_dep-IsGraph d g h known =
      let g' = modify d.successor add_predecessor g in
      let (n, at_successor) = get-eq-some d.successor g known.0 in
      let (m, at_predecessor) =
        get-eq-some d.predecessor g' (rw (keys-modify d.successor add_predecessor g) known.1) in
      (
        linked d g,
        ground arith,
        record {
          unique = λ k. rw (keys-linked d g) (h.unique k);
          counts = λ k node found.
              let (old, was, count) = counts-linked d g k node found in
              omega (arith, h.counts k old was, in_edges-linked d g k known.1, count);
          closed = λ k pos.
              rw (keys-linked d g)
                (ground (arith, h.closed k, in_edges-linked d g k, e.beq_iff d.successor k));
        },
        keys-linked d g,
        λ p s. edges-linked d g p s known.1,
      )

  -- The whole loop over `deps`: no panic, and exactly the edges that `deps` asks for.
  pub add_deps-IsGraph :
      (ds : List (Dependency NodeId)) (g : Graph NodeId)
      → IsGraph g []
      → All (IsKnown (keys g)) ds
      → (g' : Graph NodeId) × (add_deps ds g ≡ ok g')
        × IsGraph g' []
        × (keys g' ≡ keys g)
        × ((p s : NodeId) → edges p s g' ≡ edges p s g + occ_dep p s ds)
  unfolding add_deps
  add_deps-IsGraph [] g h known = (g, refl, h, refl, λ p s. omega arith)
  add_deps-IsGraph (d ∷ ds) g h known =
      let (g', step, h', same, one) = add_dep-IsGraph d g h known.0 in
      let (g'', steps, h'', same', more) = add_deps-IsGraph ds g' h' (rw same known.1) in
      (g'', rw step steps, h'', same' ∙ same, λ p s. omega (arith, one p s, more p s))

  -- A dependency on something else than a node makes `toposort` panic.
  pub add_dep-IsKnown :
      (d : Dependency NodeId) (g g' : Graph NodeId)
      → add_dep d g ≡ ok g'
      → IsKnown (keys g) d × (keys g' ≡ keys g)
  unfolding add_dep linked
  add_dep-IsKnown d g g' h = elim (Option-cases (get d.successor g)) [
    | inl absent ↦ absurd (ground arith)
    | inr (n, at_successor) ↦
        elim (Option-cases (get d.predecessor (modify d.successor add_predecessor g))) [
          | inl absent ↦ absurd (ground arith)
          | inr (m, at_predecessor) ↦
              let same : linked d g ≡ g' = ground (arith, linked) in
              (
                (
                  occ-of-get _ g n at_successor,
                  subst (λ ks. 0 < occ d.predecessor ks) (keys-modify _ _ g)
                      (occ-of-get _ _ m at_predecessor),
                ),
                rw (← same) (keys-linked d g),
              )
        ]
  ]

  pub add_deps-IsKnown :
      (ds : List (Dependency NodeId)) (g g' : Graph NodeId)
      → add_deps ds g ≡ ok g'
      → All (IsKnown (keys g)) ds
  unfolding add_deps
  add_deps-IsKnown [] g g' h = tt
  add_deps-IsKnown (d ∷ ds) g g' h =
      let (g₁, step, steps) = >>=-eq-ok (add_dep d g) (add_deps ds) h in
      let (known, same) = add_dep-IsKnown d g g₁ step in
      (known, subst (λ ks. All (IsKnown ks) ds) same (add_deps-IsKnown ds g₁ g' steps))

  pub initial_ready-occ :
      (g : Graph NodeId)
      → ((k : NodeId) → occ k (keys g) ≤ 1)
      → (k : NodeId) → occ k (initial_ready g) ≡ is_ready (get k g)
  unfolding initial_ready get
  initial_ready-occ [] u k = refl
  initial_ready-occ ((j, node) ∷ g) u k =
      ground (arith, initial_ready-occ g (λ i. ground (arith, u i)) k, u k, get-eq-none k g)
