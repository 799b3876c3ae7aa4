-- ===== src/Toposort/Drain.antt =====
-- The outer loop of `toposort` and the whole function: it ends, and what holds at the end.
use Prim.Native.Nat.{Ordering}
use crubit4rust.Base.{
  ℕ, zero, suc, ◌+◌, ◌≤◌, ◌<◌, List, [], ◌∷◌, ◌++◌, none, some, Eq, occ, arith, ◌≡◌, refl,
  if◌then◌else◌, inl, inr, beq_refl, ap, length, occ-append, subst, sym, ok, Option-cases, ◌∙◌,
}
use crubit4rust.Toposort.{GraphNode, Graph, keys, get, release, pop, drain, erase}
use crubit4rust.Toposort.Lookup.{get-erase, occ-keys-erase, length-erase, occ-of-get}
use crubit4rust.Toposort.Edges.{in_edges, edges, in_edges-erase, edges-le-in_edges}
use crubit4rust.Toposort.Release.{Inv, release-Inv}
use crubit4rust.Toposort.Queue.{occ-pop, pop-eq-none}

module _ {ℓ} {NodeId : Type ℓ} ⦃e : Eq NodeId⦄ where
  -- Every `s` in `l` comes after each `p` with an edge to it; `seen` stands before the list.
  abbrev pub Respects : (NodeId → NodeId → ℕ) → List NodeId → List NodeId → Type ℓ
  Respects edge seen [] = Unit
  Respects edge seen (s ∷ l) =
      ((p : NodeId) → 0 < edge p s → 0 < occ p seen) × Respects edge (seen ++ s ∷ []) l

  pub Respects-concat :
      (edge : NodeId → NodeId → ℕ) (l seen : List NodeId) (x : NodeId)
      → Respects edge seen l
      → ((p : NodeId) → 0 < edge p x → 0 < occ p seen + occ p l)
      → Respects edge seen (l ++ x ∷ [])
  Respects-concat edge [] seen x h before = (λ p pos. omega (arith, before p pos), tt)
  Respects-concat edge (s ∷ l) seen x h before = (
    h.0,
    Respects-concat edge l (seen ++ s ∷ []) x h.1
        (λ p pos. omega (arith, before p pos, occ-append p seen (s ∷ []))),
  )

  pub Respects-split :
      (edge : NodeId → NodeId → ℕ) (xs seen ys : List NodeId) (s p : NodeId)
      → Respects edge seen (xs ++ s ∷ ys)
      → 0 < edge p s
      → 0 < occ p seen + occ p xs
  Respects-split edge [] seen ys s p h pos = omega (arith, h.0 p pos)
  Respects-split edge (x ∷ xs) seen ys s p h pos =
      omega
        (arith, Respects-split edge xs (seen ++ x ∷ []) ys s p h.1 pos, occ-append p seen (x ∷ []))

  -- A removed node leaves its successors as what is owed.
  erase-Inv :
      (x : NodeId) (g : Graph NodeId) (ready rest : List NodeId) (node : GraphNode NodeId)
      → get x g ≡ some node
      → ((k : NodeId) → occ k ready ≡ (if e.beq x k then 1 else 0) + occ k rest)
      → Inv g ready []
      → Inv (erase x g) rest node.successors
  erase-Inv x g ready rest node found popped inv = record {
    graph = record {
      unique = λ k. ground (arith, occ-keys-erase k x g, inv.graph.unique k);
      counts = λ k n here. ground (
        arith,
        get-erase k x g,
        inv.graph.counts k n,
        in_edges-erase k x g node (inv.graph.unique x) found,
      );
      closed = λ k pos. ground (
        arith,
        popped x,
        inv.queue x,
        inv.graph.counts x node found,
        beq_refl x,
        e.beq_iff x k,
        inv.graph.closed k,
        occ-keys-erase k x g,
        in_edges-erase k x g node (inv.graph.unique x) found,
      );
    };
    queue = λ k. ground (
      arith,
      get-erase k x g,
      e.beq_iff x k,
      inv.queue k,
      popped k,
      inv.graph.counts x node found,
    );
  }

  pub length-keys : (g : Graph NodeId) → length (keys g) ≡ length g
  length-keys [] = refl
  length-keys (_ ∷ g) = ap suc (length-keys g)

  -- What holds before each round: `g₀` is the whole graph, `g` what is left of it.
  pub record Progress (g₀ g : Graph NodeId) (ready ordered : List NodeId) : Type ℓ where
    pub inv : Inv g ready []
    pub whole : (k : NodeId) → occ k ordered + occ k (keys g) ≡ occ k (keys g₀)
    pub kept : (p s : NodeId) → 0 < occ p (keys g) → edges p s g ≡ edges p s g₀
    pub order : Respects (λ p s. edges p s g₀) [] ordered

  edges-known : (p s : NodeId) (g : Graph NodeId) → 0 < edges p s g → 0 < occ p (keys g)
  edges-known p s g h = elim (Option-cases (get p g)) [
    | inl absent ↦ absurd (ground arith)
    | inr (node, found) ↦ occ-of-get p g node found
  ]

  -- A ready node is in the graph, and no edge of the graph leads to it.
  pub ready-source :
      (x : NodeId) (g : Graph NodeId) (ready : List NodeId)
      → Inv g ready []
      → 0 < occ x ready
      → (node : GraphNode NodeId) × (get x g ≡ some node) × (in_edges x g ≡ 0)
  ready-source x g ready inv h = elim (Option-cases (get x g)) [
    | inl absent ↦ absurd (ground (arith, inv.queue x))
    | inr (node, found) ↦ (node, found, ground (arith, inv.queue x, inv.graph.counts x node found))
  ]

module _ {ℓ} {NodeId : Type ℓ} ⦃e : Eq NodeId⦄ (cmp : NodeId → NodeId → Ordering) where
  drain-end :
      (fuel : ℕ) (g : Graph NodeId) (ready ordered : List NodeId)
      → pop cmp ready ≡ none
      → drain cmp fuel g ready ordered ≡ ok (g, ordered)
  unfolding drain
  drain-end zero g ready ordered h = rw (h, drain)
  drain-end (suc fuel) g ready ordered h = rw (h, drain)

  drain-step :
      (g g' : Graph NodeId) (ready ready' rest ordered : List NodeId) (x : NodeId)
      (node : GraphNode NodeId)
      → pop cmp ready ≡ some (x, rest)
      → get x g ≡ some node
      → release node.successors (erase x g) rest ≡ ok (g', ready')
      → (fuel : ℕ)
      → drain cmp (suc fuel) g ready ordered ≡ drain cmp fuel g' ready' (ordered ++ x ∷ [])
  unfolding drain
  drain-step g g' ready ready' rest ordered x node popped found ends fuel =
      rw (popped, drain, found, ends) refl

  -- One round of the `while let` loop.
  round :
      (g₀ g : Graph NodeId) (ready ordered rest : List NodeId) (x : NodeId)
      → Progress g₀ g ready ordered
      → pop cmp ready ≡ some (x, rest)
      → (g' : Graph NodeId) × (ready' : List NodeId) × ((fuel : ℕ)
          → drain cmp (suc fuel) g ready ordered ≡ drain cmp fuel g' ready' (ordered ++ x ∷ []))
        × Progress g₀ g' ready' (ordered ++ x ∷ [])
        × (keys g' ≡ keys (erase x g))
        × (length g' + 1 ≡ length g)
  round g₀ g ready ordered rest x h popped =
      let taken = λ (k : NodeId). occ-pop cmp k x ready rest popped in
      let in_heap : 0 < occ x ready = ground (arith, taken x, beq_refl x) in
      let (node, found, none_in) = ready-source x g ready h.inv in_heap in
      let (g', ready', ends, inv', same, kept) =
        release-Inv node.successors (erase x g) rest
          (erase-Inv x g ready rest node found taken h.inv) in
      (
        g',
        ready',
        λ fuel. drain-step g g' ready ready' rest ordered x node popped found ends fuel,
        record {
          inv = inv';
          whole = λ k. rw same (
              ground (
                arith,
                h.whole k,
                occ-keys-erase k x g,
                occ-append k ordered (x ∷ []),
                h.inv.graph.unique x,
                occ-of-get x g node found,
                e.beq_iff x k,
              ));
          kept = λ p s pos. ground (
            arith,
            kept p s,
            get-erase p x g,
            h.kept p s,
            occ-keys-erase p x g,
            subst (λ ks. 0 < occ p ks) same pos,
          );
          order =
              Respects-concat (λ p s. edges p s g₀) ordered [] x h.order
                λ p pos.
                  ground
                    (arith, h.whole p, h.kept p x, edges-le-in_edges p x g, edges-known p x g₀ pos);
        },
        same,
        omega (
          arith,
          length-erase x g (ground (arith, h.inv.graph.unique x, occ-of-get x g node found)),
          ap length same,
          length-keys g',
          length-keys (erase x g),
        ),
      )

  -- With fuel for each node of the graph the loop ends, and no round panics. A property `P` of the
  -- remaining ids and of `ordered` that a round keeps holds at the end.
  pub drain-Progress {κ} :
      (P : List NodeId → List NodeId → Type κ) (g₀ : Graph NodeId)
      → ((g : Graph NodeId) (ready ordered rest : List NodeId) (x : NodeId)
          → Progress g₀ g ready ordered
          → pop cmp ready ≡ some (x, rest)
          → P (keys g) ordered
          → P (keys (erase x g)) (ordered ++ x ∷ []))
      → (fuel : ℕ) (g : Graph NodeId) (ready ordered : List NodeId) → length g ≤ fuel
      → Progress g₀ g ready ordered
      → P (keys g) ordered
      → (g' : Graph NodeId) × (ordered' : List NodeId) × (drain cmp fuel g ready ordered
          ≡ ok (g', ordered'))
        × Progress g₀ g' [] ordered'
        × P (keys g') ordered'
  drain-Progress P g₀ keep zero g ready ordered enough h p = elim (Option-cases (pop cmp ready)) [
    | inl empty ↦ (
      g,
      ordered,
      drain-end zero g ready ordered empty,
      subst (λ r. Progress g₀ g r ordered) (pop-eq-none cmp ready empty) h,
      p,
    )
    | inr ((x, rest), popped) ↦
        let (g', ready', _, _, _, shorter) = round g₀ g ready ordered rest x h popped in
        absurd (omega arith)
  ]
  drain-Progress P g₀ keep (suc fuel) g ready ordered enough h p =
      elim (Option-cases (pop cmp ready)) [
        | inl empty ↦ (
          g,
          ordered,
          drain-end (suc fuel) g ready ordered empty,
          subst (λ r. Progress g₀ g r ordered) (pop-eq-none cmp ready empty) h,
          p,
        )
        | inr ((x, rest), popped) ↦
            let (g', ready', step, h', same, shorter) = round g₀ g ready ordered rest x h popped in
            let p' : P (keys g') (ordered ++ x ∷ []) =
              subst (λ ks. P ks (ordered ++ x ∷ [])) (sym same)
                (keep g ready ordered rest x h popped p) in
            let (g'', ordered', ends, h'', p'') =
              drain-Progress P g₀ keep fuel g' ready' (ordered ++ x ∷ []) (omega arith) h' p' in
            (g'', ordered', step fuel ∙ ends, h'', p'')
      ]
