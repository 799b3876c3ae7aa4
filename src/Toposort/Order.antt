-- ===== src/Toposort/Order.antt =====
-- What `toposort` returns: which nodes, in which order, and why the others failed.
use Prim.Native.Nat.{Ordering}
use crubit4rust.Base.{
  ℕ, zero, suc, ◌+◌, ◌<◌, List, [], ◌∷◌, ◌++◌, Eq, occ, arith, ◌≡◌, if◌then◌else◌, All, subst, ok,
  contains, ◌↔◌,
}
use crubit4rust.Toposort.{keys, toposort, Dependency, TopoSortResult}
use crubit4rust.Toposort.Lookup.{get-eq-some}
use crubit4rust.Toposort.Edges.{in_edges, edges, occ_dep, in_edges_source}
use crubit4rust.Toposort.Build.{IsKnown}
use crubit4rust.Toposort.Drain.{Respects, Respects-split}
use crubit4rust.Toposort.Queue.{occ-sort_by, Orders, IsSorted, sort_by-IsSorted}
use crubit4rust.Toposort.Outcome.{returned, toposort-Done, toposort-IsKnown}

module _ {ℓ} {NodeId : Type ℓ} ⦃e : Eq NodeId⦄ (cmp : NodeId → NodeId → Ordering)
    (nodes : List NodeId) (deps : List (Dependency NodeId)) where
  -- `toposort` returns, within as many rounds of its loop as there are nodes and with none of its
  -- `unwrap` and `assert` failing, exactly when both ends of every dependency are among the nodes;
  -- otherwise it panics.
  pub toposort_returns_iff :
      ((r : TopoSortResult NodeId) × (toposort cmp nodes deps ≡ ok r)) ↔ All (IsKnown nodes) deps
  toposort_returns_iff = (
    λ (r, h). toposort-IsKnown cmp nodes deps r h,
    λ known.
        let (r, h, _) =
          toposort-Done cmp nodes deps (λ _ _. Unit {0}) (λ _ _. tt) (λ _ _ _ _ _ _ _ _ _ _. tt)
            known in
        (r, h),
  )

  module _ (r : TopoSortResult NodeId) (ends : toposort cmp nodes deps ≡ ok r) where
    -- Each node stands once in the result, in `ordered` or in `failed`, and nothing else does.
    pub toposort_partition :
        (k : NodeId) → occ k r.ordered + occ k r.failed ≡ (if contains nodes k then 1 else 0)
    toposort_partition k =
        let d = returned cmp nodes deps r ends in
        rw (d.failed)
          (omega (arith, occ-sort_by cmp k (keys d.rest), d.final.whole k, d.built.members k))

    -- Where `ordered` has a node, everything that `deps` asks for before it stands before it.
    pub toposort_order :
        (xs ys : List NodeId) (p s : NodeId)
        → r.ordered ≡ xs ++ s ∷ ys
        → 0 < occ_dep p s deps
        → 0 < occ p xs
    toposort_order xs ys p s split asked =
        let d = returned cmp nodes deps r ends in
        let respects = subst (Respects (λ p s. edges p s d.graph) []) split d.final.order in
        omega (
          arith,
          Respects-split (λ p s. edges p s d.graph) xs [] ys s p respects
              (omega (arith, d.built.links p s)),
        )

    -- A failed node waits for another failed node: it has a predecessor that failed too.
    pub toposort_failed :
        (s : NodeId)
        → 0 < occ s r.failed
        → (p : NodeId) × (0 < occ_dep p s deps) × (0 < occ p r.failed)
    toposort_failed s h =
        let d = returned cmp nodes deps r ends in
        let graph = d.final.inv.graph in
        let in_rest = λ (k : NodeId). occ-sort_by cmp k (keys d.rest) in
        let here : 0 < occ s (keys d.rest) =
          omega (arith, in_rest s, subst (λ l. 0 < occ s l) d.failed h) in
        let (node, found) = get-eq-some s d.rest here in
        let waits : 0 < in_edges s d.rest =
          ground (arith, d.final.inv.queue s, graph.counts s node found) in
        let (p, edge, member) = in_edges_source s d.rest graph.unique waits in
        (
          p,
          omega (arith, d.final.kept p s member, d.built.links p s),
          rw (d.failed) (omega (arith, in_rest p)),
        )

    falls :
        (rank : NodeId → ℕ)
        → ((p s : NodeId) → 0 < occ_dep p s deps → rank p < rank s)
        → (n : ℕ) (s : NodeId) → rank s < n
        → ¬ (0 < occ s r.failed)
    falls rank down zero s lt h = absurd (omega arith)
    falls rank down (suc n) s lt h =
        let (p, asked, failed) = toposort_failed s h in
        falls rank down n p (omega (arith, down p s asked)) failed

    -- If the dependencies form no cycle, shown by a rank that grows along each, no node fails.
    pub toposort_acyclic :
        (rank : NodeId → ℕ)
        → ((p s : NodeId) → 0 < occ_dep p s deps → rank p < rank s)
        → (k : NodeId) → occ k r.failed ≡ 0
    toposort_acyclic rank down k =
        let no = falls rank down (rank k + 1) k (omega arith) in omega arith

    -- The failed nodes come in the preferred order.
    pub toposort_failed-IsSorted : Orders cmp → IsSorted cmp r.failed
    toposort_failed-IsSorted o =
        let d = returned cmp nodes deps r ends in
        rw (d.failed) (sort_by-IsSorted cmp o (keys d.rest))
