-- ===== src/Toposort/Preferred.antt =====
-- `toposort` keeps a preferred order that is a topological order already.
use Prim.Native.Nat.{Ordering}
use crubit4rust.Base.{
  ◌<◌, List, [], ◌∷◌, ◌++◌, some, Eq, occ, arith, ◌≡◌, inl, inr, Bool-cases, beq_refl, occ-append,
  All, subst, ok, Option-cases, ltb,
}
use crubit4rust.Toposort.{Graph, keys, toposort, Dependency, TopoSortResult, pop, erase}
use crubit4rust.Toposort.Lookup.{get-eq-some, occ-of-get, occ-keys-erase}
use crubit4rust.Toposort.Edges.{in_edges, occ_dep, in_edges_source}
use crubit4rust.Toposort.Drain.{Progress, ready-source}
use crubit4rust.Toposort.Queue.{occ-sort_by, Orders, Le, IsSorted, pop-Le, occ-pop, pop-eq-none}
use crubit4rust.Toposort.Outcome.{Built, ok-Done}

module _ {ℓ} {NodeId : Type ℓ} ⦃e : Eq NodeId⦄ (cmp : NodeId → NodeId → Ordering)
    (o : Orders cmp) where
  All-concat :
      (y : NodeId) (l : List NodeId) (x : NodeId)
      → All (Le cmp y) l
      → Le cmp y x
      → All (Le cmp y) (l ++ x ∷ [])
  All-concat y [] x a h = (h, tt)
  All-concat y (z ∷ l) x a h = (a.0, All-concat y l x a.1 h)

  Sorted-concat :
      (l : List NodeId) (x : NodeId)
      → IsSorted cmp l
      → ((k : NodeId) → 0 < occ k l → Le cmp k x)
      → IsSorted cmp (l ++ x ∷ [])
  Sorted-concat [] x s h = (tt, tt)
  Sorted-concat (y ∷ l) x s h = (
    All-concat y l x s.0 (h y (ground (arith, beq_refl y))),
    Sorted-concat l x s.1 (λ k m. h k (omega arith)),
  )

  module _ (nodes : List NodeId) (deps : List (Dependency NodeId))
      (forward : (p s : NodeId) → 0 < occ_dep p s deps → cmp p s ≡ Ordering.lt) where
    no_predecessor :
        (g₀ g : Graph NodeId) (ready ordered : List NodeId) (m : NodeId)
        → Built cmp nodes deps g₀
        → Progress g₀ g ready ordered
        → ((k : NodeId) → 0 < occ k (keys g) → Le cmp m k)
        → in_edges m g ≡ 0
    no_predecessor g₀ g ready ordered m built h first = elim (Bool-cases (ltb 0 (in_edges m g))) [
      | inr none_in ↦ ground arith
      | inl some_in ↦
          let (p, edge, member) = in_edges_source m g h.inv.graph.unique (ground arith) in
          let asked : 0 < occ_dep p m deps = omega (arith, h.kept p m member, built.links p m) in
          absurd (first p member (o.flip_lt p m (forward p m asked)))
    ]

    -- A remaining node that stands before all others has no predecessor left, so it is ready.
    least_ready :
        (g₀ g : Graph NodeId) (ready ordered : List NodeId) (z : NodeId)
        → Built cmp nodes deps g₀
        → Progress g₀ g ready ordered
        → 0 < occ z (keys g)
        → (m : NodeId) × (0 < occ m ready) × ((k : NodeId) → 0 < occ k (keys g) → Le cmp m k)
    least_ready g₀ g ready ordered z built h here = elim (Option-cases (pop cmp (keys g))) [
      | inl empty ↦
          absurd (omega (arith, subst (λ l. 0 < occ z l) (pop-eq-none cmp (keys g) empty) here))
      | inr ((m, others), popped) ↦
          let member : 0 < occ m (keys g) =
            ground (arith, occ-pop cmp m m (keys g) others popped, beq_refl m) in
          let first = pop-Le cmp o m (keys g) others popped in
          let (node, found) = get-eq-some m g member in
          let free : in_edges m g ≡ 0 = no_predecessor g₀ g ready ordered m built h first in
          (m, ground (arith, h.inv.queue m, h.inv.graph.counts m node found), first)
    ]

    -- Both parts are in order, and what is done stands before what remains.
    abbrev InOrder : List NodeId → List NodeId → Type ℓ
    InOrder rest ordered =
        IsSorted cmp ordered × ((k j : NodeId) → 0 < occ k ordered → 0 < occ j rest → Le cmp k j)

    InOrder-round :
        (g₀ g : Graph NodeId) (ready ordered rest : List NodeId) (x : NodeId)
        → Built cmp nodes deps g₀
        → Progress g₀ g ready ordered
        → pop cmp ready ≡ some (x, rest)
        → InOrder (keys g) ordered
        → InOrder (keys (erase x g)) (ordered ++ x ∷ [])
    InOrder-round g₀ g ready ordered rest x built h popped done =
        let in_heap : 0 < occ x ready =
          ground (arith, occ-pop cmp x x ready rest popped, beq_refl x) in
        let (node, found, _) = ready-source x g ready h.inv in_heap in
        let (m, in_ready, first) =
          least_ready g₀ g ready ordered x built h (occ-of-get x g node found) in
        let before = λ (k : NodeId) (here : 0 < occ k (keys g)).
          o.le_trans x m k (pop-Le cmp o x ready rest popped m in_ready) (first k here) in
        (
          Sorted-concat ordered x done.0
              (λ k member. done.1 k x member (occ-of-get x g node found)),
          λ k j member left.
              let here : 0 < occ j (keys g) = ground (arith, occ-keys-erase j x g) in
              elim (Bool-cases (e.beq x k)) [
                | inl eq ↦ subst (λ t. Le cmp t j) ((e.beq_iff x k).0 eq) (before j here)
                | inr ne ↦ done.1 k j (ground (arith, occ-append k ordered (x ∷ []))) here
              ],
        )

    -- If every dependency goes from an earlier to a later node in the preferred order, nothing
    -- fails and `ordered` is in the preferred order.
    pub toposort_preferred :
        (r : TopoSortResult NodeId)
        → toposort cmp nodes deps ≡ ok r
        → IsSorted cmp r.ordered × ((k : NodeId) → occ k r.failed ≡ 0)
    toposort_preferred r ends =
        let d =
          ok-Done cmp nodes deps InOrder (λ g built. (tt, λ k j h _. absurd (omega arith)))
            InOrder-round r ends in
        (
          d.property.0,
          λ k.
              let stuck = least_ready d.graph d.rest [] r.ordered k d.built d.final in
              let none_left : ¬ (0 < occ k (keys d.rest)) =
                λ h. let (m, in_empty, _) = stuck h in absurd (omega arith) in
              rw (d.failed) (omega (arith, occ-sort_by cmp k (keys d.rest))),
        )
