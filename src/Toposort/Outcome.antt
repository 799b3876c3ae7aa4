-- ===== src/Toposort/Outcome.antt =====
-- How a call of `toposort` comes about: the graph that it builds, and the end of its loop.
use Prim.Native.Nat.{Ordering}
use crubit4rust.Base.{
  ◌<◌, true, List, [], ◌∷◌, ◌++◌, some, Eq, occ, arith, ◌≡◌, refl, if◌then◌else◌, length, All,
  subst, sym, ok, ◌∙◌, contains, ◌↔◌, >>=-eq-ok, ok-injective,
}
use crubit4rust.Toposort.{
  Graph, keys, toposort, add_nodes, add_deps, sort_by, initial_ready, Dependency, TopoSortResult,
  erase, pop,
}
use crubit4rust.Toposort.Edges.{edges, occ_dep}
use crubit4rust.Toposort.Build.{
  IsKnown, add_nodes-IsGraph, add_deps-IsGraph, add_deps-IsKnown, initial_ready-occ,
}
use crubit4rust.Toposort.Drain.{Progress, drain-Progress}

module _ {ℓ} {NodeId : Type ℓ} ⦃e : Eq NodeId⦄ where
  pub contains-occ : (ks : List NodeId) (k : NodeId) → (contains ks k ≡ true) ↔ (0 < occ k ks)
  contains-occ [] k = (λ h. cc, λ h. absurd (omega arith))
  contains-occ (j ∷ ks) k =
      (λ h. ground (arith, (contains-occ ks k).0), λ h. ground (arith, (contains-occ ks k).1))

  All-IsKnown :
      (ks js : List NodeId)
      → ((k : NodeId) → 0 < occ k ks → 0 < occ k js)
      → (ds : List (Dependency NodeId)) → All (IsKnown ks) ds
      → All (IsKnown js) ds
  All-IsKnown ks js f [] h = tt
  All-IsKnown ks js f (d ∷ ds) h = ((f _ h.0.0, f _ h.0.1), All-IsKnown ks js f ds h.1)

module _ {ℓ} {NodeId : Type ℓ} ⦃e : Eq NodeId⦄ (cmp : NodeId → NodeId → Ordering)
    (nodes : List NodeId) (deps : List (Dependency NodeId)) where
  -- The graph that `toposort` builds: each node once, and the edges of `deps`.
  pub record Built (g : Graph NodeId) : Type ℓ where
    pub builds : add_deps deps (add_nodes nodes []) ≡ ok g
    pub start : Progress g g (initial_ready g) []
    pub members : (k : NodeId) → occ k (keys g) ≡ (if contains nodes k then 1 else 0)
    pub links : (p s : NodeId) → edges p s g ≡ occ_dep p s deps

  pub build : All (IsKnown nodes) deps → (g : Graph NodeId) × Built g
  build known =
      let (bare, members, silent) = add_nodes-IsGraph nodes in
      let g₀ = add_nodes nodes [] in
      let known' =
        All-IsKnown nodes (keys g₀) (λ k h. ground (arith, members k, (contains-occ nodes k).1 h))
          deps known in
      let (g, builds, graph, same, links) = add_deps-IsGraph deps g₀ bare known' in
      (
        g,
        record {
          builds = builds;
          start = record {
            inv = record { graph = graph; queue = initial_ready-occ g graph.unique };
            whole = λ k. omega arith;
            kept = λ p s h. refl;
            order = tt;
          };
          members = λ k. rw same (members k);
          links = λ p s. omega (arith, links p s, silent p s);
        },
      )

  pub toposort-IsKnown :
      (r : TopoSortResult NodeId) → toposort cmp nodes deps ≡ ok r → All (IsKnown nodes) deps
  unfolding toposort
  toposort-IsKnown r h =
      let (bare, members, silent) = add_nodes-IsGraph nodes in
      let (g, builds, _) = >>=-eq-ok (add_deps deps (add_nodes nodes [])) _ h in
      All-IsKnown (keys (add_nodes nodes [])) nodes
        (λ k pos. ground (arith, members k, (contains-occ nodes k).0)) deps
        (add_deps-IsKnown deps (add_nodes nodes []) g builds)

  -- How a successful call came about, with a property `P` that every round of the loop keeps.
  pub record Done {κ} (P : List NodeId → List NodeId → Type κ) (r : TopoSortResult NodeId)
      : Type (ℓ ⊔ κ) where
    pub graph : Graph NodeId
    pub rest : Graph NodeId
    pub built : Built graph
    pub final : Progress graph rest [] r.ordered
    pub failed : r.failed ≡ sort_by cmp (keys rest)
    pub property : P (keys rest) r.ordered

  pub toposort-Done {κ} :
      (P : List NodeId → List NodeId → Type κ)
      → ((g : Graph NodeId) → Built g → P (keys g) [])
      → ((g₀ g : Graph NodeId) (ready ordered rest : List NodeId) (x : NodeId)
          → Built g₀
          → Progress g₀ g ready ordered
          → pop cmp ready ≡ some (x, rest)
          → P (keys g) ordered
          → P (keys (erase x g)) (ordered ++ x ∷ []))
      → All (IsKnown nodes) deps
      → (r : TopoSortResult NodeId) × (toposort cmp nodes deps ≡ ok r) × Done P r
  unfolding toposort
  toposort-Done P begin keep known =
      let (g, built) = build known in
      let (g', ordered, ends, final, p) =
        drain-Progress cmp P g (λ g₁ ready ordered rest x. keep g g₁ ready ordered rest x built)
          (length g) g (initial_ready g) [] (omega arith) built.start (begin g built) in
      (
        record { ordered = ordered; failed = sort_by cmp (keys g') },
        rw (built.builds, ends) refl,
        record { graph = g; rest = g'; built = built; final = final; failed = refl; property = p },
      )

  -- The same for a call that is known to have returned `r`.
  pub ok-Done {κ} :
      (P : List NodeId → List NodeId → Type κ)
      → ((g : Graph NodeId) → Built g → P (keys g) [])
      → ((g₀ g : Graph NodeId) (ready ordered rest : List NodeId) (x : NodeId)
          → Built g₀
          → Progress g₀ g ready ordered
          → pop cmp ready ≡ some (x, rest)
          → P (keys g) ordered
          → P (keys (erase x g)) (ordered ++ x ∷ []))
      → (r : TopoSortResult NodeId) → toposort cmp nodes deps ≡ ok r
      → Done P r
  ok-Done P begin keep r h =
      let (r', ends, done) = toposort-Done P begin keep (toposort-IsKnown r h) in
      subst (Done P) (ok-injective (sym ends ∙ h)) done

  pub returned :
      (r : TopoSortResult NodeId) → toposort cmp nodes deps ≡ ok r → Done (λ _ _. Unit {0}) r
  returned r h = ok-Done (λ _ _. Unit) (λ _ _. tt) (λ _ _ _ _ _ _ _ _ _ _. tt) r h
