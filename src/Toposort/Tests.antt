-- ===== src/Toposort/Tests.antt =====
-- `toposort` on the example of its documentation, and the theorems at that input.
use Prim.Native.Nat.{Ordering, compare}
use crubit4rust.Base.{ℕ, ◌+◌, ◌<◌, List, [], ◌∷◌, nat_eq, occ, arith, ◌≡◌, refl, ok, err, ◌↔◌, All}
use crubit4rust.Toposort.{
  Dependency, TopoSortResult, get, insert, modify, erase, add_nodes, add_dep, add_deps, release,
  initial_ready, heap_cmp, take_greatest, pop, insert_by, sort_by, drain, toposort,
  unknown_successor,
}
use crubit4rust.Toposort.Edges.{occ_dep}
use crubit4rust.Toposort.Build.{IsKnown}
use crubit4rust.Toposort.Queue.{Orders, IsSorted}
use crubit4rust.Toposort.Order.{
  toposort_returns_iff, toposort_partition, toposort_order, toposort_failed, toposort_acyclic,
}
use crubit4rust.Toposort.Preferred.{toposort_preferred}

program : Unit {0}
unfolding get insert modify erase add_nodes add_dep add_deps release initial_ready heap_cmp
    take_greatest pop insert_by sort_by drain toposort
program = tt

abbrev before : ℕ → ℕ → Dependency ℕ
before p s = record { predecessor = p; successor = s }

abbrev nodes : List ℕ
nodes = 101 ∷ 102 ∷ 103 ∷ 104 ∷ 201 ∷ 202 ∷ 203 ∷ 204 ∷ 901 ∷ 902 ∷ 903 ∷ []

abbrev deps : List (Dependency ℕ)
deps = before 102 103 ∷ before 203 202 ∷ before 901 902 ∷ before 902 901 ∷ before 901 903 ∷ []

abbrev result : TopoSortResult ℕ
result = record {
  ordered = 101 ∷ 102 ∷ 103 ∷ 104 ∷ 201 ∷ 203 ∷ 202 ∷ 204 ∷ [];
  failed = 901 ∷ 902 ∷ 903 ∷ [];
}

documented : toposort compare nodes deps ≡ ok result
unfolding program
documented = refl

unknown_id : toposort compare (1 ∷ []) (before 1 2 ∷ []) ≡ err (unknown_successor 1 2)
unfolding program
unknown_id = refl

compare-Orders : Orders compare
compare-Orders = record {
  flip_gt = λ a b h. ground arith;
  flip_lt = λ a b h. ground arith;
  flip_eq = λ a b h. ground arith;
  le_trans = λ a b c h k. ground arith;
}

toposort_returns_iff_example :
    ((r : TopoSortResult ℕ) × (toposort compare nodes deps ≡ ok r)) ↔ All (IsKnown nodes) deps
toposort_returns_iff_example = toposort_returns_iff compare nodes deps

toposort_partition_example : occ 202 result.ordered + occ 202 result.failed ≡ 1
toposort_partition_example = toposort_partition compare nodes deps result documented 202

toposort_order_example : 0 < occ {A = ℕ} 203 (101 ∷ 102 ∷ 103 ∷ 104 ∷ 201 ∷ 203 ∷ [])
toposort_order_example =
    toposort_order compare nodes deps result documented (101 ∷ 102 ∷ 103 ∷ 104 ∷ 201 ∷ 203 ∷ [])
      (204 ∷ []) 203 202 refl (omega arith)

toposort_failed_example : (p : ℕ) × (0 < occ_dep p 903 deps) × (0 < occ p result.failed)
toposort_failed_example = toposort_failed compare nodes deps result documented 903 (omega arith)

-- Without the cycle.
abbrev forward_deps : List (Dependency ℕ)
forward_deps = before 1 3 ∷ before 2 3 ∷ []

abbrev in_order : TopoSortResult ℕ
in_order = record { ordered = 1 ∷ 2 ∷ 3 ∷ []; failed = [] }

forward_runs : toposort compare (3 ∷ 1 ∷ 2 ∷ []) forward_deps ≡ ok in_order
unfolding program
forward_runs = refl

forward_grows : (p s : ℕ) → 0 < occ_dep p s forward_deps → p < s
forward_grows p s h = ground arith

forward_lt : (p s : ℕ) → 0 < occ_dep p s forward_deps → compare p s ≡ Ordering.lt
forward_lt p s h = ground (arith, forward_grows p s)

toposort_acyclic_example : occ 3 in_order.failed ≡ 0
toposort_acyclic_example =
    toposort_acyclic compare (3 ∷ 1 ∷ 2 ∷ []) forward_deps in_order forward_runs (λ k. k)
      forward_grows 3

toposort_preferred_example :
    IsSorted compare in_order.ordered × ((k : ℕ) → occ k in_order.failed ≡ 0)
toposort_preferred_example =
    toposort_preferred compare compare-Orders (3 ∷ 1 ∷ 2 ∷ []) forward_deps forward_lt in_order
      forward_runs
