-- ===== src/Toposort.antt =====
-- cc_bindings_from_rs/toposort.rs: Kahn's algorithm with a priority queue.
-- A `HashMap` is an association list (its order is that of first insertion), the `BinaryHeap` a
-- list from which `pop` selects a greatest element, and `sort_by` the stable sort that Rust's
-- library promises. A panic is an error value.
pub mod Lookup
pub mod Edges
pub mod Queue
pub mod Build
pub mod Release
pub mod Drain
pub mod Outcome
pub mod Order
pub mod Preferred
mod Tests
use Prim.Native.Nat.{Ordering}
use crubit4rust.Base.{
  ℕ, zero, suc, ◌+◌, Bool, List, [], ◌∷◌, ◌++◌, Option, none, some, map, Eq, length, Result, ok,
  err, ◌>>=◌, ◌==◌, if◌then◌else◌,
}

pub record Dependency {ℓ} (NodeId : Type ℓ) : Type ℓ where
  pub predecessor : NodeId
  pub successor : NodeId

pub record TopoSortResult {ℓ} (NodeId : Type ℓ) : Type ℓ where
  pub ordered : List NodeId
  pub failed : List NodeId

pub record GraphNode {ℓ} (NodeId : Type ℓ) : Type ℓ where
  pub count_of_predecessors : ℕ
  pub successors : List NodeId

abbrev pub Graph {ℓ} : Type ℓ → Type ℓ
Graph NodeId = List (NodeId × GraphNode NodeId)

-- The ways in which `toposort` could panic; `out_of_fuel` stands for a loop that goes on.
pub data Panic {ℓ} (NodeId : Type ℓ) : Type ℓ where
  unknown_successor unknown_predecessor : NodeId → NodeId → Panic NodeId
  missing_node count_underflow out_of_fuel : Panic NodeId

module _ {ℓ} {NodeId : Type ℓ} where
  -- `GraphNode::default()`
  abbrev pub default_node : GraphNode NodeId
  default_node = record { count_of_predecessors = 0; successors = [] }

  abbrev pub set_count : ℕ → GraphNode NodeId → GraphNode NodeId
  set_count c node = record node { count_of_predecessors = c }

  -- `count_of_predecessors += 1`
  abbrev pub add_predecessor : GraphNode NodeId → GraphNode NodeId
  add_predecessor node = set_count (node.count_of_predecessors + 1) node

  -- `successors.push(successor)`
  abbrev pub push_successor : NodeId → GraphNode NodeId → GraphNode NodeId
  push_successor s node = record node { successors = node.successors ++ s ∷ [] }

  abbrev pub keys : Graph NodeId → List NodeId
  keys [] = []
  keys ((j, _) ∷ g) = j ∷ keys g

  -- the ids of the nodes that have no predecessors
  pub initial_ready : Graph NodeId → List NodeId
  initial_ready [] = []
  initial_ready ((j, node) ∷ g) =
      if node.count_of_predecessors == 0 then j ∷ initial_ready g else initial_ready g

module _ {ℓ} {NodeId : Type ℓ} ⦃e : Eq NodeId⦄ where
  -- `HashMap::get`
  pub get : NodeId → Graph NodeId → Option (GraphNode NodeId)
  get k [] = none
  get k ((j, node) ∷ g) = if e.beq j k then some node else get k g

  -- `HashMap::insert`
  pub insert : NodeId → GraphNode NodeId → Graph NodeId → Graph NodeId
  insert k node [] = (k, node) ∷ []
  insert k node ((j, old) ∷ g) = if e.beq j k then (j, node) ∷ g else (j, old) ∷ insert k node g

  -- an assignment through `HashMap::get_mut`
  pub modify : NodeId → (GraphNode NodeId → GraphNode NodeId) → Graph NodeId → Graph NodeId
  modify k f [] = []
  modify k f ((j, node) ∷ g) = if e.beq j k then (j, f node) ∷ g else (j, node) ∷ modify k f g

  -- what `HashMap::remove` leaves
  pub erase : NodeId → Graph NodeId → Graph NodeId
  erase k [] = []
  erase k ((j, node) ∷ g) = if e.beq j k then erase k g else (j, node) ∷ erase k g

  -- `nodes.into_iter().map(|id| (id, GraphNode::default())).collect()`
  pub add_nodes : List NodeId → Graph NodeId → Graph NodeId
  add_nodes [] g = g
  add_nodes (k ∷ ks) g = add_nodes ks (insert k default_node g)

  -- one round of the loop over `deps`
  pub add_dep : Dependency NodeId → Graph NodeId → Result (Panic NodeId) (Graph NodeId)
  add_dep d g = elim (get d.successor g) [
    | none ↦ err (unknown_successor d.predecessor d.successor)
    | some _ ↦
        let g' = modify d.successor add_predecessor g in
        elim (get d.predecessor g') [
          | none ↦ err (unknown_predecessor d.predecessor d.successor)
          | some _ ↦ ok (modify d.predecessor (push_successor d.successor) g')
        ]
  ]

  pub add_deps : List (Dependency NodeId) → Graph NodeId → Result (Panic NodeId) (Graph NodeId)
  add_deps [] g = ok g
  add_deps (d ∷ ds) g = do g' ← add_dep d g; add_deps ds g'

  -- The loop over the successors of a removed node: the graph, and the nodes that are ready.
  pub release :
      List NodeId → Graph NodeId → List NodeId → Result (Panic NodeId) (Graph NodeId × List NodeId)
  release [] g ready = ok (g, ready)
  release (s ∷ ss) g ready = elim (get s g) [
    | none ↦ err missing_node
    | some node ↦ elim node.count_of_predecessors [
      | zero ↦ err count_underflow
      | suc c ↦ release ss (modify s (set_count c) g) (if c == 0 then s ∷ ready else ready)
    ]
  ]

module _ {ℓ} {NodeId : Type ℓ} (preferred_order : NodeId → NodeId → Ordering) where
  -- `HeapNode::cmp`
  pub heap_cmp : NodeId → NodeId → Ordering
  heap_cmp a b = elim (preferred_order a b) [
    | Ordering.lt ↦ Ordering.gt
    | Ordering.eq ↦ Ordering.eq
    | Ordering.gt ↦ Ordering.lt
  ]

  -- a greatest element of a non-empty heap, and the others
  pub take_greatest : NodeId → List NodeId → NodeId × List NodeId
  take_greatest x [] = (x, [])
  take_greatest x (y ∷ ys) =
      let (m, rest) = take_greatest y ys in
      elim (heap_cmp x m) [ Ordering.lt ↦ (m, x ∷ rest) | _ ↦ (x, m ∷ rest) ]

  -- `BinaryHeap::pop`
  pub pop : List NodeId → Option (NodeId × List NodeId)
  pop [] = none
  pop (x ∷ xs) = some (take_greatest x xs)

  pub insert_by : NodeId → List NodeId → List NodeId
  insert_by x [] = x ∷ []
  insert_by x (y ∷ ys) = elim (preferred_order x y) [
    | Ordering.gt ↦ y ∷ insert_by x ys
    | _ ↦ x ∷ y ∷ ys
  ]

  -- `failed.sort_by(preferred_order)`
  pub sort_by : List NodeId → List NodeId
  sort_by [] = []
  sort_by (x ∷ xs) = insert_by x (sort_by xs)

module _ {ℓ} {NodeId : Type ℓ} ⦃e : Eq NodeId⦄ (preferred_order : NodeId → NodeId → Ordering) where
  -- The `while let` loop: the remaining graph and `ordered`.
  pub drain :
      ℕ
      → Graph NodeId
      → List NodeId
      → List NodeId
      → Result (Panic NodeId) (Graph NodeId × List NodeId)
  drain zero g ready ordered = elim (pop preferred_order ready) [
    | none ↦ ok (g, ordered)
    | some _ ↦ err out_of_fuel
  ]
  drain (suc fuel) g ready ordered = elim (pop preferred_order ready) [
    | none ↦ ok (g, ordered)
    | some (removed_id, rest) ↦ elim (get removed_id g) [
      | none ↦ err missing_node
      | some removed ↦ elim (release removed.successors (erase removed_id g) rest) [
        | err p ↦ err p
        | ok (g', ready') ↦ drain fuel g' ready' (ordered ++ removed_id ∷ [])
      ]
    ]
  ]

  pub toposort :
      List NodeId → List (Dependency NodeId) → Result (Panic NodeId) (TopoSortResult NodeId)
  toposort nodes deps = do
    graph ← add_deps deps (add_nodes nodes [])
    (rest, ordered) ← drain (length graph) graph (initial_ready graph) []
    ok (record { ordered = ordered; failed = sort_by preferred_order (keys rest) })
