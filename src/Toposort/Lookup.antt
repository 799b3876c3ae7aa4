-- ===== src/Toposort/Lookup.antt =====
-- The graph of toposort.rs as a map: what is read after each write.
use mathlib.Core.Option
use crubit4rust.Base.{
  ◌+◌, ◌≤◌, ◌<◌, [], ◌∷◌, none, some, Eq, occ, arith, ◌≡◌, refl, if◌then◌else◌, inl, inr,
  Bool-cases, length,
}
use crubit4rust.Toposort.{GraphNode, Graph, keys, get, insert, modify, erase}

module _ {ℓ} {NodeId : Type ℓ} ⦃e : Eq NodeId⦄ where
  pub get-modify :
      (k j : NodeId) (f : GraphNode NodeId → GraphNode NodeId) (g : Graph NodeId)
      → get k (modify j f g) ≡ (if e.beq j k then Option.map f (get k g) else get k g)
  unfolding get modify
  get-modify k j f [] = elim (Bool-cases (e.beq j k)) [ inl h ↦ rw h | inr h ↦ rw h ]
  get-modify k j f ((i, node) ∷ g) =
      ground (arith, get-modify k j f g, e.beq_iff i j, e.beq_iff i k, e.beq_iff j k)

  pub keys-modify :
      (j : NodeId) (f : GraphNode NodeId → GraphNode NodeId) (g : Graph NodeId)
      → keys (modify j f g) ≡ keys g
  unfolding modify
  keys-modify j f [] = refl
  keys-modify j f ((i, node) ∷ g) = ground (arith, keys-modify j f g)

  pub get-erase :
      (k j : NodeId) (g : Graph NodeId) → get k (erase j g) ≡ (if e.beq j k then none else get k g)
  unfolding get erase
  get-erase k j [] = elim (Bool-cases (e.beq j k)) [ inl h ↦ rw h | inr h ↦ rw h ]
  get-erase k j ((i, node) ∷ g) =
      ground (arith, get-erase k j g, e.beq_iff i j, e.beq_iff i k, e.beq_iff j k)

  pub occ-keys-erase :
      (k j : NodeId) (g : Graph NodeId)
      → occ k (keys (erase j g)) ≡ (if e.beq j k then 0 else occ k (keys g))
  unfolding erase
  occ-keys-erase k j [] = elim (Bool-cases (e.beq j k)) [ inl h ↦ rw h | inr h ↦ rw h ]
  occ-keys-erase k j ((i, node) ∷ g) =
      ground (arith, occ-keys-erase k j g, e.beq_iff i j, e.beq_iff i k, e.beq_iff j k)

  pub get-insert :
      (k j : NodeId) (node : GraphNode NodeId) (g : Graph NodeId)
      → get k (insert j node g) ≡ (if e.beq j k then some node else get k g)
  unfolding get insert
  get-insert k j node [] = refl
  get-insert k j node ((i, old) ∷ g) =
      ground (arith, get-insert k j node g, e.beq_iff i j, e.beq_iff i k, e.beq_iff j k)

  pub occ-keys-insert :
      (k j : NodeId) (node : GraphNode NodeId) (g : Graph NodeId)
      → occ k (keys g) ≤ 1
      → occ k (keys (insert j node g)) ≡ (if e.beq j k then 1 else occ k (keys g))
  unfolding insert
  occ-keys-insert k j node [] h = ground arith
  occ-keys-insert k j node ((i, old) ∷ g) h =
      ground (arith, occ-keys-insert k j node g, e.beq_iff i j, e.beq_iff i k, e.beq_iff j k)

  -- A key is present exactly when it can be looked up.
  pub get-eq-none : (k : NodeId) (g : Graph NodeId) → occ k (keys g) ≡ 0 → get k g ≡ none
  unfolding get
  get-eq-none k [] h = refl
  get-eq-none k ((i, node) ∷ g) h = ground (arith, get-eq-none k g)

  pub get-eq-some :
      (k : NodeId) (g : Graph NodeId)
      → 0 < occ k (keys g)
      → (node : GraphNode NodeId) × (get k g ≡ some node)
  unfolding get
  get-eq-some k [] h = elim h [ ]
  get-eq-some k ((i, node) ∷ g) h = elim (Bool-cases (e.beq i k)) [
    | inl eq ↦ (node, rw eq)
    | inr ne ↦ let (n, p) = get-eq-some k g (ground arith) in (n, rw (ne, p))
  ]

  pub occ-of-get :
      (k : NodeId) (g : Graph NodeId) (node : GraphNode NodeId)
      → get k g ≡ some node
      → 0 < occ k (keys g)
  unfolding get
  occ-of-get k [] node h = cc
  occ-of-get k ((i, first) ∷ g) node h = ground (arith, occ-of-get k g node)

  pub erase_absent : (k : NodeId) (g : Graph NodeId) → occ k (keys g) ≡ 0 → erase k g ≡ g
  unfolding erase
  erase_absent k [] h = refl
  erase_absent k ((i, node) ∷ g) h = ground (arith, erase_absent k g)

  -- Without the key that it had once, the map is shorter.
  pub length-erase :
      (k : NodeId) (g : Graph NodeId) → occ k (keys g) ≡ 1 → length (erase k g) + 1 ≡ length g
  unfolding erase
  length-erase k [] h = absurd (omega arith)
  length-erase k ((i, node) ∷ g) h = elim (Bool-cases (e.beq i k)) [
    | inl eq ↦ rw eq (rw (erase_absent k g (ground arith)) (omega arith))
    | inr ne ↦ rw ne (omega (arith, length-erase k g (ground arith)))
  ]
