-- ===== src/Toposort/Queue.antt =====
-- The heap and the sort of toposort.rs: what is popped is first in the preferred order.
use Prim.Native.Nat.{Ordering}
use crubit4rust.Base.{
  ◌+◌, ◌<◌, List, [], ◌∷◌, none, some, Eq, occ, arith, ◌≡◌, refl, if◌then◌else◌, inl, inr,
  Bool-cases, All, ◌≢◌, ◌⊎◌, subst, sym,
}
use crubit4rust.Toposort.{heap_cmp, take_greatest, pop, insert_by, sort_by}

-- The laws that Rust asks of the function given to `sort_by`: a total order on the ids (two ids
-- may compare as equal).
pub record Orders {ℓ} {A : Type ℓ} (cmp : A → A → Ordering) : Type ℓ where
  pub flip_gt : (a b : A) → cmp a b ≡ Ordering.gt → cmp b a ≡ Ordering.lt
  pub flip_lt : (a b : A) → cmp a b ≡ Ordering.lt → cmp b a ≡ Ordering.gt
  pub flip_eq : (a b : A) → cmp a b ≡ Ordering.eq → cmp b a ≡ Ordering.eq
  pub le_trans : (a b c : A) → cmp a b ≢ Ordering.gt → cmp b c ≢ Ordering.gt → cmp a c ≢ Ordering.gt

module _ {ℓ} {A : Type ℓ} (cmp : A → A → Ordering) where
  -- `a` may stand before `b`.
  abbrev pub Le : A → A → Type 0
  Le a b = cmp a b ≢ Ordering.gt

  abbrev pub IsSorted : List A → Type ℓ
  IsSorted [] = Unit
  IsSorted (x ∷ xs) = All (Le x) xs × IsSorted xs

  pub Le-refl : Orders cmp → (a : A) → Le a a
  Le-refl o a = ground (arith, o.flip_gt a a)

  pub All-Le : Orders cmp → (x y : A) (xs : List A) → Le x y → All (Le y) xs → All (Le x) xs
  All-Le o x y [] h a = a
  All-Le o x y (z ∷ zs) h a = (o.le_trans x y z h a.0, All-Le o x y zs h a.1)

  pub Le-cases :
      (a b : A) → (cmp a b ≡ Ordering.gt) ⊎ ((cmp a b ≡ Ordering.lt) ⊎ (cmp a b ≡ Ordering.eq))
  Le-cases a b = ground arith

  insert_by-All :
      (P : A → Type 0) (x : A) (xs : List A) → P x → All P xs → All P (insert_by cmp x xs)
  unfolding insert_by
  insert_by-All P x [] h a = (h, a)
  insert_by-All P x (y ∷ ys) h a = elim (Le-cases x y) [
    | inl gt ↦ rw (gt, insert_by) (a.0, insert_by-All P x ys h a.1)
    | inr (inl lt) ↦ rw (lt, insert_by) (h, a)
    | inr (inr eq) ↦ rw (eq, insert_by) (h, a)
  ]

  insert_by-IsSorted :
      Orders cmp → (x : A) (xs : List A) → IsSorted xs → IsSorted (insert_by cmp x xs)
  unfolding insert_by
  insert_by-IsSorted o x [] s = (tt, tt)
  insert_by-IsSorted o x (y ∷ ys) s = elim (Le-cases x y) [
    | inl gt ↦
        rw (gt, insert_by)
          (
            insert_by-All (Le y) x ys (ground (arith, o.flip_gt x y)) s.0,
            insert_by-IsSorted o x ys s.1,
          )
    | inr (inl lt) ↦
        let le : Le x y = ground arith in rw (lt, insert_by) ((le, All-Le o x y ys le s.0), s)
    | inr (inr eq) ↦
        let le : Le x y = ground arith in rw (eq, insert_by) ((le, All-Le o x y ys le s.0), s)
  ]

  -- The failed nodes come out in the preferred order.
  pub sort_by-IsSorted : Orders cmp → (xs : List A) → IsSorted (sort_by cmp xs)
  unfolding sort_by
  sort_by-IsSorted o [] = tt
  sort_by-IsSorted o (x ∷ xs) = insert_by-IsSorted o x (sort_by cmp xs) (sort_by-IsSorted o xs)

  take_greatest_later :
      (x y : A) (ys : List A)
      → cmp x (take_greatest cmp y ys).0 ≡ Ordering.gt
      → (take_greatest cmp x (y ∷ ys)).0 ≡ (take_greatest cmp y ys).0
  unfolding take_greatest heap_cmp
  take_greatest_later x y ys h = ground arith

  take_greatest_here :
      (x y : A) (ys : List A)
      → Le x (take_greatest cmp y ys).0
      → (take_greatest cmp x (y ∷ ys)).0 ≡ x
  unfolding take_greatest heap_cmp
  take_greatest_here x y ys h = ground arith

  -- The greatest of the heap stands before all others.
  take_greatest-Le :
      Orders cmp
      → (x : A) (xs : List A)
      → Le (take_greatest cmp x xs).0 x × All (Le (take_greatest cmp x xs).0) xs
  unfolding take_greatest heap_cmp
  take_greatest-Le o x [] = (Le-refl o x, tt)
  take_greatest-Le o x (y ∷ ys) =
      let (head, tail) = take_greatest-Le o y ys in
      let m = (take_greatest cmp y ys).0 in
      elim (Le-cases x m) [
        | inl gt ↦
            subst (λ t. Le t x × All (Le t) (y ∷ ys)) (sym (take_greatest_later x y ys gt))
              (ground (arith, o.flip_gt x m), (head, tail))
        | inr other ↦
            let le : Le x m = ground arith in
            subst (λ t. Le t x × All (Le t) (y ∷ ys)) (sym (take_greatest_here x y ys le))
              (Le-refl o x, (o.le_trans x m y le head, All-Le o x m ys le tail))
      ]

module _ {ℓ} {A : Type ℓ} ⦃e : Eq A⦄ (cmp : A → A → Ordering) where
  pub occ-insert_by :
      (a x : A) (xs : List A) → occ a (insert_by cmp x xs) ≡ (if e.beq x a then 1 else 0) + occ a xs
  unfolding insert_by
  occ-insert_by a x [] = refl
  occ-insert_by a x (y ∷ ys) = ground (arith, occ-insert_by a x ys)

  pub occ-sort_by : (a : A) (xs : List A) → occ a (sort_by cmp xs) ≡ occ a xs
  unfolding sort_by
  occ-sort_by a [] = refl
  occ-sort_by a (x ∷ xs) = ground (arith, occ-insert_by a x (sort_by cmp xs), occ-sort_by a xs)

  occ-take_greatest :
      (a x : A) (xs : List A)
      → (if e.beq (take_greatest cmp x xs).0 a then 1 else 0) + occ a (take_greatest cmp x xs).1
        ≡ occ a (x ∷ xs)
  unfolding take_greatest
  occ-take_greatest a x [] = refl
  occ-take_greatest a x (y ∷ ys) = ground (arith, occ-take_greatest a y ys)

  -- A pop takes one element, and leaves the others.
  pub occ-pop :
      (a x : A) (heap rest : List A)
      → pop cmp heap ≡ some (x, rest)
      → occ a heap ≡ (if e.beq x a then 1 else 0) + occ a rest
  unfolding pop
  occ-pop a x [] rest h = cc
  occ-pop a x (y ∷ ys) rest h = ground (arith, occ-take_greatest a y ys)

  pub pop-eq-none : (heap : List A) → pop cmp heap ≡ none → heap ≡ []
  unfolding pop
  pop-eq-none [] h = refl
  pop-eq-none (y ∷ ys) h = cc

  All-occ : (P : A → Type 0) (xs : List A) → All P xs → (a : A) → 0 < occ a xs → P a
  All-occ P [] h a m = elim m [ ]
  All-occ P (x ∷ xs) h a m = elim (Bool-cases (e.beq x a)) [
    | inl eq ↦ subst P ((e.beq_iff x a).0 eq) h.0
    | inr ne ↦ All-occ P xs h.1 a (ground arith)
  ]

  -- What is popped stands before everything that is left.
  pub pop-Le :
      Orders cmp
      → (x : A) (heap rest : List A) → pop cmp heap ≡ some (x, rest)
      → (a : A) → 0 < occ a heap
      → Le cmp x a
  unfolding pop
  pop-Le o x [] rest h a m = elim m [ ]
  pop-Le o x (y ∷ ys) rest h a m =
      let first : (take_greatest cmp y ys).0 ≡ x = ground arith in
      subst (λ t. Le cmp t a) first
        (All-occ (Le cmp (take_greatest cmp y ys).0) (y ∷ ys) (take_greatest-Le cmp o y ys) a m)
