-- ===== src/Ir/Lookup.antt =====
-- The table of items of ir.rs: when it can be built, and what is found in it.
use crubit4rust.Base.{
  ℕ, zero, suc, ◌+◌, ◌==◌, Bool, true, false, List, [], ◌∷◌, none, some, nat_eq, int_eq, ok, err,
  HashMap, find, put, filter_map, find-put, get_elem?, ◌≡◌, ◌↔◌, refl, sym, subst, ap, ◌∙◌,
  beq_refl, arith, Bool-cases, Option-cases, inl, inr, ◌||◌, >>=-eq-ok, ok-injective, ==_iff,
}
use crubit4rust.Ir.{
  Item, ItemId, FlatIr, Ir, unknown_decl_id, item_id, check_ids, index_items, collect_lifetimes,
  make_ir, count_namespaces, namespace_of, as_func, group_functions, find_untyped_decl, items,
}

-- Has one of the items the id?
unfoldable pub has_id : ItemId → List Item → Bool
has_id k [] = false
has_id k (x ∷ xs) = item_id x == k || has_id k xs

-- No two items have the same id.
unfoldable pub IdsDiffer : List Item → Type 0
unfolding has_id
IdsDiffer [] = Unit
IdsDiffer (x ∷ xs) = (has_id (item_id x) xs ≡ false) × IdsDiffer xs

pub check_ids-IdsDiffer :
    (used r : HashMap ItemId Item) (xs : List Item)
    → check_ids used xs ≡ ok r
    → IdsDiffer xs × ((k : ItemId) → has_id k xs ≡ true → find k used ≡ none)
unfolding check_ids IdsDiffer has_id
check_ids-IdsDiffer used r [] h = (tt, λ k no. cc)
check_ids-IdsDiffer used r (x ∷ xs) h = elim (Option-cases (find (item_id x) used)) [
  | inr (old, occupied) ↦ absurd (ground arith)
  | inl free ↦
      let (differ, unused) = check_ids-IdsDiffer (put (item_id x) x used) r xs (ground arith) in
      let written = λ (k : ItemId). find-put k (item_id x) x used in
      (
        (
          ground (
            arith,
            Bool-cases (has_id (item_id x) xs),
            unused (item_id x),
            written (item_id x),
            beq_refl (item_id x),
          ),
          differ,
        ),
        λ k here. ground (arith, unused k, written k, ==_iff (item_id x) k),
      )
]

pub IdsDiffer-check_ids :
    (used : HashMap ItemId Item) (xs : List Item)
    → IdsDiffer xs
    → ((k : ItemId) → has_id k xs ≡ true → find k used ≡ none)
    → (r : HashMap ItemId Item) × (check_ids used xs ≡ ok r)
unfolding check_ids IdsDiffer has_id
IdsDiffer-check_ids used [] differ unused = (used, refl)
IdsDiffer-check_ids used (x ∷ xs) differ unused =
    let free : find (item_id x) used ≡ none =
      unused (item_id x) (ground (arith, beq_refl (item_id x))) in
    let (r, h) = IdsDiffer-check_ids (put (item_id x) x used) xs differ.1 (λ k here.
      ground (arith, find-put k (item_id x) x used, unused k, differ.0, ==_iff (item_id x) k)) in
    (r, ground arith)

-- An id that no item has keeps its index.
index_items-other :
    (k : ItemId) (idx : ℕ) (m : HashMap ItemId ℕ) (xs : List Item)
    → has_id k xs ≡ false
    → find k (index_items idx m xs) ≡ find k m
unfolding index_items has_id
index_items-other k idx m [] h = refl
index_items-other k idx m (x ∷ xs) h =
    ground (
      arith,
      index_items-other k (idx + 1) (put (item_id x) idx m) xs,
      find-put k (item_id x) idx m,
    )

-- The index of an id leads to the item that has it.
index_items-get_elem :
    (k : ItemId) (idx : ℕ) (m : HashMap ItemId ℕ) (xs : List Item)
    → IdsDiffer xs
    → has_id k xs ≡ true
    → (i : ℕ) × (item : Item) × (find k (index_items idx m xs) ≡ some (idx + i))
      × (get_elem? xs i ≡ some item)
      × (item_id item ≡ k)
unfolding index_items has_id IdsDiffer
index_items-get_elem k idx m [] differ h = cc
index_items-get_elem k idx m (x ∷ xs) differ h = elim (Bool-cases (item_id x == k)) [
  | inl eq ↦
      let same = (==_iff (item_id x) k).0 eq in
      let later : has_id k xs ≡ false = subst (λ j. has_id j xs ≡ false) same differ.0 in
      (
        0,
        x,
        index_items-other k (idx + 1) (put (item_id x) idx m) xs later
            ∙ find-put k (item_id x) idx m
            ∙ rw eq (ap some (omega arith)),
        refl,
        same,
      )
  | inr ne ↦
      let (i, item, found, got, same) =
        index_items-get_elem k (idx + 1) (put (item_id x) idx m) xs differ.1 (ground arith) in
      (suc i, item, found ∙ ap some (omega arith), got, same)
]

has_id-get_elem :
    (xs : List Item) (i : ℕ) (item : Item)
    → get_elem? xs i ≡ some item
    → has_id (item_id item) xs ≡ true
unfolding has_id
has_id-get_elem [] i item h = cc
has_id-get_elem (x ∷ xs) zero item h = ground (arith, beq_refl (item_id x))
has_id-get_elem (x ∷ xs) (suc i) item h = ground (arith, has_id-get_elem xs i item h)

IdsDiffer-unique :
    (xs : List Item) (i j : ℕ) (a b : Item)
    → IdsDiffer xs
    → get_elem? xs i ≡ some a
    → get_elem? xs j ≡ some b
    → item_id a ≡ item_id b
    → a ≡ b
unfolding IdsDiffer
IdsDiffer-unique [] i j a b differ ha hb same = cc
IdsDiffer-unique (x ∷ xs) zero zero a b differ ha hb same = cc
IdsDiffer-unique (x ∷ xs) (suc i) (suc j) a b differ ha hb same =
    IdsDiffer-unique xs i j a b differ.1 ha hb same
IdsDiffer-unique (x ∷ xs) zero (suc j) a b differ ha hb same =
    absurd (ground (arith, has_id-get_elem xs j b hb, differ.0))
IdsDiffer-unique (x ∷ xs) (suc i) zero a b differ ha hb same =
    absurd (ground (arith, has_id-get_elem xs i a ha, differ.0))

module _ {Features : Type 0} (flat : FlatIr Features) (ir : Ir Features) where
  -- The tables of an IR that `make_ir` returns.
  pub record Made : Type 0 where
    pub ids : IdsDiffer flat.items
    pub same : ir.flat_ir ≡ flat
    pub index : ir.item_id_to_item_idx ≡ index_items 0 [] flat.items
    pub lifetimes : collect_lifetimes [] flat.items ≡ ok ir.lifetimes
    pub numbers :
        ir.namespace_id_to_number_of_reopened_namespaces
        ≡ (count_namespaces [] [] (filter_map (namespace_of flat.current_target) flat.items)).0
    pub indices :
        ir.reopened_namespace_id_to_idx
        ≡ (count_namespaces [] [] (filter_map (namespace_of flat.current_target) flat.items)).1
    pub groups : ir.function_name_to_functions ≡ group_functions [] (filter_map as_func flat.items)

  pub make_ir-Made : make_ir flat ≡ ok ir → Made
  unfolding make_ir
  make_ir-Made h =
      let (used, checked, rest) = >>=-eq-ok (check_ids [] flat.items) _ h in
      let (ls, collected, made) = >>=-eq-ok (collect_lifetimes [] flat.items) _ rest in
      let result = ok-injective made in
      record {
        ids = (check_ids-IdsDiffer [] used flat.items checked).0;
        same = sym (ap (λ i. i.flat_ir) result);
        index = sym (ap (λ i. i.item_id_to_item_idx) result);
        lifetimes = collected ∙ ap (λ i. ok i.lifetimes) result;
        numbers = sym (ap (λ i. i.namespace_id_to_number_of_reopened_namespaces) result);
        indices = sym (ap (λ i. i.reopened_namespace_id_to_idx) result);
        groups = sym (ap (λ i. i.function_name_to_functions) result);
      }

  found :
      (k : ItemId)
      → Made
      → has_id k flat.items ≡ true
      → (item : Item) × (find_untyped_decl ir k ≡ ok item)
        × ((item_id item ≡ k) × (i : ℕ) × (get_elem? flat.items i ≡ some item))
  unfolding find_untyped_decl
  found k made h =
      let (i, item, at, got, same) = index_items-get_elem k 0 [] flat.items made.ids h in
      let at_i : find k ir.item_id_to_item_idx ≡ some i =
        ap (find k) made.index ∙ at ∙ ap some (omega arith) in
      let got_i : get_elem? (items ir) i ≡ some item =
        ap (λ f. get_elem? f.items i) made.same ∙ got in
      (item, ground (arith, at_i, got_i), (same, i, got))

  -- In an IR that `make_ir` returns, looking up an id that no item has panics, and the panic names
  -- the id.
  pub find_untyped_decl_unknown :
      (k : ItemId)
      → make_ir flat ≡ ok ir
      → has_id k flat.items ≡ false
      → find_untyped_decl ir k ≡ err (unknown_decl_id k)
  unfolding find_untyped_decl find
  find_untyped_decl_unknown k h none_has =
      let made = make_ir-Made h in
      let missing = index_items-other k 0 [] flat.items none_has in
      let absent : find k ir.item_id_to_item_idx ≡ none = ap (find k) made.index ∙ missing in
      ground (arith, absent)

  -- In an IR that `make_ir` returns, looking up an id gives an item exactly when it is one of the
  -- items and has that id.
  pub find_untyped_decl_iff :
      (k : ItemId) (item : Item)
      → make_ir flat ≡ ok ir
      → (find_untyped_decl ir k ≡ ok item)
        ↔ ((item_id item ≡ k) × (i : ℕ) × (get_elem? flat.items i ≡ some item))
  find_untyped_decl_iff k item h =
      let made = make_ir-Made h in
      (
        λ looked. elim (Bool-cases (has_id k flat.items)) [
          | inl here ↦
              let (other, hit, (same, i, got)) = found k made here in
              let equal : item ≡ other = ok-injective (sym looked ∙ hit) in
              subst (λ x. (item_id x ≡ k) × (i : ℕ) × (get_elem? flat.items i ≡ some x)) (sym equal)
                (same, i, got)
          | inr none_has ↦ let panics = find_untyped_decl_unknown k h none_has in cc
        ],
        λ (same, i, got).
            let here : has_id k flat.items ≡ true =
              subst (λ j. has_id j flat.items ≡ true) same
                (has_id-get_elem flat.items i item got) in
            let (other, hit, (same', j, got')) = found k made here in
            let equal =
              IdsDiffer-unique flat.items j i other item made.ids got' got (same' ∙ sym same) in
            hit ∙ ap ok equal,
      )
