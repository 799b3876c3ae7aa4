-- ===== src/Ir/Reopened.antt =====
-- Reopened namespaces in ir.rs: the index of each opening, and which one is the last.
use crubit4rust.Base.{
  ℕ, suc, ◌+◌, ◌==◌, Bool, false, List, [], ◌∷◌, ◌++◌, Option, none, some, nat_eq, ok,
  if◌then◌else◌, HashMap, find, put, find-put, filter_map, unwrap_or, unwrap_or-put, ◌≡◌, refl, sym,
  subst, ap, ◌∙◌, beq_refl, arith, Option-cases, inl, inr, ◌||◌, ==_iff,
}
use crubit4rust.Ir.{
  Item, ItemId, Namespace, BazelLabel, FlatIr, Ir, item_id, namespace_of, count_namespaces, make_ir,
  get_reopened_namespace_idx, is_last_reopened_namespace,
}
use crubit4rust.Ir.Lookup.{has_id, IdsDiffer, make_ir-Made}

-- How often the namespaces open the one with the canonical id `c`.
abbrev pub openings : ItemId → List Namespace → ℕ
openings c [] = 0
openings c (ns ∷ rest) = (if ns.canonical_namespace_id == c then 1 else 0) + openings c rest

abbrev has_namespace_id : ItemId → List Namespace → Bool
has_namespace_id k [] = false
has_namespace_id k (ns ∷ rest) = ns.id == k || has_namespace_id k rest

abbrev NamespaceIdsDiffer : List Namespace → Type 0
NamespaceIdsDiffer [] = Unit
NamespaceIdsDiffer (ns ∷ rest) = (has_namespace_id ns.id rest ≡ false) × NamespaceIdsDiffer rest

namespace_of-id :
    (target : BazelLabel) (item : Item) (ns : Namespace)
    → namespace_of target item ≡ some ns
    → item_id item ≡ ns.id
unfolding namespace_of item_id
namespace_of-id target item ns h = ground arith

namespaces_without_id :
    (target : BazelLabel) (k : ItemId) (xs : List Item)
    → has_id k xs ≡ false
    → has_namespace_id k (filter_map (namespace_of target) xs) ≡ false
unfolding has_id filter_map
namespaces_without_id target k [] h = refl
namespaces_without_id target k (x ∷ xs) h = elim (Option-cases (namespace_of target x)) [
  | inl other ↦ ground (arith, namespaces_without_id target k xs)
  | inr (ns, is) ↦ ground (arith, namespaces_without_id target k xs, namespace_of-id target x ns is)
]

namespaces-NamespaceIdsDiffer :
    (target : BazelLabel) (xs : List Item)
    → IdsDiffer xs
    → NamespaceIdsDiffer (filter_map (namespace_of target) xs)
unfolding IdsDiffer filter_map
namespaces-NamespaceIdsDiffer target [] h = tt
namespaces-NamespaceIdsDiffer target (x ∷ xs) h = elim (Option-cases (namespace_of target x)) [
  | inl other ↦
      let step : filter_map (namespace_of target) (x ∷ xs) ≡ filter_map (namespace_of target) xs =
        ground arith in
      subst NamespaceIdsDiffer (sym step) (namespaces-NamespaceIdsDiffer target xs h.1)
  | inr (ns, is) ↦
      let step : filter_map (namespace_of target) (x ∷ xs)
          ≡ ns ∷ filter_map (namespace_of target) xs =
        ground arith in
      let free : has_namespace_id ns.id (filter_map (namespace_of target) xs) ≡ false =
        subst (λ k. has_namespace_id k (filter_map (namespace_of target) xs) ≡ false)
          (namespace_of-id target x ns is) (namespaces_without_id target (item_id x) xs h.0) in
      subst NamespaceIdsDiffer (sym step) (free, namespaces-NamespaceIdsDiffer target xs h.1)
]

NamespaceIdsDiffer-append :
    (xs ys : List Namespace) (ns : Namespace)
    → NamespaceIdsDiffer (xs ++ ns ∷ ys)
    → has_namespace_id ns.id ys ≡ false
NamespaceIdsDiffer-append [] ys ns h = h.0
NamespaceIdsDiffer-append (x ∷ xs) ys ns h = NamespaceIdsDiffer-append xs ys ns h.1

-- What the loop adds to the number of openings of `c` in one round.
number-step :
    (c : ItemId) (numbers : HashMap ItemId ℕ) (ns : Namespace)
    → unwrap_or
        (find c (
          put ns.canonical_namespace_id
            (unwrap_or (find ns.canonical_namespace_id numbers) 0 + 1)
            numbers))
        0
      ≡ unwrap_or (find c numbers) 0 + (if ns.canonical_namespace_id == c then 1 else 0)
number-step c numbers ns = ground (
  arith,
  ==_iff ns.canonical_namespace_id c,
  unwrap_or-put c ns.canonical_namespace_id
      (unwrap_or (find ns.canonical_namespace_id numbers) 0 + 1) 0 numbers,
)

numbers-openings :
    (c : ItemId) (numbers indices : HashMap ItemId ℕ) (nss : List Namespace)
    → unwrap_or (find c (count_namespaces numbers indices nss).0) 0
      ≡ unwrap_or (find c numbers) 0 + openings c nss
unfolding count_namespaces
numbers-openings c numbers indices [] = omega arith
numbers-openings c numbers indices (ns ∷ rest) =
    let current = unwrap_or (find ns.canonical_namespace_id numbers) 0 in
    omega (
      arith,
      number-step c numbers ns,
      numbers-openings c (put ns.canonical_namespace_id (current + 1) numbers)
          (put ns.id current indices) rest,
    )

indices_other :
    (k : ItemId) (numbers indices : HashMap ItemId ℕ) (nss : List Namespace)
    → has_namespace_id k nss ≡ false
    → find k (count_namespaces numbers indices nss).1 ≡ find k indices
unfolding count_namespaces
indices_other k numbers indices [] h = refl
indices_other k numbers indices (ns ∷ rest) h =
    let current = unwrap_or (find ns.canonical_namespace_id numbers) 0 in
    ground (
      arith,
      indices_other k (put ns.canonical_namespace_id (current + 1) numbers)
          (put ns.id current indices) rest,
      find-put k ns.id current indices,
    )

indices-openings :
    (numbers indices : HashMap ItemId ℕ) (xs ys : List Namespace) (ns : Namespace)
    → has_namespace_id ns.id ys ≡ false
    → find ns.id (count_namespaces numbers indices (xs ++ ns ∷ ys)).1
      ≡ some (
          unwrap_or (find ns.canonical_namespace_id numbers) 0
          + openings ns.canonical_namespace_id xs)
unfolding count_namespaces
indices-openings numbers indices [] ys ns h =
    let current = unwrap_or (find ns.canonical_namespace_id numbers) 0 in
    indices_other ns.id (put ns.canonical_namespace_id (current + 1) numbers)
      (put ns.id current indices) ys h
    ∙ find-put ns.id ns.id current indices
    ∙ rw (beq_refl ns.id) (ap some (omega arith))
indices-openings numbers indices (x ∷ xs) ys ns h =
    let current = unwrap_or (find x.canonical_namespace_id numbers) 0 in
    indices-openings (put x.canonical_namespace_id (current + 1) numbers) (put x.id current indices)
      xs ys ns h
    ∙ ap some (omega (arith, number-step ns.canonical_namespace_id numbers x))

unwrap_or-suc : (o : Option ℕ) (n : ℕ) → unwrap_or o 0 ≡ suc n → o ≡ some (suc n)
unwrap_or-suc none n h = absurd (omega arith)
unwrap_or-suc (some m) n h = ap some h

openings-append :
    (c : ItemId) (xs ys : List Namespace) → openings c (xs ++ ys) ≡ openings c xs + openings c ys
openings-append c [] ys = omega arith
openings-append c (x ∷ xs) ys = omega (arith, openings-append c xs ys)

module _ {Features : Type 0} (flat : FlatIr Features) (ir : Ir Features) where
  -- In an IR that `make_ir` returns, the index of a namespace of the current target is the number of
  -- times that the same namespace was opened before it, and it is the last one exactly when no later
  -- namespace of the current target has its canonical id.
  pub reopened-openings :
      (xs ys : List Namespace) (ns : Namespace)
      → make_ir flat ≡ ok ir
      → filter_map (namespace_of flat.current_target) flat.items ≡ xs ++ ns ∷ ys
      → (get_reopened_namespace_idx ir ns.id ≡ ok (openings ns.canonical_namespace_id xs))
        × (is_last_reopened_namespace ir ns.id ns.canonical_namespace_id
            ≡ ok (openings ns.canonical_namespace_id ys == 0))
  unfolding get_reopened_namespace_idx is_last_reopened_namespace find
  reopened-openings xs ys ns h split =
      let made = make_ir-Made flat ir h in
      let c = ns.canonical_namespace_id in
      let later : has_namespace_id ns.id ys ≡ false = NamespaceIdsDiffer-append xs ys ns (
        subst NamespaceIdsDiffer split
          (namespaces-NamespaceIdsDiffer flat.current_target flat.items made.ids)) in
      let index : find ns.id ir.reopened_namespace_id_to_idx ≡ some (openings c xs) =
        ap (find ns.id) made.indices
        ∙ ap (λ l. find ns.id (count_namespaces [] [] l).1) split
        ∙ indices-openings [] [] xs ys ns later
        ∙ ap some (omega arith) in
      let own : ◌≡◌ {A = ℕ} (if c == c then 1 else 0) 1 = rw (beq_refl c) refl in
      let counted : unwrap_or (find c ir.namespace_id_to_number_of_reopened_namespaces) 0
          ≡ openings c xs + (1 + openings c ys) =
        ap (λ m. unwrap_or (find c m) 0) made.numbers
        ∙ ap (λ l. unwrap_or (find c (count_namespaces [] [] l).0) 0) split
        ∙ omega (
          arith,
          numbers-openings c [] [] (xs ++ ns ∷ ys),
          openings-append c xs (ns ∷ ys),
          own,
        ) in
      let number : find c ir.namespace_id_to_number_of_reopened_namespaces
          ≡ some (suc (openings c xs + openings c ys)) =
        unwrap_or-suc (find c ir.namespace_id_to_number_of_reopened_namespaces)
          (openings c xs + openings c ys) (counted ∙ omega arith) in
      (ground arith, ground arith)
