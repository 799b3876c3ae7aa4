-- ===== src/Ir/Returns.antt =====
-- When `make_ir` of ir.rs returns: neither ids nor lifetimes occur twice.
use crubit4rust.Base.{
  Bool, true, false, List, [], ◌∷◌, ◌++◌, none, int_eq, nat_eq, ok, HashMap, find, put, find-put,
  ◌≡◌, ◌↔◌, refl, sym, ◌∙◌, beq_refl, arith, Bool-cases, Option-cases, Result-cases, inl, inr, ◌||◌,
  >>=-eq-ok, ◌>>=◌,
}
use crubit4rust.Ir.{
  Item, LifetimeId, LifetimeName, FlatIr, Ir, check_ids, add_lifetimes, lifetime_params,
  collect_lifetimes, make_ir,
}
use crubit4rust.Ir.Lookup.{IdsDiffer, check_ids-IdsDiffer, IdsDiffer-check_ids}

-- The lifetime parameters of all items.
unfoldable pub all_lifetimes : List Item → List LifetimeName
all_lifetimes [] = []
all_lifetimes (x ∷ xs) = lifetime_params x ++ all_lifetimes xs

-- Has one of the lifetimes the id?
unfoldable pub has_lifetime : LifetimeId → List LifetimeName → Bool
has_lifetime k [] = false
has_lifetime k (l ∷ ls) = int_eq.beq l.id k || has_lifetime k ls

-- No two lifetimes have the same id.
unfoldable pub LifetimesDiffer : List LifetimeName → Type 0
unfolding has_lifetime
LifetimesDiffer [] = Unit
LifetimesDiffer (l ∷ ls) = (has_lifetime l.id ls ≡ false) × LifetimesDiffer ls

add_lifetimes-append :
    (m : HashMap LifetimeId LifetimeName) (xs ys : List LifetimeName)
    → add_lifetimes m (xs ++ ys) ≡ (add_lifetimes m xs >>= λ more. add_lifetimes more ys)
unfolding add_lifetimes
add_lifetimes-append m [] ys = refl
add_lifetimes-append m (l ∷ xs) ys = elim (Option-cases (find l.id m)) [
  | inl free ↦ ground (arith, add_lifetimes-append (put l.id l m) xs ys)
  | inr (old, occupied) ↦ ground arith
]

collect_lifetimes-add_lifetimes :
    (m : HashMap LifetimeId LifetimeName) (xs : List Item)
    → collect_lifetimes m xs ≡ add_lifetimes m (all_lifetimes xs)
unfolding collect_lifetimes all_lifetimes add_lifetimes
collect_lifetimes-add_lifetimes m [] = refl
collect_lifetimes-add_lifetimes m (x ∷ xs) =
    let split = add_lifetimes-append m (lifetime_params x) (all_lifetimes xs) in
    elim (Result-cases (add_lifetimes m (lifetime_params x))) [
      | inl (e, failed) ↦ ground (arith, split)
      | inr (more, added) ↦ ground (arith, split, collect_lifetimes-add_lifetimes more xs)
    ]

add_lifetimes-LifetimesDiffer :
    (m r : HashMap LifetimeId LifetimeName) (ls : List LifetimeName)
    → add_lifetimes m ls ≡ ok r
    → LifetimesDiffer ls × ((k : LifetimeId) → has_lifetime k ls ≡ true → find k m ≡ none)
unfolding add_lifetimes LifetimesDiffer has_lifetime
add_lifetimes-LifetimesDiffer m r [] h = (tt, λ k absent. cc)
add_lifetimes-LifetimesDiffer m r (l ∷ ls) h = elim (Option-cases (find l.id m)) [
  | inr (old, occupied) ↦ absurd (ground arith)
  | inl free ↦
      let (differ, unused) = add_lifetimes-LifetimesDiffer (put l.id l m) r ls (ground arith) in
      let written = λ (k : LifetimeId). find-put k l.id l m in
      (
        (
          ground
              (arith, Bool-cases (has_lifetime l.id ls), unused l.id, written l.id, beq_refl l.id),
          differ,
        ),
        λ k here. ground (arith, unused k, written k, int_eq.beq_iff l.id k),
      )
]

LifetimesDiffer-add_lifetimes :
    (m : HashMap LifetimeId LifetimeName) (ls : List LifetimeName)
    → LifetimesDiffer ls
    → ((k : LifetimeId) → has_lifetime k ls ≡ true → find k m ≡ none)
    → (r : HashMap LifetimeId LifetimeName) × (add_lifetimes m ls ≡ ok r)
unfolding add_lifetimes LifetimesDiffer has_lifetime
LifetimesDiffer-add_lifetimes m [] differ unused = (m, refl)
LifetimesDiffer-add_lifetimes m (l ∷ ls) differ unused =
    let free : find l.id m ≡ none = unused l.id (ground (arith, beq_refl l.id)) in
    let (r, h) =
      LifetimesDiffer-add_lifetimes (put l.id l m) ls differ.1 (λ k here.
        ground (arith, find-put k l.id l m, unused k, differ.0, int_eq.beq_iff l.id k)) in
    (r, ground arith)

-- `make_ir` returns an IR exactly when no two items have the same id and no two lifetime parameters
-- of its functions and records have the same id; otherwise it panics.
pub make_ir_returns_iff :
    {Features : Type 0} (flat : FlatIr Features)
    → ((ir : Ir Features) × (make_ir flat ≡ ok ir))
      ↔ (IdsDiffer flat.items × LifetimesDiffer (all_lifetimes flat.items))
unfolding make_ir find
make_ir_returns_iff flat = (
  λ (ir, h).
      let (used, checked, rest) = >>=-eq-ok (check_ids [] flat.items) _ h in
      let (ls, collected, made) = >>=-eq-ok (collect_lifetimes [] flat.items) _ rest in
      (
        (check_ids-IdsDiffer [] used flat.items checked).0,
        (add_lifetimes-LifetimesDiffer [] ls (all_lifetimes flat.items)
            (sym (collect_lifetimes-add_lifetimes [] flat.items) ∙ collected)).0,
      ),
  λ (ids, lifetimes).
      let (used, checked) = IdsDiffer-check_ids [] flat.items ids (λ k h. refl) in
      let (ls, added) =
        LifetimesDiffer-add_lifetimes [] (all_lifetimes flat.items) lifetimes (λ k h. refl) in
      let collected = collect_lifetimes-add_lifetimes [] flat.items ∙ added in
      elim (Result-cases (make_ir flat)) [
        | inl (e, failed) ↦ absurd (ground arith)
        | inr made ↦ made
      ],
)
