-- ===== src/RsSnippet/Order.antt =====
-- The order in which `dfs_iter` of rs_snippet.rs visits a type.
use crubit4rust.Base.{
  nat_eq, string_eq, int_eq, ℕ, zero, suc, ◌+◌, ◌≡◌, refl, sym, ap, ◌∙◌, List, [], ◌∷◌, ◌++◌,
  append-nil, append_assoc, arith,
}
use crubit4rust.Ir.{reversed}
use crubit4rust.RsSnippet.{
  RsTypeKind, pointer, reference, rvalue_reference, func_ptr, incomplete_type, record_type,
  enum_type, alias_type, primitive, slice, nullable, bridge_type, other_type, RsTypeKinds, no_kinds,
  more_kinds, kinds_of, Todo, extend, push_parts, next, yielded, count, count_all, dfs_iter,
}

-- The preorder of a type, by recursion: the type, then its parts from left to right, where a
-- function pointer has its parameters before its result.
unfoldable mutual
  pub preorder : RsTypeKind → List RsTypeKind
  preorder (primitive p) = primitive p ∷ []
  preorder (incomplete_type r path) = incomplete_type r path ∷ []
  preorder (record_type r path known) = record_type r path known ∷ []
  preorder (enum_type e path) = enum_type e path ∷ []
  preorder (pointer t m) = pointer t m ∷ preorder t
  preorder (reference t m l) = reference t m l ∷ preorder t
  preorder (rvalue_reference t m l) = rvalue_reference t m l ∷ preorder t
  preorder (alias_type a t path) = alias_type a t path ∷ preorder t
  preorder (func_ptr abi t ts) = func_ptr abi t ts ∷ preorder_all ts ++ preorder t
  preorder (slice t) = slice t ∷ preorder t
  preorder (nullable t) = nullable t ∷ preorder t
  preorder (bridge_type a b c r) = bridge_type a b c r ∷ []
  preorder (other_type name ts abi) = other_type name ts abi ∷ preorder_all ts

  pub preorder_all : RsTypeKinds → List RsTypeKind
  preorder_all no_kinds = []
  preorder_all (more_kinds t ts) = preorder t ++ preorder_all ts

extend-append :
    (todo : Todo) (xs ys : List RsTypeKind) → extend todo (xs ++ ys) ≡ extend (extend todo xs) ys
unfolding extend
extend-append todo [] ys = refl
extend-append todo (x ∷ xs) ys = extend-append (x ∷ todo) xs ys

-- Pushing a list from its end puts its first element on top.
extend-reversed : (todo : Todo) (ts : List RsTypeKind) → extend todo (reversed ts) ≡ ts ++ todo
unfolding extend reversed
extend-reversed todo [] = refl
extend-reversed todo (t ∷ ts) =
    extend-append todo (reversed ts) (t ∷ []) ∙ ap (λ r. t ∷ r) (extend-reversed todo ts)

yielded-step :
    (n m : ℕ) (curr : RsTypeKind) (todo : Todo)
    → n ≡ suc m
    → yielded n (curr ∷ todo) ≡ curr ∷ yielded m (push_parts curr todo)
unfolding yielded next
yielded-step n m curr todo e = rw e refl

mutual
  unfolding preorder count push_parts

  yielded-preorder :
      (t : RsTypeKind) (fuel : ℕ) (todo : Todo)
      → yielded (count t + fuel) (t ∷ todo) ≡ preorder t ++ yielded fuel todo
  yielded-preorder (primitive p) fuel todo = yielded-step _ fuel _ todo (omega arith)
  yielded-preorder (incomplete_type r path) fuel todo = yielded-step _ fuel _ todo (omega arith)
  yielded-preorder (record_type r path known) fuel todo = yielded-step _ fuel _ todo (omega arith)
  yielded-preorder (enum_type e path) fuel todo = yielded-step _ fuel _ todo (omega arith)
  yielded-preorder (bridge_type a b c r) fuel todo = yielded-step _ fuel _ todo (omega arith)
  yielded-preorder (pointer t m) fuel todo =
      yielded-step _ (count t + fuel) _ todo (omega arith)
      ∙ ap (λ r. pointer t m ∷ r) (yielded-preorder t fuel todo)
  yielded-preorder (reference t m l) fuel todo =
      yielded-step _ (count t + fuel) _ todo (omega arith)
      ∙ ap (λ r. reference t m l ∷ r) (yielded-preorder t fuel todo)
  yielded-preorder (rvalue_reference t m l) fuel todo =
      yielded-step _ (count t + fuel) _ todo (omega arith)
      ∙ ap (λ r. rvalue_reference t m l ∷ r) (yielded-preorder t fuel todo)
  yielded-preorder (alias_type a t path) fuel todo =
      yielded-step _ (count t + fuel) _ todo (omega arith)
      ∙ ap (λ r. alias_type a t path ∷ r) (yielded-preorder t fuel todo)
  yielded-preorder (slice t) fuel todo =
      yielded-step _ (count t + fuel) _ todo (omega arith)
      ∙ ap (λ r. slice t ∷ r) (yielded-preorder t fuel todo)
  yielded-preorder (nullable t) fuel todo =
      yielded-step _ (count t + fuel) _ todo (omega arith)
      ∙ ap (λ r. nullable t ∷ r) (yielded-preorder t fuel todo)
  yielded-preorder (func_ptr abi t ts) fuel todo =
      yielded-step _ (count_all ts + (count t + fuel)) _ todo (omega arith)
      ∙ ap (λ r. func_ptr abi t ts ∷ yielded (count_all ts + (count t + fuel)) r)
          (extend-reversed (t ∷ todo) (kinds_of ts))
      ∙ ap (λ r. func_ptr abi t ts ∷ r) (yielded-preorder_all ts (count t + fuel) (t ∷ todo))
      ∙ ap (λ r. func_ptr abi t ts ∷ preorder_all ts ++ r) (yielded-preorder t fuel todo)
      ∙ ap (λ r. func_ptr abi t ts ∷ r)
          (sym (append_assoc (preorder_all ts) (preorder t) (yielded fuel todo)))
  yielded-preorder (other_type name ts abi) fuel todo =
      yielded-step _ (count_all ts + fuel) _ todo (omega arith)
      ∙ ap (λ r. other_type name ts abi ∷ yielded (count_all ts + fuel) r)
          (extend-reversed todo (kinds_of ts))
      ∙ ap (λ r. other_type name ts abi ∷ r) (yielded-preorder_all ts fuel todo)

  yielded-preorder_all :
      (ts : RsTypeKinds) (fuel : ℕ) (todo : Todo)
      → yielded (count_all ts + fuel) (kinds_of ts ++ todo) ≡ preorder_all ts ++ yielded fuel todo
  yielded-preorder_all no_kinds fuel todo = ap (λ n. yielded n todo) (omega arith)
  yielded-preorder_all (more_kinds t ts) fuel todo =
      ap (λ n. yielded n (t ∷ kinds_of ts ++ todo)) (omega arith)
      ∙ yielded-preorder t (count_all ts + fuel) (kinds_of ts ++ todo)
      ∙ ap (λ r. preorder t ++ r) (yielded-preorder_all ts fuel todo)
      ∙ sym (append_assoc (preorder t) (preorder_all ts) (yielded fuel todo))

yielded_none : (fuel : ℕ) → yielded fuel [] ≡ []
unfolding yielded next
yielded_none zero = refl
yielded_none (suc fuel) = refl

yielded-whole : (t : RsTypeKind) (further : ℕ) → yielded (count t + further) (t ∷ []) ≡ preorder t
yielded-whole t further =
    yielded-preorder t further []
    ∙ ap (λ r. preorder t ++ r) (yielded_none further)
    ∙ append-nil (preorder t)

-- The iterator visits a type in preorder, parameters of a function pointer before its result, and
-- then yields nothing more, whatever number of further calls is made.
pub yielded-dfs_iter :
    (t : RsTypeKind) (further : ℕ)
    → (yielded (count t + further) (t ∷ []) ≡ dfs_iter t) × (dfs_iter t ≡ preorder t)
unfolding dfs_iter
yielded-dfs_iter t further =
    let same : count t ≡ count t + 0 = omega arith in
    let whole : yielded (count t) (t ∷ []) ≡ preorder t =
      ap (λ n. yielded n (t ∷ [])) same ∙ yielded-whole t 0 in
    (yielded-whole t further ∙ sym whole, whole)
