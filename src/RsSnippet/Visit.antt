-- ===== src/RsSnippet/Visit.antt =====
-- `RsTypeKindIter` of rs_snippet.rs: the walk through a type with a stack.
use crubit4rust.Base.{ℕ, zero, suc, ◌+◌, List, [], ◌∷◌, Option, none, some, filter_map}
use crubit4rust.Ir.{reversed}
use crubit4rust.RsSnippet.Kinds.{
  Lifetime, RsTypeKind, pointer, reference, rvalue_reference, func_ptr, incomplete_type,
  record_type, enum_type, alias_type, primitive, slice, nullable, bridge_type, other_type,
  RsTypeKinds, no_kinds, more_kinds, kinds_of,
}
use crubit4rust.RsSnippet.Queries.{lifetime}

-- `todo`, whose last element, the one that `pop` takes, stands first.
abbrev pub Todo : Type 0
Todo = List RsTypeKind

-- `Vec::extend`: each element is pushed in turn.
unfoldable pub extend : Todo → List RsTypeKind → Todo
extend todo [] = todo
extend todo (t ∷ ts) = extend (t ∷ todo) ts

-- What a round pushes for the type `curr`.
unfoldable pub push_parts : RsTypeKind → Todo → Todo
unfolding extend kinds_of reversed
push_parts (primitive _) todo = todo
push_parts (incomplete_type _ _) todo = todo
push_parts (record_type _ _ _) todo = todo
push_parts (enum_type _ _) todo = todo
push_parts (pointer pointee _) todo = pointee ∷ todo
push_parts (reference referent_ _ _) todo = referent_ ∷ todo
push_parts (rvalue_reference referent_ _ _) todo = referent_ ∷ todo
push_parts (alias_type _ t _) todo = t ∷ todo
push_parts (func_ptr _ return_type param_types) todo =
    extend (return_type ∷ todo) (reversed (kinds_of param_types))
push_parts (slice t) todo = t ∷ todo
push_parts (nullable t) todo = t ∷ todo
push_parts (bridge_type _ _ _ _) todo = todo
push_parts (other_type _ type_args _) todo = extend todo (reversed (kinds_of type_args))

-- `RsTypeKindIter::next`: the item, and the new state.
unfoldable pub next : Todo → Option (RsTypeKind × Todo)
unfolding push_parts
next [] = none
next (curr ∷ todo) = some (curr, push_parts curr todo)

-- The items that the iterator yields, a unit of fuel for each.
unfoldable pub yielded : ℕ → Todo → List RsTypeKind
unfolding next
yielded zero todo = []
yielded (suc fuel) todo = elim (next todo) [
  | none ↦ []
  | some (curr, rest) ↦ curr ∷ yielded fuel rest
]

-- The number of types in a type that the walk visits.
unfoldable mutual
  pub count : RsTypeKind → ℕ
  count (primitive _) = 1
  count (incomplete_type _ _) = 1
  count (record_type _ _ _) = 1
  count (enum_type _ _) = 1
  count (pointer t _) = 1 + count t
  count (reference t _ _) = 1 + count t
  count (rvalue_reference t _ _) = 1 + count t
  count (alias_type _ t _) = 1 + count t
  count (func_ptr _ t ts) = 1 + count t + count_all ts
  count (slice t) = 1 + count t
  count (nullable t) = 1 + count t
  count (bridge_type _ _ _ _) = 1
  count (other_type _ ts _) = 1 + count_all ts

  pub count_all : RsTypeKinds → ℕ
  count_all no_kinds = 0
  count_all (more_kinds t ts) = count t + count_all ts

-- `RsTypeKind::dfs_iter`, as the list of what it yields.
unfoldable pub dfs_iter : RsTypeKind → List RsTypeKind
unfolding yielded count
dfs_iter t = yielded (count t) (t ∷ [])

unfoldable pub lifetimes : RsTypeKind → List Lifetime
unfolding dfs_iter filter_map lifetime
lifetimes t = filter_map lifetime (dfs_iter t)
