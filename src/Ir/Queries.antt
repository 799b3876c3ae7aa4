-- ===== src/Ir/Queries.antt =====
-- The methods of `IR` in ir.rs: what is looked up in it, and the failures.
use crubit4rust.Base.{
  ℕ, zero, suc, ◌==◌, Bool, true, false, List, [], Option, none, some, String, string_eq, Result,
  ok, err, ◌>>=◌, find, unwrap_or, get_elem?, filter_map, nat_eq, int_eq,
}
use crubit4rust.Ir.Types.{
  HeaderName, LifetimeId, LifetimeName, ItemId, BazelLabel, UnqualifiedIdentifier, Func, RsType,
  CcType, rs_type, cc_type,
}
use crubit4rust.Ir.Names.{name_eq}
use crubit4rust.Ir.Items.{
  Item, as_func, as_record, as_unsupported, as_comment, as_namespace, Namespace, Record,
  UnsupportedItem, Comment,
}
use crubit4rust.Ir.Build.{
  Ir, Failure, unknown_decl_id, no_item_at, no_reopened_index, no_reopened_number, wrong_type,
  count_underflow, no_associated_item,
}

-- `TypeWithDeclId::decl_id`
abbrev pub rs_decl_id : RsType → Option ItemId
rs_decl_id (rs_type _ _ _ _ d) = d

abbrev pub cc_decl_id : CcType → Option ItemId
cc_decl_id (cc_type _ _ _ d) = d

-- `RsType::is_unit_type`
unfoldable pub is_unit_type : RsType → Bool
is_unit_type (rs_type none _ _ _ _) = false
is_unit_type (rs_type (some name) _ _ _ _) = string_eq.beq name "()"

-- `Func::is_instance_method`
unfoldable pub is_instance_method : Func → Bool
is_instance_method func = elim func.member_func_metadata [
  | none ↦ false
  | some meta ↦ elim meta.instance_method_metadata [ none ↦ false | some _ ↦ true ]
]

module _ {Features : Type 0} where
  abbrev pub items : Ir Features → List Item
  items ir = ir.flat_ir.items

  abbrev pub top_level_item_ids : Ir Features → List ItemId
  top_level_item_ids ir = ir.flat_ir.top_level_item_ids

  abbrev pub public_headers : Ir Features → List HeaderName
  public_headers ir = ir.flat_ir.public_headers

  abbrev pub current_target : Ir Features → BazelLabel
  current_target ir = ir.flat_ir.current_target

  abbrev pub crate_root_path : Ir Features → Option String
  crate_root_path ir = ir.flat_ir.crate_root_path

  unfoldable pub functions : Ir Features → List Func
  unfolding filter_map
  functions ir = filter_map as_func (items ir)

  unfoldable pub records : Ir Features → List Record
  unfolding filter_map
  records ir = filter_map as_record (items ir)

  unfoldable pub unsupported_items : Ir Features → List UnsupportedItem
  unfolding filter_map
  unsupported_items ir = filter_map as_unsupported (items ir)

  unfoldable pub comments : Ir Features → List Comment
  unfolding filter_map
  comments ir = filter_map as_comment (items ir)

  unfoldable pub namespaces : Ir Features → List Namespace
  unfolding filter_map
  namespaces ir = filter_map as_namespace (items ir)

  unfoldable pub find_untyped_decl : Ir Features → ItemId → Result Failure Item
  unfolding find
  find_untyped_decl ir decl_id = elim (find decl_id ir.item_id_to_item_idx) [
    | none ↦ err (unknown_decl_id decl_id)
    | some idx ↦ elim (get_elem? (items ir) idx) [
      | none ↦ err (no_item_at idx)
      | some item ↦ ok item
    ]
  ]

  -- `find_decl::<T>`, with the `try_into` of `T`
  unfoldable pub find_decl :
      {T : Type 0} → (Item → Option T) → Ir Features → ItemId → Result Failure T
  unfolding find_untyped_decl
  find_decl try_into ir decl_id = do
    item ← find_untyped_decl ir decl_id
    elim (try_into item) [ none ↦ err (wrong_type decl_id) | some x ↦ ok x ]

  -- `item_for_type`, on the type's `decl_id()`
  unfoldable pub item_for_type : Ir Features → Option ItemId → Result Failure Item
  unfolding find_untyped_decl
  item_for_type ir none = err no_associated_item
  item_for_type ir (some decl_id) = find_untyped_decl ir decl_id

  abbrev pub is_current_target : Ir Features → BazelLabel → Bool
  is_current_target ir target = string_eq.beq target (current_target ir)

  -- with the empty set of features
  unfoldable pub target_crubit_features : Features → Ir Features → BazelLabel → Features
  unfolding find
  target_crubit_features default ir target =
      unwrap_or (find target ir.flat_ir.crubit_features) default

  unfoldable pub get_lifetime : Ir Features → LifetimeId → Option LifetimeName
  unfolding find
  get_lifetime ir lifetime_id = find lifetime_id ir.lifetimes

  unfoldable pub get_reopened_namespace_idx : Ir Features → ItemId → Result Failure ℕ
  unfolding find
  get_reopened_namespace_idx ir id = elim (find id ir.reopened_namespace_id_to_idx) [
    | none ↦ err (no_reopened_index id)
    | some idx ↦ ok idx
  ]

  unfoldable pub is_last_reopened_namespace : Ir Features → ItemId → ItemId → Result Failure Bool
  unfolding find get_reopened_namespace_idx
  is_last_reopened_namespace ir id canonical_id = do
    idx ← get_reopened_namespace_idx ir id
    elim (find canonical_id ir.namespace_id_to_number_of_reopened_namespaces) [
      | none ↦ err (no_reopened_number canonical_id)
      | some zero ↦ err count_underflow
      | some (suc last_item_idx) ↦ ok (idx == last_item_idx)
    ]

  -- `record_for_member_func`
  unfoldable pub record_for_member_func : Ir Features → Func → Result Failure (Option Item)
  unfolding find_untyped_decl
  record_for_member_func ir func = elim func.member_func_metadata [
    | none ↦ ok none
    | some meta ↦ do item ← find_untyped_decl ir meta.record_id; ok (some item)
  ]

  unfoldable pub get_functions_by_name : Ir Features → UnqualifiedIdentifier → List Func
  unfolding find
  get_functions_by_name ir function_name =
      unwrap_or (find function_name ir.function_name_to_functions) []
