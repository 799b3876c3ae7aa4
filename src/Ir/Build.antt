-- ===== src/Ir/Build.antt =====
-- `make_ir` of ir.rs: the tables that are built from the items.
use crubit4rust.Base.{
  ℕ, ◌+◌, List, [], ◌∷◌, ◌++◌, Option, none, some, String, string_eq, nat_eq, int_eq, Result, ok,
  err, ◌>>=◌, if◌then◌else◌, HashMap, find, put, filter_map, unwrap_or,
}
use crubit4rust.Ir.Types.{
  HeaderName, LifetimeId, LifetimeName, ItemId, BazelLabel, UnqualifiedIdentifier, Func,
}
use crubit4rust.Ir.Names.{name_eq}
use crubit4rust.Ir.Items.{
  Item, func_item, incomplete_record_item, record_item, enum_item, type_alias_item,
  unsupported_item, comment_item, namespace_item, use_mod_item, as_func, type_map_override_item,
  Namespace,
}

-- `FlatIR`; a set of features is of the type `Features`.
pub record FlatIr (Features : Type 0) : Type 0 where
  pub public_headers : List HeaderName
  pub current_target : BazelLabel
  pub items : List Item
  pub top_level_item_ids : List ItemId
  pub crate_root_path : Option String
  pub crubit_features : HashMap BazelLabel Features

-- `IR`
pub record Ir (Features : Type 0) : Type 0 where
  pub flat_ir : FlatIr Features
  pub item_id_to_item_idx : HashMap ItemId ℕ
  pub lifetimes : HashMap LifetimeId LifetimeName
  pub namespace_id_to_number_of_reopened_namespaces : HashMap ItemId ℕ
  pub reopened_namespace_id_to_idx : HashMap ItemId ℕ
  pub function_name_to_functions : HashMap UnqualifiedIdentifier (List Func)

-- The panics and the errors of the functions of the IR.
pub data Failure : Type 0 where
  duplicate_decl_id : Item → Item → Failure
  duplicate_lifetime : LifetimeName → LifetimeName → Failure
  unknown_decl_id no_item_at no_reopened_index no_reopened_number wrong_type : ℕ → Failure
  count_underflow no_associated_item no_record namespaces_in_record expected_namespace : Failure
  out_of_fuel refused_ident malformed_function_pointer no_identifier : Failure

-- `Item::id`
unfoldable pub item_id : Item → ItemId
item_id (func_item x) = x.id
item_id (incomplete_record_item x) = x.id
item_id (record_item x) = x.id
item_id (enum_item x) = x.id
item_id (type_alias_item x) = x.id
item_id (unsupported_item x) = x.id
item_id (comment_item x) = x.id
item_id (namespace_item x) = x.id
item_id (use_mod_item x) = x.id
item_id (type_map_override_item x) = x.id

-- The loop that looks for duplicate ids, with `used_decl_ids` so far.
unfoldable pub check_ids : HashMap ItemId Item → List Item → Result Failure (HashMap ItemId Item)
unfolding find put item_id
check_ids used [] = ok used
check_ids used (item ∷ items) = elim (find (item_id item) used) [
  | some existing ↦ err (duplicate_decl_id existing item)
  | none ↦ check_ids (put (item_id item) item used) items
]

-- `items.iter().enumerate().map(|(idx, item)| (item.id(), idx)).collect()`, from `idx` on
unfoldable pub index_items : ℕ → HashMap ItemId ℕ → List Item → HashMap ItemId ℕ
unfolding put item_id
index_items idx m [] = m
index_items idx m (item ∷ items) = index_items (idx + 1) (put (item_id item) idx m) items

unfoldable pub add_lifetimes :
    HashMap LifetimeId LifetimeName
    → List LifetimeName
    → Result Failure (HashMap LifetimeId LifetimeName)
unfolding find put
add_lifetimes lifetimes [] = ok lifetimes
add_lifetimes lifetimes (l ∷ ls) = elim (find l.id lifetimes) [
  | some occupied ↦ err (duplicate_lifetime occupied l)
  | none ↦ add_lifetimes (put l.id l lifetimes) ls
]

-- The lifetime parameters of a record or a function.
unfoldable pub lifetime_params : Item → List LifetimeName
lifetime_params (func_item x) = x.lifetime_params
lifetime_params (record_item x) = x.lifetime_params
lifetime_params _ = []

unfoldable pub collect_lifetimes :
    HashMap LifetimeId LifetimeName → List Item → Result Failure (HashMap LifetimeId LifetimeName)
unfolding add_lifetimes lifetime_params
collect_lifetimes lifetimes [] = ok lifetimes
collect_lifetimes lifetimes (item ∷ items) = do
  more ← add_lifetimes lifetimes (lifetime_params item)
  collect_lifetimes more items

-- The namespace that an item is, if `target` owns it.
unfoldable pub namespace_of : BazelLabel → Item → Option Namespace
namespace_of target (namespace_item ns) =
    if string_eq.beq ns.owning_target target then some ns else none
namespace_of target _ = none

-- The loop over the namespaces: how often each was opened so far, and the index of each opening.
unfoldable pub count_namespaces :
    HashMap ItemId ℕ → HashMap ItemId ℕ → List Namespace → HashMap ItemId ℕ × HashMap ItemId ℕ
unfolding find put
count_namespaces numbers indices [] = (numbers, indices)
count_namespaces numbers indices (ns ∷ rest) =
    let current = unwrap_or (find ns.canonical_namespace_id numbers) 0 in
    count_namespaces (put ns.canonical_namespace_id (current + 1) numbers)
      (put ns.id current indices) rest

-- The loop over the functions, which groups them by their names.
unfoldable pub group_functions :
    HashMap UnqualifiedIdentifier (List Func)
    → List Func
    → HashMap UnqualifiedIdentifier (List Func)
unfolding find put
group_functions groups [] = groups
group_functions groups (f ∷ fs) =
    let group = unwrap_or (find f.name groups) [] in
    group_functions (put f.name (group ++ f ∷ []) groups) fs

unfoldable pub make_ir : {Features : Type 0} → FlatIr Features → Result Failure (Ir Features)
unfolding check_ids index_items collect_lifetimes namespace_of count_namespaces group_functions
    filter_map
make_ir flat_ir = do
  _ ← check_ids [] flat_ir.items
  lifetimes ← collect_lifetimes [] flat_ir.items
  let reopened =
      count_namespaces [] [] (filter_map (namespace_of flat_ir.current_target) flat_ir.items)
  ok (record {
    flat_ir = flat_ir;
    item_id_to_item_idx = index_items 0 [] flat_ir.items;
    lifetimes = lifetimes;
    namespace_id_to_number_of_reopened_namespaces = reopened.0;
    reopened_namespace_id_to_idx = reopened.1;
    function_name_to_functions = group_functions [] (filter_map as_func flat_ir.items);
  })
