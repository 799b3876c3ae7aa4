-- ===== src/Ir/Accessors.antt =====
-- The accessors that all items of ir.rs share.
use Prim.Native.String.{◌++◌ as str_append}
use crubit4rust.Base.{
  [], ◌∷◌, List, ℕ, Bool, String, zero, suc, true, false, Option, none, some, Result, ok, err,
  ◌>>=◌, if◌then◌else◌,
}
use crubit4rust.CodeGen.{first_char}
use crubit4rust.Errors.{Error, FormattedError, formatted}
use crubit4rust.Ir.Types.{
  ItemId, BazelLabel, UnqualifiedIdentifier, identifier, operator, constructor_name,
  destructor_name, Operator, RecordType, union_type, struct_type, class_type,
}
use crubit4rust.Ir.Items.{
  UnsupportedItem, Item, func_item, incomplete_record_item, record_item, enum_item, type_alias_item,
  unsupported_item, comment_item, namespace_item, use_mod_item, type_map_override_item, Record,
}
use crubit4rust.Ir.Build.{item_id, Ir, Failure, no_record, out_of_fuel}
use crubit4rust.Ir.Queries.{record_for_member_func}

-- `GenericItem::source_loc`
unfoldable pub source_loc : Item → Option String
source_loc (func_item x) = some x.source_loc
source_loc (incomplete_record_item x) = none
source_loc (record_item x) = some x.source_loc
source_loc (enum_item x) = some x.source_loc
source_loc (type_alias_item x) = some x.source_loc
source_loc (unsupported_item x) = x.source_loc
source_loc (comment_item x) = none
source_loc (namespace_item x) = none
source_loc (use_mod_item x) = none
source_loc (type_map_override_item x) = none

-- `GenericItem::unknown_attr`
unfoldable pub unknown_attr : Item → Option String
unknown_attr (func_item x) = x.unknown_attr
unknown_attr (incomplete_record_item x) = x.unknown_attr
unknown_attr (record_item x) = x.unknown_attr
unknown_attr (enum_item x) = x.unknown_attr
unknown_attr (type_alias_item x) = x.unknown_attr
unknown_attr (unsupported_item x) = none
unknown_attr (comment_item x) = none
unknown_attr (namespace_item x) = x.unknown_attr
unknown_attr (use_mod_item x) = none
unknown_attr (type_map_override_item x) = none

unfoldable pub enclosing_item_id : Item → Option ItemId
enclosing_item_id (record_item x) = x.enclosing_item_id
enclosing_item_id (incomplete_record_item x) = x.enclosing_item_id
enclosing_item_id (enum_item x) = x.enclosing_item_id
enclosing_item_id (func_item x) = x.enclosing_item_id
enclosing_item_id (namespace_item x) = x.enclosing_item_id
enclosing_item_id (type_alias_item x) = x.enclosing_item_id
enclosing_item_id (comment_item x) = none
enclosing_item_id (unsupported_item x) = none
enclosing_item_id (use_mod_item x) = none
enclosing_item_id (type_map_override_item x) = none

unfoldable pub defining_target : Item → Option BazelLabel
defining_target (record_item x) = x.defining_target
defining_target _ = none

unfoldable pub owning_target : Item → Option BazelLabel
owning_target (func_item x) = some x.owning_target
owning_target (incomplete_record_item x) = some x.owning_target
owning_target (record_item x) = some x.owning_target
owning_target (enum_item x) = some x.owning_target
owning_target (type_alias_item x) = some x.owning_target
owning_target (unsupported_item x) = none
owning_target (comment_item x) = none
owning_target (namespace_item x) = some x.owning_target
owning_target (use_mod_item x) = none
owning_target (type_map_override_item x) = some x.owning_target

unfoldable pub is_type_definition : Item → Bool
is_type_definition (func_item x) = false
is_type_definition (incomplete_record_item x) = true
is_type_definition (record_item x) = true
is_type_definition (enum_item x) = true
is_type_definition (type_alias_item x) = true
is_type_definition (unsupported_item x) = false
is_type_definition (comment_item x) = false
is_type_definition (namespace_item x) = false
is_type_definition (use_mod_item x) = false
is_type_definition (type_map_override_item x) = false

-- `Record::is_unpin`
unfoldable pub is_unpin : Record → Bool
is_unpin r = r.is_trivial_abi

abbrev pub is_union_type : RecordType → Bool
is_union_type union_type = true
is_union_type struct_type = false
is_union_type class_type = false

-- `Record::is_union`
unfoldable pub is_union : Record → Bool
is_union r = is_union_type r.record_type

-- `is_alphabetic` is `char::is_alphabetic`, on a code point.
module _ (is_alphabetic : ℕ → Bool) where
  abbrev pub separator : Option ℕ → String
  separator none = ""
  separator (some c) = if is_alphabetic c then " " else ""

  -- `Operator::cc_name`
  unfoldable pub cc_name : Operator → String
  cc_name op = str_append "operator" (str_append (separator (first_char op.name)) op.name)

  -- The name of a function without its record; `record` is the record's name.
  unfoldable pub func_name : UnqualifiedIdentifier → Option String → Result Failure String
  unfolding cc_name
  func_name (identifier id) record_name = ok id.identifier
  func_name (operator op) record_name = ok (cc_name op)
  func_name destructor_name none = err no_record
  func_name destructor_name (some record_name) = ok (str_append "~" record_name)
  func_name constructor_name none = err no_record
  func_name constructor_name (some record_name) = ok record_name

  abbrev pub qualified : Option String → String → String
  qualified none name = name
  qualified (some record_name) name = str_append record_name (str_append "::" name)

  -- `GenericItem::debug_name`: a member function asks for the name of its record, which is read
  -- with one unit of fuel less.
  unfoldable pub debug_name : {Features : Type 0} → ℕ → Ir Features → Item → Result Failure String
  unfolding func_name
  debug_name zero ir item = err out_of_fuel
  debug_name (suc fuel) ir (func_item x) = do
    owner ← record_for_member_func ir x
    record_name ← elim owner [
      | none ↦ ok none
      | some item ↦ do name ← debug_name fuel ir item; ok (some name)
    ]
    name ← func_name x.name record_name
    ok (qualified record_name name)
  debug_name (suc fuel) ir (incomplete_record_item x) = ok x.cc_name
  debug_name (suc fuel) ir (record_item x) = ok x.cc_name
  debug_name (suc fuel) ir (enum_item x) = ok x.identifier.identifier
  debug_name (suc fuel) ir (type_alias_item x) = ok x.identifier.identifier
  debug_name (suc fuel) ir (unsupported_item x) = ok x.name
  debug_name (suc fuel) ir (comment_item x) = ok "comment"
  debug_name (suc fuel) ir (namespace_item x) = ok x.name.identifier
  debug_name (suc fuel) ir (use_mod_item x) = ok (
      str_append "[internal] use mod "
        (str_append x.mod_name.identifier (str_append "::* = " x.path)))
  debug_name (suc fuel) ir (type_map_override_item x) = ok x.cc_name

-- `FormattedError` of ir.rs as an `Error`
abbrev pub from_formatted : List FormattedError → List Error
from_formatted [] = []
from_formatted (e ∷ es) = formatted e ∷ from_formatted es

-- `UnsupportedItem::errors`: the errors, and the item with its cell filled.
unfoldable pub unsupported_errors : UnsupportedItem → List Error × UnsupportedItem
unsupported_errors item = elim item.cause [
  | some cause ↦ (cause, item)
  | none ↦ let errors = from_formatted item.errors in (errors, record item { cause = some errors })
]

module _ (is_alphabetic : ℕ → Bool) {Features : Type 0} where
  -- `UnsupportedItem::new`
  unfoldable pub new_unsupported :
      ℕ → Ir Features → Item → Option FormattedError → Option Error → Result Failure UnsupportedItem
  unfolding debug_name source_loc
  new_unsupported fuel ir item error cause = do
    name ← debug_name is_alphabetic fuel ir item
    ok (record {
      name = name;
      errors = elim error [ none ↦ [] | some e ↦ e ∷ [] ];
      source_loc = source_loc item;
      id = item_id item;
      cause = elim cause [ none ↦ none | some e ↦ some (e ∷ []) ];
    })

  -- `UnsupportedItem::new_with_static_message`
  unfoldable pub new_with_static_message :
      ℕ → Ir Features → Item → String → Result Failure UnsupportedItem
  unfolding new_unsupported
  new_with_static_message fuel ir item message =
      new_unsupported fuel ir item (some (record { fmt = message; message = message })) none

  -- `UnsupportedItem::new_with_cause`
  unfoldable pub new_with_cause : ℕ → Ir Features → Item → Error → Result Failure UnsupportedItem
  unfolding new_unsupported
  new_with_cause fuel ir item cause = new_unsupported fuel ir item none (some cause)
