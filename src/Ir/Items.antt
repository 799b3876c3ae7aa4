-- ===== src/Ir/Items.antt =====
-- The items of the IR (rs_bindings_from_cc/ir.rs).
use crubit4rust.Base.{ℕ, Bool, List, Option, none, some, String, Result}
use crubit4rust.Errors.{Error, FormattedError}
use crubit4rust.Ir.Types.{
  ItemId, BazelLabel, RecordType, MappedType, BaseClass, Field, LifetimeName, SpecialMemberFunc,
  Identifier, IntegerConstant, Func,
}

pub record IncompleteRecord : Type 0 where
  pub cc_name : String
  pub rs_name : String
  pub id : ItemId
  pub owning_target : BazelLabel
  pub unknown_attr : Option String
  pub record_type : RecordType
  pub enclosing_item_id : Option ItemId

pub record SizeAlign : Type 0 where
  pub size : ℕ
  pub alignment : ℕ

pub record BridgeTypeInfo : Type 0 where
  pub bridge_type : String
  pub rust_to_cpp_converter : String
  pub cpp_to_rust_converter : String

pub record TemplateArg : Type 0 where
  pub type_ : Result String MappedType

pub record TemplateSpecialization : Type 0 where
  pub template_name : String
  pub template_args : List TemplateArg

pub record Record : Type 0 where
  pub rs_name : String
  pub cc_name : String
  pub cc_preferred_name : String
  pub mangled_cc_name : String
  pub id : ItemId
  pub owning_target : BazelLabel
  pub defining_target : Option BazelLabel
  pub template_specialization : Option TemplateSpecialization
  pub unknown_attr : Option String
  pub doc_comment : Option String
  pub bridge_type_info : Option BridgeTypeInfo
  pub source_loc : String
  pub unambiguous_public_bases : List BaseClass
  pub fields : List Field
  pub lifetime_params : List LifetimeName
  pub size_align : SizeAlign
  pub is_derived_class : Bool
  pub override_alignment : Bool
  pub copy_constructor : SpecialMemberFunc
  pub move_constructor : SpecialMemberFunc
  pub destructor : SpecialMemberFunc
  pub is_trivial_abi : Bool
  pub is_inheritable : Bool
  pub is_abstract : Bool
  pub record_type : RecordType
  pub is_aggregate : Bool
  pub is_anon_record_with_typedef : Bool
  pub child_item_ids : List ItemId
  pub enclosing_item_id : Option ItemId

pub record Enumerator : Type 0 where
  pub identifier : Identifier
  pub value : IntegerConstant
  pub unknown_attr : Option String

pub record Enum : Type 0 where
  pub identifier : Identifier
  pub id : ItemId
  pub owning_target : BazelLabel
  pub source_loc : String
  pub underlying_type : MappedType
  pub enumerators : Option (List Enumerator)
  pub unknown_attr : Option String
  pub enclosing_item_id : Option ItemId

pub record TypeAlias : Type 0 where
  pub identifier : Identifier
  pub id : ItemId
  pub owning_target : BazelLabel
  pub doc_comment : Option String
  pub unknown_attr : Option String
  pub underlying_type : MappedType
  pub source_loc : String
  pub enclosing_item_id : Option ItemId

-- `cause` is the content of the cell, once it has one.
pub record UnsupportedItem : Type 0 where
  pub name : String
  pub errors : List FormattedError
  pub source_loc : Option String
  pub id : ItemId
  pub cause : Option (List Error)

pub record Comment : Type 0 where
  pub text : String
  pub id : ItemId

pub record Namespace : Type 0 where
  pub name : Identifier
  pub id : ItemId
  pub canonical_namespace_id : ItemId
  pub unknown_attr : Option String
  pub owning_target : BazelLabel
  pub child_item_ids : List ItemId
  pub enclosing_item_id : Option ItemId
  pub is_inline : Bool

pub record UseMod : Type 0 where
  pub path : String
  pub mod_name : Identifier
  pub id : ItemId

pub record TypeMapOverride : Type 0 where
  pub rs_name : String
  pub cc_name : String
  pub type_parameters : List MappedType
  pub owning_target : BazelLabel
  pub size_align : Option SizeAlign
  pub is_same_abi : Bool
  pub id : ItemId

pub data Item : Type 0 where
  func_item : Func → Item
  incomplete_record_item : IncompleteRecord → Item
  record_item : Record → Item
  enum_item : Enum → Item
  type_alias_item : TypeAlias → Item
  unsupported_item : UnsupportedItem → Item
  comment_item : Comment → Item
  namespace_item : Namespace → Item
  use_mod_item : UseMod → Item
  type_map_override_item : TypeMapOverride → Item

-- the `TryFrom<&Item>` instances
abbrev pub as_func : Item → Option Func
as_func (func_item x) = some x
as_func _ = none

abbrev pub as_record : Item → Option Record
as_record (record_item x) = some x
as_record _ = none

abbrev pub as_unsupported : Item → Option UnsupportedItem
as_unsupported (unsupported_item x) = some x
as_unsupported _ = none

abbrev pub as_comment : Item → Option Comment
as_comment (comment_item x) = some x
as_comment _ = none

abbrev pub as_namespace : Item → Option Namespace
as_namespace (namespace_item x) = some x
as_namespace _ = none
