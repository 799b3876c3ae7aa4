-- ===== src/Ir/Types.antt =====
-- The types of the IR (rs_bindings_from_cc/ir.rs), up to the functions. A newtype stands for its
-- content, `Rc<T>` for `T`, and a `usize` or `u64` is a natural number.
use crubit4rust.Base.{ℕ, Bool, List, Option, String, Result, ℤ}

pub record HeaderName : Type 0 where
  pub name : String

abbrev pub LifetimeId : Type 0
LifetimeId = ℤ

pub record LifetimeName : Type 0 where
  pub name : String
  pub id : LifetimeId

abbrev pub ItemId : Type 0
ItemId = ℕ

abbrev pub BazelLabel : Type 0
BazelLabel = String

mutual
  -- the name, the lifetime and type arguments, the unknown attributes and the declaration
  pub data RsType : Type 0 where
    rs_type : Option String → List LifetimeId → RsTypes → Option String → Option ItemId → RsType

  pub data RsTypes : Type 0 where
    no_rs_types : RsTypes
    more_rs_types : RsType → RsTypes → RsTypes

mutual
  -- the name, `is_const`, the type arguments and the declaration
  pub data CcType : Type 0 where
    cc_type : Option String → Bool → CcTypes → Option ItemId → CcType

  pub data CcTypes : Type 0 where
    no_cc_types : CcTypes
    more_cc_types : CcType → CcTypes → CcTypes

pub record MappedType : Type 0 where
  pub rs_type : RsType
  pub cpp_type : CcType

pub record Identifier : Type 0 where
  pub identifier : String

pub record IntegerConstant : Type 0 where
  pub is_negative : Bool
  pub wrapped_value : ℕ

pub record Operator : Type 0 where
  pub name : String

pub data UnqualifiedIdentifier : Type 0 where
  identifier : Identifier → UnqualifiedIdentifier
  operator : Operator → UnqualifiedIdentifier
  constructor_name destructor_name : UnqualifiedIdentifier

pub data ReferenceQualification : Type 0 where
  lvalue rvalue unqualified : ReferenceQualification

pub record InstanceMethodMetadata : Type 0 where
  pub reference : ReferenceQualification
  pub is_const : Bool
  pub is_virtual : Bool

pub record MemberFuncMetadata : Type 0 where
  pub record_id : ItemId
  pub instance_method_metadata : Option InstanceMethodMetadata

pub record FuncParam : Type 0 where
  pub type_ : MappedType
  pub identifier : Identifier
  pub unknown_attr : Option String

pub record Func : Type 0 where
  pub name : UnqualifiedIdentifier
  pub owning_target : BazelLabel
  pub mangled_name : String
  pub doc_comment : Option String
  pub return_type : MappedType
  pub params : List FuncParam
  pub lifetime_params : List LifetimeName
  pub is_inline : Bool
  pub member_func_metadata : Option MemberFuncMetadata
  pub is_extern_c : Bool
  pub is_noreturn : Bool
  pub nodiscard : Option String
  pub deprecated : Option String
  pub unknown_attr : Option String
  pub has_c_calling_convention : Bool
  pub is_member_or_descendant_of_class_template : Bool
  pub source_loc : String
  pub id : ItemId
  pub enclosing_item_id : Option ItemId
  pub adl_enclosing_record : Option ItemId

pub data AccessSpecifier : Type 0 where
  public protected private : AccessSpecifier

pub record Field : Type 0 where
  pub identifier : Option Identifier
  pub doc_comment : Option String
  pub type_ : Result String MappedType
  pub access : AccessSpecifier
  pub offset : ℕ
  pub size : ℕ
  pub unknown_attr : Option String
  pub is_no_unique_address : Bool
  pub is_bitfield : Bool
  pub is_inheritable : Bool

pub data SpecialMemberFunc : Type 0 where
  trivial nontrivial_members nontrivial_user_defined unavailable : SpecialMemberFunc

pub record BaseClass : Type 0 where
  pub base_record_id : ItemId
  pub offset : Option ℤ

pub data RecordType : Type 0 where
  struct_type union_type class_type : RecordType
