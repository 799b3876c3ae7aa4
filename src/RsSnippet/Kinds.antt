-- ===== src/RsSnippet/Kinds.antt =====
-- The types of rs_snippet.rs: primitive types, paths, and the tree of a Rust type.
use crubit4rust.Base.{Bool, List, [], ◌∷◌, Option, String}
use crubit4rust.CodeGen.{Token, TokenStream, NamespaceQualifier}
use crubit4rust.Ir.{Record, IncompleteRecord, Enum, TypeAlias}

-- `RsSnippet`; the set of features is a list without order.
pub record Snippet : Type 0 where
  pub tokens : TokenStream
  pub features : List Token

pub data Mutability : Type 0 where
  const_ mut_ : Mutability

-- `Lifetime`, by its name: a named lifetime, or `_` for the elided one.
abbrev pub Lifetime : Type 0
Lifetime = String

pub record CratePath : Type 0 where
  pub crate_ident : Option Token
  pub crate_root_path : NamespaceQualifier
  pub namespace_qualifier : NamespaceQualifier

pub data PrimitiveType : Type 0 where
  unit_ bool_ u8 i8 u16 i16 u32 i32 u64 i64 usize isize f32 f64 : PrimitiveType
  c_char c_uchar c_schar c_ushort c_short c_uint c_int c_ulong c_long : PrimitiveType
  c_ulonglong c_longlong : PrimitiveType

pub data TypeLocation : Type 0 where
  fn_return fn_param elsewhere : TypeLocation

mutual
  -- `RsTypeKind`; the strings of a bridge type are its name and its two converters, and the Boolean
  -- of `other_type` is `is_same_abi`.
  pub data RsTypeKind : Type 0 where
    pointer : RsTypeKind → Mutability → RsTypeKind
    reference : RsTypeKind → Mutability → Lifetime → RsTypeKind
    rvalue_reference : RsTypeKind → Mutability → Lifetime → RsTypeKind
    func_ptr : String → RsTypeKind → RsTypeKinds → RsTypeKind
    incomplete_type : IncompleteRecord → CratePath → RsTypeKind
    record_type : Record → CratePath → KnownGeneric → RsTypeKind
    enum_type : Enum → CratePath → RsTypeKind
    alias_type : TypeAlias → RsTypeKind → CratePath → RsTypeKind
    primitive : PrimitiveType → RsTypeKind
    slice : RsTypeKind → RsTypeKind
    nullable : RsTypeKind → RsTypeKind
    bridge_type : String → String → String → Record → RsTypeKind
    other_type : String → RsTypeKinds → Bool → RsTypeKind

  -- `[RsTypeKind]`
  pub data RsTypeKinds : Type 0 where
    no_kinds : RsTypeKinds
    more_kinds : RsTypeKind → RsTypeKinds → RsTypeKinds

  -- `Option<GenericMonomorphization>`: the template's name, the name of the generic type and its
  -- arguments.
  pub data KnownGeneric : Type 0 where
    not_generic : KnownGeneric
    generic : String → String → RsTypeKinds → KnownGeneric

-- The slice as a list.
unfoldable pub kinds_of : RsTypeKinds → List RsTypeKind
kinds_of no_kinds = []
kinds_of (more_kinds t ts) = t ∷ kinds_of ts

unfoldable pub collected : List RsTypeKind → RsTypeKinds
collected [] = no_kinds
collected (t ∷ ts) = more_kinds t (collected ts)
