-- ===== src/Bindings/CppNames.antt =====
-- lib.rs of generate_bindings: how types and items are named in the C++ thunks. Errors and panics
-- are both a `CppError` here.
use crubit4rust.Base.{
  if◌then◌else◌, nat_eq, string_eq, contains, Result, err, ok, ◌>>=◌, int_eq, ℕ, String, Bool, true,
  false, Option, none, some, List, [], ◌∷◌, ◌++◌,
}
use crubit4rust.CodeGen.{
  TokenStream, ident, punct, Syntax, IdentError, format_cc_ident, format_for_cc,
}
use crubit4rust.Ir.{
  Ir, Failure, Item, incomplete_record_item, record_item, enum_item, type_alias_item,
  type_map_override_item, namespace_item, Record, RecordType, struct_type, union_type, class_type,
  CcType, CcTypes, cc_type, no_cc_types, more_cc_types, namespace_qualifier, enclosing_item_id,
  find_untyped_decl, item_for_type,
}
use crubit4rust.Bindings.Types.{strip_prefix}

pub data CppError : Type 0 where
  cpp_ir_failure : Failure → CppError
  cpp_ident_error : IdentError → CppError
  malformed_type_name unsupported_abi unsupported_type : String → CppError
  no_type_item unexpected_enclosing_item invalid_pointer no_return_type : CppError

abbrev pub of_ir : {A : Type 0} → Result Failure A → Result CppError A
of_ir (ok a) = ok a
of_ir (err failure) = err (cpp_ir_failure failure)

abbrev pub of_ident : {A : Type 0} → Result IdentError A → Result CppError A
of_ident (ok a) = ok a
of_ident (err e) = err (cpp_ident_error e)

-- `ToTokens for RecordType` of ir.rs
unfoldable pub record_type_tokens : RecordType → TokenStream
record_type_tokens struct_type = ident "struct" ∷ []
record_type_tokens union_type = ident "union" ∷ []
record_type_tokens class_type = ident "class" ∷ []

unfoldable pub cc_tag_kind : Record → TokenStream
unfolding record_type_tokens
cc_tag_kind r = if r.is_anon_record_with_typedef then [] else record_type_tokens r.record_type

abbrev pub clang_attribute : String → TokenStream
clang_attribute name =
    ident "__attribute__" ∷ punct "(" ∷ punct "(" ∷ ident name ∷ punct ")" ∷ punct ")" ∷ []

unfoldable pub format_cc_call_conv_as_clang_attribute : String → Result CppError TokenStream
format_cc_call_conv_as_clang_attribute rs_abi =
    if string_eq.beq rs_abi "cdecl"
    then ok []
    else if string_eq.beq rs_abi "fastcall"
    then ok (clang_attribute "fastcall")
    else if string_eq.beq rs_abi "stdcall"
    then ok (clang_attribute "stdcall")
    else if string_eq.beq rs_abi "thiscall"
    then ok (clang_attribute "thiscall")
    else if string_eq.beq rs_abi "vectorcall"
    then ok (clang_attribute "vectorcall")
    else err (unsupported_abi rs_abi)

-- What is done with the name of a C++ type.
pub data CppName : Type 0 where
  pointer_name : String → CppName
  function_name plain_name : String → CppName

unfoldable pub cpp_name : String → CppName
unfolding strip_prefix
cpp_name name =
    if contains ("*" ∷ "&" ∷ "&&" ∷ []) name
    then pointer_name name
    else elim (strip_prefix "#funcValue " name) [
      | some abi ↦ function_name abi
      | none ↦ plain_name name
    ]

-- `#( #params ),*`
unfoldable pub separated : List TokenStream → TokenStream
separated [] = []
separated (t ∷ []) = t
separated (t ∷ u ∷ ts) = t ++ punct "," ∷ separated (u ∷ ts)

-- `split_last`: the last, and the others before it.
unfoldable pub last_and_init : {A : Type 0} → List A → Option (A × List A)
last_and_init [] = none
last_and_init (t ∷ ts) = elim (last_and_init ts) [
  | none ↦ some (t, [])
  | some (last, init) ↦ some (last, t ∷ init)
]

-- `collect::<Result<Vec<_>>>()`
unfoldable pub all_ok : {A : Type 0} → List (Result CppError A) → Result CppError (List A)
all_ok [] = ok []
all_ok (r ∷ rs) = do a ← r; more ← all_ok rs; ok (a ∷ more)

abbrev pub is_empty_types : CcTypes → Bool
is_empty_types no_cc_types = true
is_empty_types (more_cc_types _ _) = false

abbrev pub const_fragment : Bool → TokenStream
const_fragment true = ident "const" ∷ []
const_fragment false = []

module _ (syntax : Syntax) {Features : Type 0} where
  -- `namespace_qualifier(..)?.format_for_cc()?`; the fuel is that of `namespace_qualifier`.
  unfoldable pub cc_namespace : ℕ → Ir Features → Item → Result CppError TokenStream
  unfolding namespace_qualifier format_for_cc
  cc_namespace fuel ir item = do
    q ← of_ir (namespace_qualifier fuel ir item)
    of_ident (format_for_cc syntax q)

  unfoldable pub cc_tagless_type_name_for_record :
      ℕ → Record → Ir Features → Result CppError TokenStream
  unfolding cc_namespace format_cc_ident
  cc_tagless_type_name_for_record fuel r ir = do
    name ← of_ident (format_cc_ident syntax r.cc_name)
    qualifier ← cc_namespace fuel ir (record_item r)
    ok (qualifier ++ name)

  unfoldable pub cpp_type_name_for_record : ℕ → Record → Ir Features → Result CppError TokenStream
  unfolding cc_tagless_type_name_for_record cc_tag_kind
  cpp_type_name_for_record fuel r ir = do
    tagless ← cc_tagless_type_name_for_record fuel r ir
    ok (cc_tag_kind r ++ tagless)

  abbrev pub prefix_in : ℕ → Ir Features → Item → Item → Result CppError TokenStream
  prefix_in fuel ir item (namespace_item _) = cc_namespace fuel ir item
  prefix_in fuel ir item (record_item r) = do
    name ← cc_tagless_type_name_for_record fuel r ir
    ok (name ++ punct "::" ∷ [])
  prefix_in fuel ir item _ = err unexpected_enclosing_item

  unfoldable pub cc_qualified_path_prefix : ℕ → Item → Ir Features → Result CppError TokenStream
  unfolding enclosing_item_id find_untyped_decl cc_namespace cc_tagless_type_name_for_record
  cc_qualified_path_prefix fuel item ir = elim (enclosing_item_id item) [
    | none ↦ ok []
    | some parent_id ↦ do
      parent ← of_ir (find_untyped_decl ir parent_id)
      prefix_in fuel ir item parent
  ]

  -- The name of an enum or an alias.
  unfoldable pub prefixed_name : ℕ → Item → Ir Features → String → Result CppError TokenStream
  unfolding cc_qualified_path_prefix format_cc_ident
  prefixed_name fuel item ir name = do
    i ← of_ident (format_cc_ident syntax name)
    qualifier ← cc_qualified_path_prefix fuel item ir
    ok (qualifier ++ i)

  unfoldable pub cpp_type_name_for_item : ℕ → Item → Ir Features → Result CppError TokenStream
  unfolding cc_namespace cpp_type_name_for_record prefixed_name format_cc_ident record_type_tokens
  cpp_type_name_for_item fuel (incomplete_record_item r) ir = do
    i ← of_ident (format_cc_ident syntax r.cc_name)
    qualifier ← cc_namespace fuel ir (incomplete_record_item r)
    ok (record_type_tokens r.record_type ++ qualifier ++ i)
  cpp_type_name_for_item fuel (record_item r) ir = cpp_type_name_for_record fuel r ir
  cpp_type_name_for_item fuel (enum_item e) ir =
      prefixed_name fuel (enum_item e) ir e.identifier.identifier
  cpp_type_name_for_item fuel (type_alias_item a) ir =
      prefixed_name fuel (type_alias_item a) ir a.identifier.identifier
  cpp_type_name_for_item fuel (type_map_override_item o) ir = elim (syntax.parse_tokens o.cc_name) [
    | none ↦ err (malformed_type_name o.cc_name)
    | some ts ↦ ok ts
  ]
  cpp_type_name_for_item fuel _ ir = err no_type_item

-- A pointer or a reference around the tokens: a reference only where `references_ok`.
unfoldable pub pointer_tokens : Bool → String → Bool → TokenStream → TokenStream
pointer_tokens references_ok name is_const nested =
    nested ++ punct (if references_ok then name else "*") ∷ const_fragment is_const

-- A function type from its parts, the last of which is its result.
unfoldable pub function_tokens :
    String → List (Result CppError TokenStream) → Result CppError TokenStream
unfolding last_and_init all_ok separated format_cc_call_conv_as_clang_attribute
function_tokens abi parts = elim (last_and_init parts) [
  | none ↦ err no_return_type
  | some (last, init) ↦ do
    ret ← last
    params ← all_ok init
    attr ← format_cc_call_conv_as_clang_attribute abi
    ok (
        ident "crubit" ∷ punct "::" ∷ ident "type_identity_t" ∷ punct "<" ∷ ret
        ++ punct "(" ∷ separated params
        ++ punct ")" ∷ attr
        ++ punct ">" ∷ [])
]

unfoldable pub plain_tokens : Syntax → String → Bool → CcTypes → Result CppError TokenStream
plain_tokens syntax name is_const type_args =
    if is_empty_types type_args
    then elim (syntax.parse_tokens name) [
      | none ↦ err (malformed_type_name name)
      | some ts ↦ ok (ts ++ const_fragment is_const)
    ]
    else err (unsupported_type name)

module _ (syntax : Syntax) {Features : Type 0} (fuel : ℕ) (ir : Ir Features) where
  unfoldable mutual
    unfolding cpp_name pointer_tokens function_tokens plain_tokens item_for_type
        cpp_type_name_for_item

    pub format_cpp_type_inner : CcType → Bool → Result CppError TokenStream
    format_cpp_type_inner (cc_type none is_const type_args decl_id) references_ok = do
      item ← of_ir (item_for_type ir decl_id)
      type_name ← cpp_type_name_for_item syntax fuel item ir
      ok (const_fragment is_const ++ type_name)
    format_cpp_type_inner (cc_type (some name) is_const type_args decl_id) references_ok =
        elim (cpp_name name) [
          | pointer_name n ↦ format_pointee type_args references_ok >>= λ nested.
              ok (pointer_tokens references_ok n is_const nested)
          | function_name abi ↦ function_tokens abi (format_cpp_types type_args)
          | plain_name n ↦ plain_tokens syntax n is_const type_args
        ]

    -- The only type argument of a pointer.
    pub format_pointee : CcTypes → Bool → Result CppError TokenStream
    format_pointee (more_cc_types ty no_cc_types) references_ok =
        format_cpp_type_inner ty references_ok
    format_pointee no_cc_types references_ok = err invalid_pointer
    format_pointee (more_cc_types ty (more_cc_types _ _)) references_ok = err invalid_pointer

    -- The parts of a function type, in which references are kept.
    pub format_cpp_types : CcTypes → List (Result CppError TokenStream)
    format_cpp_types no_cc_types = []
    format_cpp_types (more_cc_types ty tys) = format_cpp_type_inner ty true ∷ format_cpp_types tys

  unfoldable pub format_cpp_type : CcType → Result CppError TokenStream
  unfolding format_cpp_type_inner
  format_cpp_type ty = format_cpp_type_inner ty false
