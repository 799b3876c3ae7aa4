-- ===== src/RsSnippet/Construct.antt =====
-- How rs_snippet.rs and `new_type_alias` of lib.rs construct types. The query `db.rs_type_kind` is
-- a parameter, and so is the derived equality of template arguments.
use crubit4rust.Base.{
  if◌then◌else◌, length, nat_eq, string_eq, Result, err, ok, ◌>>=◌, int_eq, ℕ, String, Bool, false,
  ◌&&◌, Option, none, some, List, [], ◌∷◌,
}
use crubit4rust.CodeGen.{Token, Syntax, NamespaceQualifier}
use crubit4rust.Errors.{Error}
use crubit4rust.Ir.{
  Ir, Failure, Record, Enum, TypeAlias, TypeMapOverride, MappedType, RsType, cc_type, TemplateArg,
  TemplateSpecialization, record_item, enum_item, type_alias_item, Item, BazelLabel,
  namespace_qualifier, rs_imported_crate_name, crate_root_path, CcType,
}
use crubit4rust.RsSnippet.Kinds.{
  const_, mut_, CratePath, RsTypeKind, pointer, record_type, enum_type, alias_type, slice,
  bridge_type, other_type, no_kinds, KnownGeneric, not_generic, generic, collected,
}

-- Why a type is not constructed: a failure of the IR, an error of the query, or one found here.
pub data KindError : Type 0 where
  ir_failure : Failure → KindError
  query_error : Error → KindError
  no_bridge_type_info : Record → KindError
  slice_parameters : ℕ → KindError

abbrev pub from_ir : {A : Type 0} → Result Failure A → Result KindError A
from_ir (ok a) = ok a
from_ir (err failure) = err (ir_failure failure)

abbrev pub from_query : {A : Type 0} → Result Error A → Result KindError A
from_query (ok a) = ok a
from_query (err error) = err (query_error error)

-- `NamespaceQualifier::new(ir.crate_root_path())`
abbrev pub root_qualifier : Option String → NamespaceQualifier
root_qualifier none = record { names = [] }
root_qualifier (some name) = record { names = name ∷ [] }

-- `CratePath::new`
unfoldable pub new_crate_path :
    {Features : Type 0} → Ir Features → NamespaceQualifier → Option Token → CratePath
new_crate_path ir qualifier crate_ident = record {
  crate_ident = crate_ident;
  crate_root_path = root_qualifier (crate_root_path ir);
  namespace_qualifier = qualifier;
}

unfoldable pub new_bridge_type : Record → Result KindError RsTypeKind
new_bridge_type original_record = elim original_record.bridge_type_info [
  | some info ↦ ok (
      bridge_type info.bridge_type info.cpp_to_rust_converter info.rust_to_cpp_converter
        original_record)
  | none ↦ err (no_bridge_type_info original_record)
]

abbrev pub cc_is_const : CcType → Bool
cc_is_const (cc_type _ is_const _ _) = is_const

module _ (rs_type_kind : RsType → Result Error RsTypeKind)
    (same_arg : TemplateArg → TemplateArg → Bool) where
  -- `&[]` for the parameters of the override.
  unfoldable pub slice_of : List MappedType → Result KindError RsTypeKind
  slice_of (mapped_slice_type ∷ []) = do
    t ← from_query (rs_type_kind mapped_slice_type.rs_type)
    ok (pointer (slice t) (if cc_is_const mapped_slice_type.cpp_type then const_ else mut_))
  slice_of type_parameters = err (slice_parameters (length type_parameters))

  unfoldable pub new_type_map_override : TypeMapOverride → Result KindError RsTypeKind
  unfolding slice_of
  new_type_map_override o =
      if string_eq.beq o.rs_name "&[]"
      then slice_of o.type_parameters
      else ok (other_type o.rs_name no_kinds o.is_same_abi)

  -- The loop over the template arguments; `none` when one of them is no type.
  unfoldable pub arg_kinds : List TemplateArg → Option (List RsTypeKind)
  arg_kinds [] = some []
  arg_kinds (arg ∷ args) = elim arg.type_ [
    | err _ ↦ none
    | ok arg_type ↦ elim (rs_type_kind arg_type.rs_type) [
      | err _ ↦ none
      | ok t ↦ elim (arg_kinds args) [ none ↦ none | some ts ↦ some (t ∷ ts) ]
    ]
  ]

  -- Is this the default deleter of the pointer's type?
  unfoldable pub is_default_deleter : TemplateSpecialization → TemplateSpecialization → Bool
  is_default_deleter deleter pointer_ =
      string_eq.beq deleter.template_name "std::default_delete" && elim deleter.template_args [
        | [] ↦ false
        | arg ∷ more ↦ elim more [
          | _ ∷ _ ↦ false
          | [] ↦ elim pointer_.template_args [ [] ↦ false | first ∷ _ ↦ same_arg arg first ]
        ]
      ]

  -- The name of the generic type, for the template and its arguments.
  unfoldable pub rust_generic_name : TemplateSpecialization → List RsTypeKind → Option String
  unfolding is_default_deleter
  rust_generic_name template (_ ∷ record_type r _ _ ∷ []) =
      if string_eq.beq template.template_name "std::unique_ptr"
      then elim r.template_specialization [
        | none ↦ none
        | some deleter ↦
            if is_default_deleter deleter template then some "cc_std::std::unique_ptr" else none
      ]
      else none
  rust_generic_name template _ = none

  unfoldable pub map_to_supported_generic : Option TemplateSpecialization → KnownGeneric
  unfolding arg_kinds rust_generic_name collected
  map_to_supported_generic none = not_generic
  map_to_supported_generic (some template) = elim (arg_kinds template.template_args) [
    | none ↦ not_generic
    | some type_args ↦ elim (rust_generic_name template type_args) [
      | none ↦ not_generic
      | some name ↦ generic template.template_name name (collected type_args)
    ]
  ]

  module _ (syntax : Syntax) (is_numeric : ℕ → Bool) {Features : Type 0} where
    -- The path of an item; the fuel is that of `namespace_qualifier`.
    unfoldable pub crate_path_of : ℕ → Ir Features → Item → BazelLabel → Result KindError CratePath
    unfolding namespace_qualifier rs_imported_crate_name new_crate_path
    crate_path_of fuel ir item owning_target = do
      qualifier ← from_ir (namespace_qualifier fuel ir item)
      crate_ident ← from_ir (rs_imported_crate_name syntax is_numeric owning_target ir)
      ok (new_crate_path ir qualifier crate_ident)

    unfoldable pub new_record : ℕ → Record → Ir Features → Result KindError RsTypeKind
    unfolding crate_path_of map_to_supported_generic
    new_record fuel r ir = do
      path ← crate_path_of fuel ir (record_item r) r.owning_target
      ok (record_type r path (map_to_supported_generic r.template_specialization))

    unfoldable pub new_enum : ℕ → Enum → Ir Features → Result KindError RsTypeKind
    unfolding crate_path_of
    new_enum fuel e ir = do
      path ← crate_path_of fuel ir (enum_item e) e.owning_target
      ok (enum_type e path)

    -- `new_type_alias` of lib.rs
    unfoldable pub new_type_alias : ℕ → TypeAlias → Ir Features → Result KindError RsTypeKind
    unfolding crate_path_of
    new_type_alias fuel alias ir = do
      underlying_type ← from_query (rs_type_kind alias.underlying_type.rs_type)
      path ← crate_path_of fuel ir (type_alias_item alias) alias.owning_target
      ok (alias_type alias underlying_type path)
