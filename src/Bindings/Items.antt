-- ===== src/Bindings/Items.antt =====
-- lib.rs of generate_bindings: the body of `required_crubit_features`, for each item.
use Prim.Native.String.{◌++◌ as str_append}
use crubit4rust.Base.{
  if◌then◌else◌, nat_eq, string_eq, Result, ok, ◌>>=◌, int_eq, ℕ, ◌+◌, String, Bool, true, false,
  not, Option, none, some, List, [], ◌∷◌, ◌++◌,
}
use crubit4rust.Features.{FlagSets, supported, experimental}
use crubit4rust.Ir.{
  Item, func_item, incomplete_record_item, record_item, enum_item, type_alias_item,
  unsupported_item, comment_item, namespace_item, use_mod_item, type_map_override_item, Func,
  FuncParam, unknown_attr,
}
use crubit4rust.RsSnippet.{fn_return, fn_param, elsewhere, new_record, new_enum, new_type_alias}
use crubit4rust.Bindings.Missing.{
  Stop, Required, is_destructor, or_error, Generator, or_stop, any_feature, type_feature,
  feature_if,
}

abbrev pub is_some {ℓ} : {A : Type ℓ} → Option A → Bool
is_some none = false
is_some (some _) = true

-- One list of requirements after another, unless one of them stops.
infixr 5 ◌and_then◌
unfoldable pub ◌and_then◌ :
    {R : Type 0} → Result Stop (List R) → Result Stop (List R) → Result Stop (List R)
a and_then b = a >>= λ xs. b >>= λ ys. ok (xs ++ ys)

module _ (flags : FlagSets) (db : Generator flags) where
  open flags use {FlagSet}

  -- The requirement of an unknown attribute.
  unfoldable pub attribute_feature :
      ℕ → Item → String → Option String → Result Stop (List (Required FlagSet))
  unfolding any_feature
  attribute_feature fuel item prefix none = ok []
  attribute_feature fuel item prefix (some attr) =
      any_feature flags db fuel item experimental (str_append prefix attr)

  -- The loop over the types of the parameters, from the parameter `i` on.
  unfoldable pub param_types_features :
      ℕ → Item → ℕ → List FuncParam → Result Stop (List (Required FlagSet))
  unfolding type_feature ◌and_then◌
  param_types_features fuel item i [] = ok []
  param_types_features fuel item i (param ∷ params) =
      or_error (db.rs_type_kind param.type_.rs_type) >>= λ t.
      type_feature flags db fuel item t fn_param (
        str_append "the type of " (
          str_append param.identifier.identifier
            (str_append " (parameter #" (str_append (db.decimal i) ")"))))
      and_then param_types_features fuel item (i + 1) params

  -- The loop over the attributes of the parameters.
  unfoldable pub param_attributes_features :
      ℕ → Item → List FuncParam → Result Stop (List (Required FlagSet))
  unfolding attribute_feature ◌and_then◌
  param_attributes_features fuel item [] = ok []
  param_attributes_features fuel item (param ∷ params) =
      attribute_feature fuel item
        (str_append "param " (str_append param.identifier.identifier " has unknown attribute(s): "))
        param.unknown_attr
      and_then param_attributes_features fuel item params

  -- The arm for a function that is no destructor.
  unfoldable pub signature_features : ℕ → Item → Func → Result Stop (List (Required FlagSet))
  unfolding any_feature type_feature feature_if param_types_features param_attributes_features
      ◌and_then◌
  signature_features fuel item func =
      or_error (db.rs_type_kind func.return_type.rs_type) >>= λ return_type.
      type_feature flags db fuel item return_type fn_return "return type"
      and_then param_types_features fuel item 0 func.params
      and_then any_feature flags db fuel item supported
          (if func.is_extern_c then "extern \"C\" function" else "non-extern \"C\" function")
      and_then feature_if flags db (not func.has_c_calling_convention) fuel item
          "non-C calling convention"
      and_then feature_if flags db func.is_noreturn fuel item "[[noreturn]] attribute"
      and_then feature_if flags db (is_some func.nodiscard) fuel item "[[nodiscard]] attribute"
      and_then feature_if flags db (is_some func.deprecated) fuel item "[[deprecated]] attribute"
      and_then param_attributes_features fuel item func.params

  -- The match on the item.
  unfoldable pub kind_features : ℕ → Item → Result Stop (List (Required FlagSet))
  unfolding any_feature type_feature signature_features new_record new_enum new_type_alias
  kind_features fuel (unsupported_item x) = ok []
  kind_features fuel (func_item func) =
      if is_destructor func.name
      then any_feature flags db fuel (func_item func) supported "destructors"
      else signature_features fuel (func_item func) func
  kind_features fuel (record_item r) =
      or_stop flags db (new_record db.rs_type_kind db.same_arg db.syntax db.is_numeric fuel r db.ir)
      >>= λ t. type_feature flags db fuel (record_item r) t elsewhere ""
  kind_features fuel (type_alias_item alias) =
      or_stop flags db
        (new_type_alias db.rs_type_kind db.same_arg db.syntax db.is_numeric fuel alias db.ir)
      >>= λ t. type_feature flags db fuel (type_alias_item alias) t elsewhere ""
  kind_features fuel (enum_item e) =
      or_stop flags db (new_enum db.rs_type_kind db.same_arg db.syntax db.is_numeric fuel e db.ir)
      >>= λ t. type_feature flags db fuel (enum_item e) t elsewhere ""
  kind_features fuel (namespace_item x) =
      any_feature flags db fuel (namespace_item x) supported "namespace"
  kind_features fuel (incomplete_record_item x) =
      any_feature flags db fuel (incomplete_record_item x) experimental "incomplete type"
  kind_features fuel (comment_item x) = ok []
  kind_features fuel (use_mod_item x) = ok []
  kind_features fuel (type_map_override_item x) =
      any_feature flags db fuel (type_map_override_item x) experimental "type map override"

  -- `required_crubit_features` on an item
  unfoldable pub item_required_features : ℕ → Item → Result Stop (List (Required FlagSet))
  unfolding attribute_feature unknown_attr kind_features ◌and_then◌
  item_required_features fuel item =
      attribute_feature fuel item "unknown attribute(s): " (unknown_attr item)
      and_then kind_features fuel item
