-- ===== src/RsSnippet/Required.antt =====
-- `RsTypeKind::required_crubit_features` of rs_snippet.rs. The text of a type (`Display`) and the
-- order of texts are parameters; a `BTreeSet` of texts is a sorted list.
use Prim.Native.String.{◌++◌ as str_append}
use crubit4rust.Base.{
  if◌then◌else◌, nat_eq, string_eq, contains, int_eq, String, Bool, true, false, not, ◌&&◌, Option,
  none, some, List, [], ◌∷◌,
}
use crubit4rust.Features.{FlagSets, CrubitFeature, supported, experimental}
use crubit4rust.Ir.{Record}
use crubit4rust.RsSnippet.Kinds.{
  TypeLocation, fn_return, fn_param, elsewhere, RsTypeKind, pointer, reference, rvalue_reference,
  func_ptr, incomplete_type, record_type, enum_type, alias_type, primitive, slice, nullable,
  bridge_type, other_type,
}
use crubit4rust.RsSnippet.Queries.{type_is_unpin}
use crubit4rust.RsSnippet.Visit.{dfs_iter}

-- `TEMPLATE_INSTANTIATION_ALLOWLIST`
abbrev pub template_instantiation_allowlist : List String
template_instantiation_allowlist = "std::string_view" ∷ "std::wstring_view" ∷ []

-- `matches!(type_location, FnReturn | FnParam)`
abbrev pub is_by_value : TypeLocation → Bool
is_by_value fn_return = true
is_by_value fn_param = true
is_by_value elsewhere = false

-- `BTreeSet::insert`
unfoldable pub insert_text : (String → String → Bool) → String → List String → List String
insert_text less s [] = s ∷ []
insert_text less s (t ∷ ts) =
    if string_eq.beq s t then t ∷ ts else if less s t then s ∷ t ∷ ts else t ∷ insert_text less s ts

-- `join(", ")`
unfoldable pub joined : List String → String
joined [] = ""
joined (s ∷ []) = s
joined (s ∷ t ∷ ts) = str_append s (str_append ", " (joined (t ∷ ts)))

module _ (flags : FlagSets) (display : RsTypeKind → String) (less : String → String → Bool) where
  open flags use {FlagSet, default, from, union, difference, is_empty}

  -- `missing_features` and `reasons`
  abbrev pub Missing : Type 0
  Missing = FlagSet × List String

  -- The closure `require_feature`.
  unfoldable pub require_feature : FlagSet → CrubitFeature → Option String → Missing → Missing
  unfolding insert_text
  require_feature enabled required reason (missing_features, reasons) =
      let missing = difference (from required) enabled in
      if is_empty missing then (missing_features, reasons) else (
        union missing_features missing,
        elim reason [ none ↦ reasons | some text ↦ insert_text less text reasons ],
      )

  -- The arm for a record.
  unfoldable pub require_record : FlagSet → RsTypeKind → Record → Missing → Missing
  unfolding require_feature
  require_record enabled t r missing = elim r.defining_target [
    | none ↦ require_feature enabled supported none missing
    | some _ ↦
        if contains template_instantiation_allowlist r.cc_preferred_name
        then require_feature enabled supported none missing
        else require_feature enabled experimental
            (some (str_append (display t) " is a template instantiation")) missing
  ]

  -- The body of the loop.
  unfoldable pub require_type : FlagSet → RsTypeKind → Missing → Missing
  unfolding require_feature require_record
  require_type enabled (pointer t m) missing = require_feature enabled supported none missing
  require_type enabled (reference t m l) missing =
      require_feature enabled experimental (some "references are not supported") missing
  require_type enabled (rvalue_reference t m l) missing =
      require_feature enabled experimental (some "references are not supported") missing
  require_type enabled (func_ptr abi t ts) missing =
      if string_eq.beq abi "C"
      then require_feature enabled supported none missing
      else require_feature enabled experimental
          (some "functions must be not use a non-C calling convention") missing
  require_type enabled (incomplete_type r path) missing =
      require_feature enabled experimental
        (some (str_append (display (incomplete_type r path)) " is not a complete type)")) missing
  require_type enabled (record_type r path known) missing =
      require_record enabled (record_type r path known) r missing
  require_type enabled (enum_type e path) missing = require_feature enabled supported none missing
  require_type enabled (alias_type a t path) missing =
      require_feature enabled supported none missing
  require_type enabled (primitive p) missing = require_feature enabled supported none missing
  require_type enabled (slice t) missing = require_feature enabled supported none missing
  require_type enabled (nullable t) missing = require_feature enabled supported none missing
  require_type enabled (bridge_type a b c r) missing =
      require_feature enabled experimental none missing
  require_type enabled (other_type name ts abi) missing =
      require_feature enabled experimental none missing

  -- The loop over the types that the iterator yields.
  unfoldable pub require_all : FlagSet → List RsTypeKind → Missing → Missing
  unfolding require_type
  require_all enabled [] missing = missing
  require_all enabled (t ∷ ts) missing = require_all enabled ts (require_type enabled t missing)

  -- The state before the loop.
  unfoldable pub require_movable : FlagSet → TypeLocation → RsTypeKind → Missing
  unfolding type_is_unpin require_feature
  require_movable enabled type_location t =
      if not (type_is_unpin t) && is_by_value type_location
      then require_feature enabled experimental
          (some (
            str_append "<internal link>_relocatable_error: "
              (str_append (display t) " is not rust-movable")))
          (default, [])
      else (default, [])

  -- `RsTypeKind::required_crubit_features`
  unfoldable pub required_crubit_features : FlagSet → TypeLocation → RsTypeKind → FlagSet × String
  unfolding dfs_iter require_movable require_all joined
  required_crubit_features enabled type_location t =
      let (missing_features, reasons) =
        require_all enabled (dfs_iter t) (require_movable enabled type_location t) in
      (missing_features, joined reasons)
