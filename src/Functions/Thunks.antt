-- ===== src/Functions/Thunks.antt =====
-- generate_func.rs: whether Rust can call a C++ function without a thunk, and whether
-- argument-dependent lookup finds a friend function. `same_record` is `ptr::eq` of two records.
use crubit4rust.Base.{
  if◌then◌else◌, any, nat_eq, string_eq, Result, err, ok, int_eq, Bool, true, false, not, Option,
  none, some, List, [], ◌∷◌,
}
use crubit4rust.Errors.{Error}
use crubit4rust.Ir.{Func, FuncParam, MemberFuncMetadata, RsType, Record}
use crubit4rust.RsSnippet.{
  RsTypeKind, record_type, reference, rvalue_reference, is_c_abi_compatible_by_value,
}

unfoldable pub is_virtual_method : Option MemberFuncMetadata → Bool
is_virtual_method none = false
is_virtual_method (some meta) = elim meta.instance_method_metadata [
  | none ↦ false
  | some inst_meta ↦ inst_meta.is_virtual
]

-- Is the result known to be passed in another way than by value in the C ABI?
unfoldable pub needs_pointer : Result Error RsTypeKind → Bool
unfolding is_c_abi_compatible_by_value
needs_pointer (err _) = false
needs_pointer (ok t) = not (is_c_abi_compatible_by_value t)

module _ (rs_type_kind : RsType → Result Error RsTypeKind) where
  unfoldable pub params_compatible : List FuncParam → Bool
  unfolding needs_pointer
  params_compatible [] = true
  params_compatible (param ∷ params) =
      if needs_pointer (rs_type_kind param.type_.rs_type) then false else params_compatible params

  unfoldable pub can_skip_cc_thunk : Func → Bool
  unfolding is_virtual_method needs_pointer params_compatible
  can_skip_cc_thunk func =
      if func.is_inline
      then false
      else if func.is_member_or_descendant_of_class_template
      then false
      else if is_virtual_method func.member_func_metadata
      then false
      else if not func.has_c_calling_convention
      then false
      else if needs_pointer (rs_type_kind func.return_type.rs_type)
      then false
      else params_compatible func.params

module _ (same_record : Record → Record → Bool) where
  unfoldable pub adl_expands_to : Record → RsTypeKind → Bool
  adl_expands_to r (record_type nested_record _ _) = same_record r nested_record
  adl_expands_to r (reference referent_ _ _) = adl_expands_to r referent_
  adl_expands_to r (rvalue_reference referent_ _ _) = adl_expands_to r referent_
  adl_expands_to r _ = false

  unfoldable pub is_visible_by_adl : Record → List RsTypeKind → Bool
  unfolding adl_expands_to
  is_visible_by_adl enclosing_record param_types =
      any (λ t. adl_expands_to enclosing_record t) param_types
