-- ===== src/Functions/Tests.antt =====
-- A C function that Rust calls without a thunk, and functions that need one.
use crubit4rust.Base.{
  ◌==◌, nat_eq, string_eq, Result, ok, int_eq, ℕ, String, ◌≡◌, refl, Bool, true, false, Option,
  none, some, [], ◌∷◌,
}
use crubit4rust.CodeGen.{TokenStream, ident, punct}
use crubit4rust.Errors.{Error}
use crubit4rust.Ir.{
  Record, trivial, struct_type, Func, MappedType, RsType, rs_type, cc_type, no_rs_types,
  no_cc_types, identifier,
}
use crubit4rust.RsSnippet.{
  more_kinds, CratePath, record_type, not_generic, RsTypeKind, primitive, i32, no_kinds, other_type,
}
use crubit4rust.Functions.{
  partial_eq, TraitName, can_skip_cc_thunk, params_compatible, needs_pointer, is_virtual_method,
  impl_is_unsafe, no_impl,
}

abbrev int_type : MappedType
int_type = record {
  rs_type = rs_type (some "::core::ffi::c_int") [] no_rs_types none none;
  cpp_type = cc_type (some "int") false no_cc_types none;
}

abbrev function : Bool → Bool → Func
function inline c_call = record {
  name = identifier (record { identifier = "f" });
  owning_target = "//test:target";
  mangled_name = "f";
  doc_comment = none;
  return_type = int_type;
  params =
      record { type_ = int_type; identifier = record { identifier = "x" }; unknown_attr = none }
      ∷ [];
  lifetime_params = [];
  is_inline = inline;
  member_func_metadata = none;
  is_extern_c = true;
  is_noreturn = false;
  nodiscard = none;
  deprecated = none;
  unknown_attr = none;
  has_c_calling_convention = c_call;
  is_member_or_descendant_of_class_template = false;
  source_loc = "test.h:2";
  id = 3;
  enclosing_item_id = none;
  adl_enclosing_record = none;
}

abbrev always : RsTypeKind → RsType → Result Error RsTypeKind
always t _ = ok t

c_function : can_skip_cc_thunk (always (primitive i32)) (function false true) ≡ true
unfolding can_skip_cc_thunk params_compatible needs_pointer is_virtual_method
c_function = refl

inline_function : can_skip_cc_thunk (always (primitive i32)) (function true true) ≡ false
unfolding can_skip_cc_thunk params_compatible needs_pointer is_virtual_method
inline_function = refl

other_convention : can_skip_cc_thunk (always (primitive i32)) (function false false) ≡ false
unfolding can_skip_cc_thunk params_compatible needs_pointer is_virtual_method
other_convention = refl

other_abi : can_skip_cc_thunk (always (other_type "X" no_kinds false)) (function false true) ≡ false
unfolding can_skip_cc_thunk params_compatible needs_pointer is_virtual_method
other_abi = refl

unsafe_function : impl_is_unsafe (no_impl true) ≡ true
unfolding impl_is_unsafe
unsafe_function = refl

abbrev struct_called : String → ℕ → Record
struct_called name id = record {
  rs_name = name;
  cc_name = name;
  cc_preferred_name = name;
  mangled_cc_name = name;
  id = id;
  owning_target = "//test:target";
  defining_target = none;
  template_specialization = none;
  unknown_attr = none;
  doc_comment = none;
  bridge_type_info = none;
  source_loc = "test.h:1";
  unambiguous_public_bases = [];
  fields = [];
  lifetime_params = [];
  size_align = record { size = 8; alignment = 4 };
  is_derived_class = false;
  override_alignment = false;
  copy_constructor = trivial;
  move_constructor = trivial;
  destructor = trivial;
  is_trivial_abi = true;
  is_inheritable = false;
  is_abstract = false;
  record_type = struct_type;
  is_aggregate = true;
  is_anon_record_with_typedef = false;
  child_item_ids = [];
  enclosing_item_id = none;
}

abbrev path : CratePath
path = record {
  crate_ident = none;
  crate_root_path = record { names = [] };
  namespace_qualifier = record { names = "geometry" ∷ [] };
}

abbrev quoted : String → Option TokenStream
quoted name = some (punct "'" ∷ ident name ∷ [])

abbrev same_id : Record → Record → Bool
same_id a b = a.id == b.id

-- `PartialEq<Size>`, for another record than `Size`.
abbrev equals_size : TraitName
equals_size =
    partial_eq (more_kinds (record_type (struct_called "Size" 2) path not_generic) no_kinds)
