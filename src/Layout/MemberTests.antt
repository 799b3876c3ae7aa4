-- ===== src/Layout/MemberTests.antt =====
-- A class with a function `g` whose bases have functions `f`, `f`, `g` and `h`.
use crubit4rust.Base.{
  nat_eq, string_eq, ok, int_eq, find, put, ℕ, String, ◌≡◌, refl, Bool, true, false, none, some,
  List, [], ◌∷◌,
}
use crubit4rust.Ir.{
  Ir, Func, Record, rs_type, cc_type, no_rs_types, no_cc_types, identifier, func_item, record_item,
  trivial, struct_type, name_eq, find_untyped_decl,
}
use crubit4rust.Layout.{
  collect_unqualified_member_functions, member_functions_from, unqualified_function,
  filter_out_ambiguous_member_functions, count_functions, count_function, counted_once,
  sorted_by_key, sorted_by_name, insert_by_name, is_inherited,
}

abbrev function : String → ℕ → Func
function name id = record {
  name = identifier (record { identifier = name });
  owning_target = "//test:target";
  mangled_name = name;
  doc_comment = none;
  return_type = record {
    rs_type = rs_type (some "()") [] no_rs_types none none;
    cpp_type = cc_type (some "void") false no_cc_types none;
  };
  params = [];
  lifetime_params = [];
  is_inline = false;
  member_func_metadata = none;
  is_extern_c = false;
  is_noreturn = false;
  nodiscard = none;
  deprecated = none;
  unknown_attr = none;
  has_c_calling_convention = true;
  is_member_or_descendant_of_class_template = false;
  source_loc = "test.h:2";
  id = id;
  enclosing_item_id = some 1;
  adl_enclosing_record = none;
}

abbrev derived_class : Record
derived_class = record {
  rs_name = "Derived";
  cc_name = "Derived";
  cc_preferred_name = "Derived";
  mangled_cc_name = "7Derived";
  id = 1;
  owning_target = "//test:target";
  defining_target = none;
  template_specialization = none;
  unknown_attr = none;
  doc_comment = none;
  bridge_type_info = none;
  source_loc = "test.h:1";
  unambiguous_public_bases = [];
  fields = [];
  lifetime_params = [];
  size_align = record { size = 1; alignment = 1 };
  is_derived_class = true;
  override_alignment = false;
  copy_constructor = trivial;
  move_constructor = trivial;
  destructor = trivial;
  is_trivial_abi = true;
  is_inheritable = false;
  is_abstract = false;
  record_type = struct_type;
  is_aggregate = false;
  is_anon_record_with_typedef = false;
  child_item_ids = 2 ∷ [];
  enclosing_item_id = none;
}

abbrev ir : Ir (Unit {0})
ir = record {
  flat_ir = record {
    public_headers = [];
    current_target = "//test:target";
    items = record_item derived_class ∷ func_item (function "g" 2) ∷ [];
    top_level_item_ids = 1 ∷ [];
    crate_root_path = none;
    crubit_features = [];
  };
  item_id_to_item_idx = (1, 0) ∷ (2, 1) ∷ [];
  lifetimes = [];
  namespace_id_to_number_of_reopened_namespaces = [];
  reopened_namespace_id_to_idx = [];
  function_name_to_functions = [];
}

abbrev of_bases : List Func
of_bases = function "f" 3 ∷ function "h" 4 ∷ function "g" 5 ∷ function "f" 6 ∷ []

abbrev every : Func → Bool
every f = true

abbrev as_found : String → String → Bool
as_found s t = false

program : Unit {0}
unfolding find put find_untyped_decl collect_unqualified_member_functions member_functions_from
    unqualified_function filter_out_ambiguous_member_functions count_functions count_function
    counted_once sorted_by_name insert_by_name is_inherited sorted_by_key
program = tt

only_h :
    filter_out_ambiguous_member_functions every as_found ir derived_class of_bases
    ≡ ok (function "h" 4 ∷ [])
unfolding program
only_h = refl
