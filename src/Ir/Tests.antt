-- ===== src/Ir/Tests.antt =====
-- An IR with a namespace that is opened twice and a function inside the second part.
use crubit4rust.Base.{
  ℕ, Bool, true, false, List, [], ◌∷◌, none, some, String, ok, find, put, filter_map, get_elem?,
  ◌≡◌, ◌↔◌, refl, arith, leb, ◌&&◌, All, ◌≤◌,
}
use crubit4rust.Ir.{
  Item, Namespace, Func, rs_type, cc_type, no_rs_types, no_cc_types, identifier, func_item,
  namespace_item, FlatIr, Ir, item_id, make_ir, check_ids, index_items, add_lifetimes,
  collect_lifetimes, lifetime_params, namespace_of, count_namespaces, group_functions,
  find_untyped_decl, get_reopened_namespace_idx, is_last_reopened_namespace, get_functions_by_name,
  functions, enclosing_item_id, enclosing_namespaces, namespace_qualifier, reversed,
}
use crubit4rust.Ir.Lookup.{has_id, IdsDiffer, find_untyped_decl_iff}
use crubit4rust.Ir.Returns.{all_lifetimes, LifetimesDiffer, make_ir_returns_iff}
use crubit4rust.Ir.Reopened.{reopened-openings}
use crubit4rust.Ir.Overloads.{named, get_functions_by_name-named}
use crubit4rust.Ir.Scopes.{Scope, namespace_qualifier_iff}
use crubit4rust.Ir.{
  split_once, rsplit_once, target_name, package_name, last_package_component, underscores,
  target_name_escaped, escape_byte, escape_bytes, convert_to_cc_identifier,
}
use crubit4rust.CodeGen.{hex_digit}
use crubit4rust.Ir.LabelNames.{
  IsIdentChar, NoDigitFirst, convert_to_cc_identifier_inj, target_name_escaped-IsIdentChar,
}

program : Unit {0}
unfolding find put filter_map make_ir check_ids item_id index_items add_lifetimes collect_lifetimes
    lifetime_params namespace_of count_namespaces group_functions find_untyped_decl
    get_reopened_namespace_idx is_last_reopened_namespace get_functions_by_name functions
    enclosing_item_id enclosing_namespaces namespace_qualifier reversed has_id
program = tt

abbrev opening : ℕ → Namespace
opening id = record {
  name = record { identifier = "outer" };
  id = id;
  canonical_namespace_id = 1;
  unknown_attr = none;
  owning_target = "//test:target";
  child_item_ids = [];
  enclosing_item_id = none;
  is_inline = false;
}

abbrev function : Func
function = record {
  name = identifier (record { identifier = "f" });
  owning_target = "//test:target";
  mangled_name = "_ZN5outer1fEv";
  doc_comment = none;
  return_type = record {
    rs_type = rs_type (some "()") [] no_rs_types none none;
    cpp_type = cc_type (some "void") false no_cc_types none;
  };
  params = [];
  lifetime_params = [];
  is_inline = false;
  member_func_metadata = none;
  is_extern_c = false;
  is_noreturn = false;
  nodiscard = none;
  deprecated = none;
  unknown_attr = none;
  has_c_calling_convention = true;
  is_member_or_descendant_of_class_template = false;
  source_loc = "test.h:2";
  id = 3;
  enclosing_item_id = some 2;
  adl_enclosing_record = none;
}

abbrev flat : FlatIr (Unit {0})
flat = record {
  public_headers = [];
  current_target = "//test:target";
  items = namespace_item (opening 1) ∷ namespace_item (opening 2) ∷ func_item function ∷ [];
  top_level_item_ids = 1 ∷ 2 ∷ [];
  crate_root_path = none;
  crubit_features = [];
}

abbrev ir : Ir (Unit {0})
ir = record {
  flat_ir = flat;
  item_id_to_item_idx = (1, 0) ∷ (2, 1) ∷ (3, 2) ∷ [];
  lifetimes = [];
  namespace_id_to_number_of_reopened_namespaces = (1, 2) ∷ [];
  reopened_namespace_id_to_idx = (1, 0) ∷ (2, 1) ∷ [];
  function_name_to_functions = (identifier (record { identifier = "f" }), function ∷ []) ∷ [];
}

made : make_ir flat ≡ ok ir
unfolding program
made = refl

find_untyped_decl_iff_example : (find_untyped_decl ir 2 ≡ ok (namespace_item (opening 2))) ↔ (
    (item_id (namespace_item (opening 2)) ≡ 2)
    × (i : ℕ) × (get_elem? flat.items i ≡ some (namespace_item (opening 2))))
unfolding item_id
find_untyped_decl_iff_example = find_untyped_decl_iff flat ir 2 (namespace_item (opening 2)) made

make_ir_returns_iff_example :
    ((r : Ir (Unit {0})) × (make_ir flat ≡ ok r))
    ↔ (IdsDiffer flat.items × LifetimesDiffer (all_lifetimes flat.items))
make_ir_returns_iff_example = make_ir_returns_iff flat

reopened-openings_example :
    (get_reopened_namespace_idx ir 2 ≡ ok 1) × (is_last_reopened_namespace ir 2 1 ≡ ok true)
unfolding program
reopened-openings_example = reopened-openings flat ir (opening 1 ∷ []) [] (opening 2) made refl

get_functions_by_name-named_example :
    get_functions_by_name ir (identifier (record { identifier = "f" }))
    ≡ named (identifier (record { identifier = "f" })) (functions ir)
get_functions_by_name-named_example =
    get_functions_by_name-named flat ir (identifier (record { identifier = "f" })) made

namespace_qualifier_iff_example :
    ((fuel : ℕ) × (namespace_qualifier fuel ir (func_item function)
        ≡ ok (record { names = "outer" ∷ [] })))
    ↔ ((found : Item) × (inner : List String) × (find_untyped_decl ir (item_id (func_item function))
          ≡ ok found)
        × (Scope ir (enclosing_item_id found) inner × ("outer" ∷ [] ≡ reversed inner)))
namespace_qualifier_iff_example =
    namespace_qualifier_iff ir (func_item function) (record { names = "outer" ∷ [] })

function_qualifier :
    namespace_qualifier 2 ir (func_item function) ≡ ok (record { names = "outer" ∷ [] })
unfolding program
function_qualifier = refl

abbrev digit : ℕ → Bool
digit c = leb b'0' c && leb c b'9'

label_program : Unit {0}
unfolding split_once rsplit_once target_name package_name last_package_component underscores
    target_name_escaped hex_digit escape_byte escape_bytes convert_to_cc_identifier
label_program = tt

-- `//foo:1-a`
abbrev label : List ℕ
label = b'/' ∷ b'/' ∷ b'f' ∷ b'o' ∷ b'o' ∷ b':' ∷ b'1' ∷ b'-' ∷ b'a' ∷ []

label_escaped_name : target_name_escaped digit label ≡ b'n' ∷ b'1' ∷ b'_' ∷ b'a' ∷ []
unfolding label_program
label_escaped_name = refl

-- `//foo` becomes `__2f_2ffoo`.
documented_label :
    convert_to_cc_identifier (b'/' ∷ b'/' ∷ b'f' ∷ b'o' ∷ b'o' ∷ [])
    ≡ b'_' ∷ b'_' ∷ b'2' ∷ b'f' ∷ b'_' ∷ b'2' ∷ b'f' ∷ b'f' ∷ b'o' ∷ b'o' ∷ []
unfolding label_program
documented_label = refl

convert_to_cc_identifier_inj_example : label ≡ label
convert_to_cc_identifier_inj_example =
    convert_to_cc_identifier_inj label label (omega arith) (omega arith) refl

digit_is_numeric : (c : ℕ) → b'0' ≤ c → c ≤ b'9' → digit c ≡ true
digit_is_numeric c low high = ground arith

target_name_escaped-IsIdentChar_example :
    All IsIdentChar (target_name_escaped digit label)
    × NoDigitFirst (target_name_escaped digit label)
target_name_escaped-IsIdentChar_example =
    target_name_escaped-IsIdentChar digit digit_is_numeric label
