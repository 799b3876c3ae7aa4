-- ===== src/Bindings/Tests.antt =====
-- A namespace in a namespace, of a target that enables all features.
use crubit4rust.Base.{
  nat_eq, string_eq, ok, int_eq, find, ℕ, ◌≡◌, refl, ◌⊎◌, inr, Bool, true, false, Option, none,
  some, List, [], ◌∷◌,
}
use crubit4rust.CodeGen.Ascii.{ascii}
use crubit4rust.Errors.{other}
use crubit4rust.Features.{CrubitFeature, supported, experimental}
use crubit4rust.Features.Pair.{pairs}
use crubit4rust.Ir.{
  CcTypes, more_cc_types, no_cc_types, cc_type, RsType, rs_type, no_rs_types, more_rs_types, Ir,
  Item, Namespace, ItemId, namespace_item, find_untyped_decl, item_id, enclosing_item_id,
  target_crubit_features, unknown_attr, defining_target, owning_target, is_type_definition,
  debug_name,
}
use crubit4rust.RsSnippet.{primitive, i32, func_ptr, no_kinds, from_str, collected}
use crubit4rust.Bindings.Pointers.{format_cpp_type-is_pointer_name}
use crubit4rust.Bindings.Named.{Sound, rs_type_kind-Sound}
use crubit4rust.Bindings.{
  format_cpp_type, rs_type_kind, named_type, get_type_args, other_named, strip_prefix, func_ptr_of,
  get_type_lifetime, assert_static, split_last, all_c_abi_compatible, Generator, Required,
  item_targets, item_required_features, attribute_feature, kind_features, any_feature,
  require_any_feature, lacks_any, ◌and_then◌, has_bindings, missing_bindings, under_parent,
  own_bindings, yes,
}
use crubit4rust.Bindings.Parents.{Within, directly, has_bindings-Around}
use crubit4rust.Bindings.Enabled.{item_required_features-Enables}

abbrev namespace_at : ℕ → Option ItemId → Namespace
namespace_at id enclosing = record {
  name = record { identifier = "outer" };
  id = id;
  canonical_namespace_id = id;
  unknown_attr = some "a";
  owning_target = "//test:target";
  child_item_ids = [];
  enclosing_item_id = enclosing;
  is_inline = false;
}

abbrev outer : Item
outer = namespace_item (namespace_at 1 none)

abbrev inner : Item
inner = namespace_item (namespace_at 2 (some 1))

abbrev ir : Ir (Bool × Bool)
ir = record {
  flat_ir = record {
    public_headers = [];
    current_target = "//test:target";
    items = outer ∷ inner ∷ [];
    top_level_item_ids = 1 ∷ [];
    crate_root_path = none;
    crubit_features = ("//test:target", (true, true)) ∷ [];
  };
  item_id_to_item_idx = (1, 0) ∷ (2, 1) ∷ [];
  lifetimes = [];
  namespace_id_to_number_of_reopened_namespaces = [];
  reopened_namespace_id_to_idx = [];
  function_name_to_functions = [];
}

abbrev db : Generator pairs
db = record {
  ir = ir;
  display = λ t. "a type";
  less = λ s t. false;
  is_numeric = λ c. false;
  is_alphabetic = λ c. true;
  decimal = λ n. "0";
  rs_type_kind = λ t. ok (primitive i32);
  same_arg = λ a b. false;
  describe = λ e. other "an error";
  syntax = ascii;
}

program : Unit {0}
unfolding find find_untyped_decl item_id enclosing_item_id target_crubit_features unknown_attr
    defining_target owning_target is_type_definition debug_name item_targets item_required_features
    attribute_feature kind_features any_feature require_any_feature lacks_any ◌and_then◌
    has_bindings missing_bindings under_parent own_bindings
program = tt

inner_yes : has_bindings pairs db 2 inner ≡ ok yes
unfolding program
inner_yes = refl

inner-Within : Within ir inner outer
unfolding program
inner-Within = directly inner outer 1 refl refl

has_bindings-Around_example :
    ((less : ℕ) × (item_required_features pairs db less outer ≡ ok []))
    × ((outer ≡ inner) ⊎ ((less : ℕ) × (has_bindings pairs db less outer ≡ ok yes)))
has_bindings-Around_example =
    has_bindings-Around pairs db 2 inner outer yes (inr inner-Within) inner_yes refl

all_enabled :
    (f : CrubitFeature)
    → pairs.contains (target_crubit_features pairs.default ir "//test:target") f ≡ true
unfolding program
all_enabled supported = refl
all_enabled experimental = refl

nothing_missing : item_required_features pairs db 1 outer ≡ ok []
unfolding program
nothing_missing = refl

item_required_features-Enables_example : ◌≡◌ {A = List (Required (Bool × Bool))} [] []
unfolding program
item_required_features-Enables_example =
    item_required_features-Enables pairs db 1 outer [] (all_enabled, tt) nothing_missing

abbrev int_type : RsType
int_type = rs_type (some "i32") [] no_rs_types none none

abbrev callback : RsType
callback = rs_type (some "#funcPtr C") [] (more_rs_types int_type no_rs_types) none none

callback_kind : rs_type_kind pairs db 1 callback ≡ ok (func_ptr "C" (primitive i32) no_kinds)
unfolding program rs_type_kind named_type get_type_args other_named strip_prefix from_str
    func_ptr_of get_type_lifetime assert_static split_last all_c_abi_compatible collected
callback_kind = refl

rs_type_kind-Sound_example : Sound (func_ptr "C" (primitive i32) no_kinds)
rs_type_kind-Sound_example =
    rs_type_kind-Sound pairs db 1 "#funcPtr C" [] (more_rs_types int_type no_rs_types) none none
      (func_ptr "C" (primitive i32) no_kinds) callback_kind

abbrev int_args : CcTypes
int_args = more_cc_types (cc_type (some "int") true no_cc_types none) no_cc_types

format_cpp_type-is_pointer_name_example :
    format_cpp_type ascii 1 ir (cc_type (some "&&") false int_args none)
    ≡ format_cpp_type ascii 1 ir (cc_type (some "*") false int_args none)
format_cpp_type-is_pointer_name_example =
    format_cpp_type-is_pointer_name ascii 1 ir "&&" "*" false int_args none refl refl
