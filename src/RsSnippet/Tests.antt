-- ===== src/RsSnippet/Tests.antt =====
-- Types of a small API, on which the theorems about rs_snippet.rs are used.
use crubit4rust.Base.{
  ◌==◌, nat_eq, string_eq, contains, int_eq, ◌+◌, String, ◌≡◌, refl, ◌↔◌, Bool, true, false, not,
  ◌&&◌, ◌||◌, Option, none, some, [], ◌∷◌,
}
use crubit4rust.CodeGen.{TokenStream, ident, punct}
use crubit4rust.CodeGen.Ascii.{ascii}
use crubit4rust.Features.{experimental}
use crubit4rust.Features.Pair.{pairs}
use crubit4rust.Ir.{is_union, Record, trivial, struct_type}
use crubit4rust.CodeGen.{make_rs_ident, format_for_rs, rs_path}
use crubit4rust.RsSnippet.{
  ◌⊕◌, reference_tokens, lifetime_for_reference, format_for_reference, format_for_pointer,
  crate_path_tokens, path_and_ident, as_stream, format_generic_params, in_angles, named_lifetimes,
  lifetimes_as_tokens, joined_by_commas, func_ptr_tokens, return_fragment, any_unsafe, is_unsafe,
  format_as_return_type_fragment, const_, mut_, CratePath, i32, c_int, fn_param, RsTypeKind,
  pointer, reference, func_ptr, record_type, primitive, nullable, no_kinds, more_kinds, not_generic,
  from_str, primitive_tokens, dfs_iter, yielded, count, required_crubit_features, to_token_stream,
  to_token_stream_replacing_by_self, generate_derives, should_implement_drop, implements_copy,
  type_is_unpin, type_check_by_value, is_ok, next, push_parts, extend,
}
use crubit4rust.RsSnippet.Order.{preorder, yielded-dfs_iter}
use crubit4rust.RsSnippet.Missing.{needs, required_crubit_features-needs}
use crubit4rust.RsSnippet.Replaced.{mentions, to_token_stream_replacing_by_self-mentions}
use crubit4rust.RsSnippet.Copies.{generate_derives-Copy, implements_copy-type_is_unpin}
use crubit4rust.RsSnippet.Spelling.{spelled, from_str_iff}

abbrev point : Record
point = record {
  rs_name = "Point";
  cc_name = "Point";
  cc_preferred_name = "Point";
  mangled_cc_name = "5Point";
  id = 7;
  owning_target = "//test:target";
  defining_target = none;
  template_specialization = none;
  unknown_attr = none;
  doc_comment = none;
  bridge_type_info = none;
  source_loc = "test.h:1";
  unambiguous_public_bases = [];
  fields = [];
  lifetime_params = [];
  size_align = record { size = 8; alignment = 4 };
  is_derived_class = false;
  override_alignment = false;
  copy_constructor = trivial;
  move_constructor = trivial;
  destructor = trivial;
  is_trivial_abi = true;
  is_inheritable = false;
  is_abstract = false;
  record_type = struct_type;
  is_aggregate = true;
  is_anon_record_with_typedef = false;
  child_item_ids = [];
  enclosing_item_id = none;
}

abbrev path : CratePath
path = record {
  crate_ident = none;
  crate_root_path = record { names = [] };
  namespace_qualifier = record { names = "geometry" ∷ [] };
}

abbrev point_type : RsTypeKind
point_type = record_type point path not_generic

-- `extern "C" fn(&Point, *mut i32) -> Option<Point>`
abbrev callback : RsTypeKind
callback = func_ptr "C" (nullable point_type) (
    more_kinds (reference point_type const_ "_")
      (more_kinds (pointer (primitive i32) mut_) no_kinds))

callback_order :
    dfs_iter callback
    ≡ callback
      ∷ reference point_type const_ "_"
      ∷ point_type
      ∷ pointer (primitive i32) mut_
      ∷ primitive i32
      ∷ nullable point_type
      ∷ point_type
      ∷ []
unfolding dfs_iter yielded next push_parts extend count
callback_order = refl

yielded-dfs_iter_example :
    (yielded (count callback + 2) (callback ∷ []) ≡ dfs_iter callback)
    × (dfs_iter callback ≡ preorder callback)
yielded-dfs_iter_example = yielded-dfs_iter callback 2

abbrev no_text : RsTypeKind → String
no_text t = "a type"

abbrev shorter : String → String → Bool
shorter s t = false

required_crubit_features-needs_example :
    pairs.contains
      (required_crubit_features pairs no_text shorter (true, false) fn_param callback).0
      experimental
    ≡ needs experimental fn_param callback && not (pairs.contains (true, false) experimental)
required_crubit_features-needs_example =
    required_crubit_features-needs pairs no_text shorter (true, false) fn_param callback
      experimental

-- `syn::Lifetime::new` on a name without characters that it refuses.
abbrev quoted : String → Option TokenStream
quoted name = some (punct "'" ∷ ident name ∷ [])

abbrev same_id : Record → Record → Bool
same_id a b = a.id == b.id

abbrev other_record : Record
other_record = record point { id = 8 }

callback_free : mentions ascii quoted same_id (some other_record) callback ≡ false
unfolding mentions
callback_free = refl

point_type_copy : implements_copy (nullable point_type) ≡ true
unfolding implements_copy
point_type_copy = refl

to_token_stream_replacing_by_self-mentions_example :
    to_token_stream_replacing_by_self ascii quoted same_id (some other_record) callback
    ≡ to_token_stream ascii quoted same_id callback
to_token_stream_replacing_by_self-mentions_example =
    to_token_stream_replacing_by_self-mentions ascii quoted same_id (some other_record) callback
      callback_free

generate_derives-Copy_example :
    (contains (generate_derives point) "Copy"
        && (not (contains (generate_derives point) "Clone") || should_implement_drop point)
      ≡ false)
    × (is_union point
          && (contains (generate_derives point) "Clone"
              && not (contains (generate_derives point) "Copy"))
        ≡ false)
generate_derives-Copy_example = generate_derives-Copy point

implements_copy-type_is_unpin_example :
    (type_is_unpin (nullable point_type) ≡ true)
    × (is_ok (type_check_by_value (nullable point_type)) ≡ true)
implements_copy-type_is_unpin_example =
    implements_copy-type_is_unpin (nullable point_type) point_type_copy

from_str_iff_example :
    (from_str "::core::ffi::c_int" ≡ some c_int)
    ↔ ("::core::ffi::c_int" ≡ spelled (primitive_tokens c_int))
from_str_iff_example = from_str_iff "::core::ffi::c_int" c_int refl

printers : Unit {0}
unfolding ◌⊕◌ to_token_stream reference_tokens lifetime_for_reference format_for_reference
    format_for_pointer crate_path_tokens path_and_ident as_stream make_rs_ident format_for_rs
    rs_path format_generic_params in_angles named_lifetimes lifetimes_as_tokens joined_by_commas
    type_is_unpin primitive_tokens func_ptr_tokens return_fragment any_unsafe is_unsafe
    format_as_return_type_fragment
printers = tt

-- `format_generic_params` with types, and with lifetimes of which one is elided.
generic_types :
    format_generic_params ascii quoted [] (some (ident "T1" ∷ []) ∷ some (ident "T2" ∷ []) ∷ [])
    ≡ some (punct "<" ∷ ident "T1" ∷ punct "," ∷ ident "T2" ∷ punct ">" ∷ [])
unfolding printers
generic_types = refl

generic_lifetimes :
    format_generic_params ascii quoted ("a" ∷ "b" ∷ "_" ∷ []) []
    ≡ some (punct "<" ∷ punct "'" ∷ ident "a" ∷ punct "," ∷ punct "'" ∷ ident "b" ∷ punct ">" ∷ [])
unfolding printers
generic_lifetimes = refl

-- A mutable reference to a type that is not `Unpin` is pinned, one to a type that is, is not.
pinned :
    to_token_stream ascii quoted same_id
      (reference (record_type (record point { is_trivial_abi = false }) path not_generic) mut_ "_")
    ≡ some (
        punct "::"
        ∷ ident "core"
        ∷ punct "::"
        ∷ ident "pin"
        ∷ punct "::"
        ∷ ident "Pin"
        ∷ punct "<"
        ∷ punct "&"
        ∷ ident "mut"
        ∷ ident "crate"
        ∷ punct "::"
        ∷ ident "geometry"
        ∷ punct "::"
        ∷ ident "Point"
        ∷ punct ">"
        ∷ [])
unfolding printers
pinned = refl

unpinned :
    to_token_stream ascii quoted same_id (reference (primitive i32) mut_ "a")
    ≡ some (punct "&" ∷ punct "'" ∷ ident "a" ∷ ident "mut" ∷ ident "i32" ∷ [])
unfolding printers
unpinned = refl
