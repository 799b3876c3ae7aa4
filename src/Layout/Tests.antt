-- ===== src/Layout/Tests.antt =====
-- A struct of an integer, two bit-fields, a private byte and an integer, and a struct whose first
-- field takes no space.
use text.Mathlib.TextLemmas.{append_assoc as text_append_assoc, cons-append, append_cancel_left}
use text.Mathlib.TextEquality.{eq_iff}
use Prim.Native.String.{◌++◌ as str_append}
use crubit4rust.Base.{
  if◌then◌else◌, Bool-cases, All, nat_eq, string_eq, contains, Result, err, ok, int_eq, ℕ, zero,
  suc, String, ◌≡◌, refl, ap, ◌∙◌, ◌≢◌, inl, inr, true, false, not, Option, none, some, List, [],
  ◌∷◌, arith,
}
use crubit4rust.CodeGen.{first_char, rust_2018_keywords, ident, Syntax, make_rs_ident}
use crubit4rust.Ir.{
  Field, Record, rs_type, cc_type, no_rs_types, no_cc_types, trivial, struct_type, public, private,
  MappedType, is_union,
}
use crubit4rust.RsSnippet.{RsTypeKind, primitive, i32}
use crubit4rust.Layout.{
  fields_with_bounds, each_field_bounds, field_bounds, field_end, coalesce, coalesce_from,
  merged_bounds, FieldDefinition, define_fields, field_definitions, define_field, assert_no_overlap,
  prev_end, end_offset, padding_size_in_bits, field_content, bit_padding, minus,
  make_rs_field_ident, head_padding, non_field_data, padding_name_of, rs_ident, definition_name,
  refused_name,
}
use crubit4rust.Layout.Entries.{FirstSized}
use crubit4rust.Layout.Positions.{rust_offsets, cc_offsets, WellLaid, LaidField, start_of, stop_of}
use crubit4rust.Layout.Names.{IsName, MadeUpNames, HasName}
use crubit4rust.Layout.Offsets.{field_definitions-rust_offsets}

abbrev int_type : MappedType
int_type = record {
  rs_type = rs_type (some "::core::ffi::c_int") [] no_rs_types none none;
  cpp_type = cc_type (some "int") false no_cc_types none;
}

abbrev field : String → ℕ → ℕ → Field
field name offset size = record {
  identifier = some (record { identifier = name });
  doc_comment = none;
  type_ = ok int_type;
  access = public;
  offset = offset;
  size = size;
  unknown_attr = none;
  is_no_unique_address = false;
  is_bitfield = false;
  is_inheritable = false;
}

abbrev struct_of : List Field → ℕ → Record
struct_of fields size = record {
  rs_name = "S";
  cc_name = "S";
  cc_preferred_name = "S";
  mangled_cc_name = "1S";
  id = 1;
  owning_target = "//test:target";
  defining_target = none;
  template_specialization = none;
  unknown_attr = none;
  doc_comment = none;
  bridge_type_info = none;
  source_loc = "test.h:1";
  unambiguous_public_bases = [];
  fields = fields;
  lifetime_params = [];
  size_align = record { size = size; alignment = 4 };
  is_derived_class = false;
  override_alignment = false;
  copy_constructor = trivial;
  move_constructor = trivial;
  destructor = trivial;
  is_trivial_abi = true;
  is_inheritable = false;
  is_abstract = false;
  record_type = struct_type;
  is_aggregate = true;
  is_anon_record_with_typedef = false;
  child_item_ids = [];
  enclosing_item_id = none;
}

-- Public fields are `i32`, the others have no type.
abbrev layout_type : Field → Result String RsTypeKind
layout_type f = elim f.access [ public ↦ ok (primitive i32) | _ ↦ err "a private field" ]

abbrev four : RsTypeKind → ℕ
four t = 4

abbrev bit_field : String → ℕ → ℕ → Field
bit_field name offset size = record (field name offset size) { is_bitfield = true }

-- An underscore is no identifier, with or without `r#`.
abbrev picky : Syntax
picky = record {
  is_xid_start = λ c. true;
  parses_as_ident = λ name. not (string_eq.beq name "_");
  format_ident = λ name. if string_eq.beq name "r#_" then none else some (ident name);
  parse_tokens = λ name. some (ident name ∷ []);
}

-- A number in unary.
abbrev strokes : ℕ → String
strokes zero = ""
strokes (suc n) = str_append "1" (strokes n)

abbrev mixed : Record
mixed =
    struct_of
      (field "x" 0 32
        ∷ bit_field "a" 32 3
        ∷ bit_field "b" 35 2
        ∷ record (field "c" 40 8) { access = private }
        ∷ field "y" 64 32
        ∷ [])
      12

program : Unit {0}
unfolding fields_with_bounds is_union each_field_bounds field_bounds field_end coalesce
    coalesce_from merged_bounds define_fields field_definitions define_field assert_no_overlap
    prev_end end_offset padding_size_in_bits field_content bit_padding minus make_rs_field_ident
    padding_name_of rs_ident definition_name make_rs_ident HasName head_padding non_field_data
    WellLaid LaidField rust_offsets cc_offsets start_of stop_of FirstSized
program = tt

mixed-FirstSized : FirstSized mixed.fields
unfolding program
mixed-FirstSized = λ h. ground arith

mixed-WellLaid :
    WellLaid four four layout_type 12 (head_padding mixed) (fields_with_bounds layout_type mixed)
unfolding program
mixed-WellLaid = (
  refl,
  omega arith,
  omega arith,
  (refl, refl),
  (
    refl,
    omega arith,
    omega arith,
    tt,
    (refl, omega arith, omega arith, tt, (refl, omega arith, omega arith, (refl, refl), tt)),
  ),
)

abbrev second_char : String → Option ℕ
second_char String.[] = none
second_char (String.◌∷◌ _ s) = first_char s

second_char-behind : (rest : String) → second_char (str_append "__" rest) ≡ some b'_'
second_char-behind rest =
    ap second_char (cons-append "_" "_" rest) ∙ ap first_char (cons-append "_" "" rest)

refused_by_second :
    (name other : String) → second_char name ≢ second_char other → string_eq.beq name other ≡ false
refused_by_second name other h = elim (Bool-cases (string_eq.beq name other)) [
  | inl same ↦ absurd (h (ap second_char ((eq_iff name other).0 same)))
  | inr different ↦ different
]

-- A name that begins with two underscores is accepted.
picky-IsName : (name : String) → second_char name ≡ some b'_' → IsName picky name
unfolding make_rs_ident
picky-IsName name e =
    let plain = refused_by_second name "_" (ground arith) in
    let raw = refused_by_second name "r#_" (ground arith) in
    let marked : string_eq.beq (str_append "r#" name) "r#_" ≡ false =
      elim (Bool-cases (string_eq.beq (str_append "r#" name) "r#_")) [
        | inl same ↦ absurd (
            ground (
              arith,
              ap second_char
                  (append_cancel_left "r#" name "_" ((eq_iff (str_append "r#" name) "r#_").0 same)),
            ))
        | inr different ↦ different
      ] in
    elim (Bool-cases (contains rust_2018_keywords name)) [
      | inl keyword ↦ (ident (str_append "r#" name), rw (make_rs_ident, keyword, marked) refl)
      | inr other ↦ (ident name, rw (make_rs_ident, other, plain, raw) refl)
    ]

strokes-MadeUpNames : MadeUpNames picky strokes
strokes-MadeUpNames = record {
  padding = λ n. picky-IsName (str_append "__padding" (strokes n)) (
      ap second_char (text_append_assoc "__" "padding" (strokes n))
      ∙ second_char-behind (str_append "padding" (strokes n)));
  bitfields = λ n. picky-IsName (str_append "__bitfields" (strokes n)) (
      ap second_char (text_append_assoc "__" "bitfields" (strokes n))
      ∙ second_char-behind (str_append "bitfields" (strokes n)));
  unnamed_field = λ n. picky-IsName (str_append "__unnamed_field" (strokes n)) (
      ap second_char (text_append_assoc "__" "unnamed_field" (strokes n))
      ∙ second_char-behind (str_append "unnamed_field" (strokes n)));
}

mixed-HasName : All (HasName picky) mixed.fields
unfolding program
mixed-HasName = (
  (ident "x", refl),
  ((ident "a", refl), ((ident "b", refl), ((ident "c", refl), ((ident "y", refl), tt)))),
)

field_definitions-rust_offsets_example :
    (ds : List FieldDefinition) × (field_definitions picky strokes layout_type mixed ≡ ok ds)
    × (rust_offsets four four (head_padding mixed) ds
        ≡ cc_offsets (fields_with_bounds layout_type mixed))
unfolding is_union
field_definitions-rust_offsets_example =
    field_definitions-rust_offsets four four picky strokes strokes-MadeUpNames layout_type mixed
      refl mixed-FirstSized mixed-HasName mixed-WellLaid

mixed_offsets : cc_offsets (fields_with_bounds layout_type mixed) ≡ 0 ∷ 4 ∷ 5 ∷ 8 ∷ []
unfolding program
mixed_offsets = refl

-- A base class of four bytes, an empty field at its start, and an integer behind it: there is no
-- head padding, and the integer is the first field of the Rust struct.
abbrev derived : Record
derived =
    record (struct_of
      (record (field "e" 0 0) { is_no_unique_address = true } ∷ field "y" 32 32 ∷ []) 8) {
        is_derived_class = true;
      }

derived_head : non_field_data derived ≡ none
unfolding program
derived_head = refl

-- The C++ offset of the integer is 4, and the one in Rust is 0.
derived_offsets :
    (cc_offsets (fields_with_bounds layout_type derived) ≡ 4 ∷ [])
    × (ds : List FieldDefinition) × (field_definitions picky strokes layout_type derived ≡ ok ds)
    × (rust_offsets four four (head_padding derived) ds ≡ 0 ∷ [])
unfolding program
derived_offsets = (refl, _, refl, refl)

-- A field that is called `_`.
underscore :
    field_definitions picky strokes layout_type (struct_of (field "_" 0 32 ∷ []) 4)
    ≡ err (refused_name "_")
unfolding program
underscore = refl
