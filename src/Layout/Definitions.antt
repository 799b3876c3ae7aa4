-- ===== src/Layout/Definitions.antt =====
-- generate_record.rs: `field_definitions` and the other parts of the generated struct or union.
use crubit4rust.Base.{
  ltb, leb, ◌==◌, if◌then◌else◌, any, nat_eq, string_eq, Result, err, ok, ◌>>=◌, int_eq, unwrap_or,
  ℕ, zero, suc, ◌+◌, ◌-◌, ◌*◌, ◌/◌, ◌%◌, String, Bool, true, false, not, ◌&&◌, ◌||◌, Option, none,
  some, List, [], ◌∷◌,
}
use Prim.Native.String.{◌++◌ as str_append}
use crubit4rust.CodeGen.{Token, Syntax, make_rs_ident}
use crubit4rust.Ir.{Field, Record, AccessSpecifier, public, protected, private, is_union}
use crubit4rust.RsSnippet.{RsTypeKind, is_ok, needs_manually_drop, should_implement_drop}
use crubit4rust.Layout.Spans.{Bounds, fields_with_bounds}

-- An assertion that fails, a difference of `usize` that would be negative, or a name that is no
-- identifier, also with `r#` in front of it.
pub data LayoutPanic : Type 0 where
  overlapping_fields negative_difference misaligned_field : LayoutPanic
  refused_name : String → LayoutPanic

-- A block of `MaybeUninit<u8>` of a number of bytes, or a type, in `ManuallyDrop` or not.
pub data Content : Type 0 where
  blob : ℕ → Content
  typed : RsTypeKind → Bool → Content

-- `padding` is the number of bytes of the padding before the field; there is none for 0, and it has
-- a name otherwise.
pub record FieldDefinition : Type 0 where
  pub padding : ℕ
  pub padding_name : Option Token
  pub field_name : Token
  pub is_pub : Bool
  pub content : Content

-- The number of bytes of `bit_padding`.
unfoldable pub bit_padding : ℕ → ℕ
bit_padding padding_size_in_bits = (padding_size_in_bits + 7) / 8

-- The difference of two `usize`.
unfoldable pub minus : ℕ → ℕ → Result LayoutPanic ℕ
minus a b = if ltb a b then err negative_difference else ok (a - b)

-- `make_rs_ident`, which panics on a name that is no identifier.
unfoldable pub rs_ident : Syntax → String → Result LayoutPanic Token
unfolding make_rs_ident
rs_ident syntax name = elim (make_rs_ident syntax name) [
  | none ↦ err (refused_name name)
  | some token ↦ ok token
]

-- `decimal` is the decimal text of a number.
module _ (syntax : Syntax) (decimal : ℕ → String) where
  -- `make_rs_field_ident`
  unfoldable pub make_rs_field_ident : Field → ℕ → Result LayoutPanic Token
  unfolding rs_ident
  make_rs_field_ident field field_index = elim field.identifier [
    | none ↦ rs_ident syntax (str_append "__unnamed_field" (decimal field_index))
    | some id ↦ rs_ident syntax id.identifier
  ]

  -- `padding_name`, where there is padding.
  unfoldable pub padding_name_of : ℕ → ℕ → Result LayoutPanic (Option Token)
  unfolding rs_ident
  padding_name_of zero field_index = ok none
  padding_name_of (suc bits) field_index = do
    token ← rs_ident syntax (str_append "__padding" (decimal field_index))
    ok (some token)

  unfoldable pub definition_name : Option Field → ℕ → Result LayoutPanic Token
  unfolding rs_ident make_rs_field_ident
  definition_name none field_index =
      rs_ident syntax (str_append "__bitfields" (decimal field_index))
  definition_name (some field) field_index = make_rs_field_ident field field_index

abbrev pub is_public : AccessSpecifier → Bool
is_public public = true
is_public protected = false
is_public private = false

abbrev pub end_of : Option Bounds → Option ℕ
end_of none = none
end_of (some b) = b.end

abbrev pub offset_of_first : List Bounds → Option ℕ
offset_of_first [] = none
offset_of_first (b ∷ _) = some b.offset

-- `prev_end`
unfoldable pub prev_end : Option Bounds → Bounds → ℕ
prev_end prev cur = unwrap_or (end_of prev) cur.offset

-- `end`, for the entries that follow and the size of the record in bytes.
unfoldable pub end_offset : ℕ → Bounds → List Bounds → ℕ
end_offset size cur next = elim cur.end [
  | some e ↦ e
  | none ↦ unwrap_or (offset_of_first next) (size * 8)
]

-- The assertion on the field before.
unfoldable pub assert_no_overlap : Bool → Option Bounds → Bounds → Result LayoutPanic (Unit {0})
assert_no_overlap in_union none cur = ok tt
assert_no_overlap in_union (some prev) cur = elim prev.field [
  | none ↦ ok tt
  | some _ ↦ elim prev.end [
    | none ↦ ok tt
    | some e ↦ if in_union || leb e cur.offset then ok tt else err overlapping_fields
  ]
]

module _ {E : Type 0} (layout_type : Field → Result E RsTypeKind) where
  abbrev pub has_type : Option Field → Bool
  has_type none = false
  has_type (some f) = is_ok (layout_type f)

  -- `padding_size_in_bits`
  unfoldable pub padding_size_in_bits : Bool → ℕ → Bounds → Result LayoutPanic ℕ
  unfolding minus
  padding_size_in_bits in_union previous_end cur =
      if in_union || has_type cur.field then ok 0 else minus cur.offset ((previous_end + 7) / 8 * 8)

  -- The field behind the padding.
  unfoldable pub field_content : Record → Option Field → ℕ → ℕ → Result LayoutPanic Content
  unfolding minus bit_padding is_union should_implement_drop needs_manually_drop
  field_content r none offset end = do bits ← minus end offset; ok (blob (bit_padding bits))
  field_content r (some field) offset end = elim (layout_type field) [
    | err _ ↦ do bits ← minus end field.offset; ok (blob (bit_padding bits))
    | ok type_kind ↦
        ok (
          typed type_kind
            ((should_implement_drop r || is_union r) && needs_manually_drop type_kind))
  ]

  abbrev pub definition_is_pub : Option Field → Bool
  definition_is_pub none = false
  definition_is_pub (some field) = is_public field.access && is_ok (layout_type field)

module _ (syntax : Syntax) (decimal : ℕ → String) {E : Type 0}
    (layout_type : Field → Result E RsTypeKind) where
  -- Both closures, for one entry.
  unfoldable pub define_field :
      Record → ℕ → Option Bounds → Bounds → List Bounds → Result LayoutPanic FieldDefinition
  unfolding assert_no_overlap prev_end end_offset padding_size_in_bits field_content bit_padding
      padding_name_of definition_name is_union
  define_field r field_index prev cur next = do
    _ ← assert_no_overlap (is_union r) prev cur
    padding_bits ← padding_size_in_bits layout_type (is_union r) (prev_end prev cur) cur
    name_before ← padding_name_of syntax decimal padding_bits field_index
    name ← definition_name syntax decimal cur.field field_index
    content ←
        field_content layout_type r cur.field cur.offset (end_offset r.size_align.size cur next)
    ok (record {
      padding = bit_padding padding_bits;
      padding_name = name_before;
      field_name = name;
      is_pub = definition_is_pub layout_type cur.field;
      content = content;
    })

  unfoldable pub define_fields :
      Record → ℕ → Option Bounds → List Bounds → Result LayoutPanic (List FieldDefinition)
  unfolding define_field
  define_fields r field_index prev [] = ok []
  define_fields r field_index prev (cur ∷ next) = do
    definition ← define_field r field_index prev cur next
    definitions ← define_fields r (field_index + 1) (some cur) next
    ok (definition ∷ definitions)

  unfoldable pub field_definitions : Record → Result LayoutPanic (List FieldDefinition)
  unfolding fields_with_bounds define_fields
  field_definitions r = define_fields r 0 none (fields_with_bounds layout_type r)

-- `field_offset_assertions`: the offset in bytes that is asserted of each field.
module _ (syntax : Syntax) (decimal : ℕ → String) where
  unfoldable pub offset_assertions : ℕ → List Bounds → Result LayoutPanic (List (Token × ℕ))
  unfolding make_rs_field_ident
  offset_assertions field_index [] = ok []
  offset_assertions field_index (b ∷ bs) =
      let rest = offset_assertions (field_index + 1) bs in
      elim b.field [
        | none ↦ rest
        | some field ↦ make_rs_field_ident syntax decimal field field_index >>= λ field_ident.
            if field.offset % 8 == 0
            then (rest >>= λ more. ok ((field_ident, field.offset / 8) ∷ more))
            else err misaligned_field
      ]

abbrev pub is_blob : FieldDefinition → Bool
is_blob d = elim d.content [ blob _ ↦ true | typed _ _ ↦ false ]

-- The argument of `align(..)`: a blob and a bit-field set `override_alignment`.
unfoldable pub repr_align : Record → List FieldDefinition → Option ℕ
repr_align r definitions =
    if (r.override_alignment || any is_blob definitions) && ltb 1 r.size_align.alignment
    then some r.size_align.alignment
    else none

-- `head_padding`, in bytes
unfoldable pub head_padding : Record → ℕ
head_padding r = elim r.fields [ [] ↦ r.size_align.size | f ∷ _ ↦ f.offset / 8 ]

-- The number of bytes of `__non_field_data`, if the struct has it.
unfoldable pub non_field_data : Record → Option ℕ
unfolding head_padding is_union
non_field_data r =
    if ltb 0 (head_padding r) || not (r.is_aggregate || is_union r)
    then some (head_padding r)
    else none
