-- ===== src/Layout/Spans.antt =====
-- generate_record.rs: `fields_with_bounds`. Neighbouring bit-fields are one entry without a field.
use crubit4rust.Base.{
  ◌==◌, if◌then◌else◌, nat_eq, string_eq, Result, err, ok, int_eq, ℕ, ◌+◌, String, Bool, Option,
  none, some, List, [], ◌∷◌, ◌++◌,
}
use crubit4rust.Ir.{Field, Record, Identifier, is_union}
use crubit4rust.RsSnippet.{RsTypeKind}

-- The field, unless it is a bit-field; its start and its end in bits; and what its comment says,
-- the name and the size of each field.
pub record Bounds : Type 0 where
  pub field : Option Field
  pub offset : ℕ
  pub end : Option ℕ
  pub desc : List (String × ℕ)

abbrev pub name_of : Option Identifier → String
name_of none = ""
name_of (some id) = id.identifier

-- `layout_type` is `get_field_rs_type_kind_for_layout` on the record.
module _ {E : Type 0} (layout_type : Field → Result E RsTypeKind) where
  -- The end of a field: of an opaque one only in a union.
  unfoldable pub field_end : Bool → Field → Option ℕ
  field_end in_union f = elim (layout_type f) [
    | ok _ ↦ some (f.offset + f.size)
    | err _ ↦ if in_union then some f.size else none
  ]

  unfoldable pub field_bounds : Bool → Field → Bounds
  unfolding field_end
  field_bounds in_union f = record {
    field = if f.is_bitfield then none else some f;
    offset = f.offset;
    end = field_end in_union f;
    desc = (name_of f.identifier, f.size) ∷ [];
  }

  -- `filter(|field| field.size != 0).map(..)`
  unfoldable pub each_field_bounds : Bool → List Field → List Bounds
  unfolding field_bounds
  each_field_bounds in_union [] = []
  each_field_bounds in_union (f ∷ fs) =
      let rest = each_field_bounds in_union fs in
      if f.size == 0 then rest else field_bounds in_union f ∷ rest

-- The closure of `coalesce`: two neighbours that become one.
unfoldable pub merged_bounds : Bounds → Bounds → Option Bounds
merged_bounds first second = elim first.field [
  | some _ ↦ none
  | none ↦ elim second.field [
    | some _ ↦ none
    | none ↦ some (record {
      field = none;
      offset = first.offset;
      end = second.end;
      desc = first.desc ++ second.desc;
    })
  ]
]

-- `Itertools::coalesce`, with the last entry so far.
unfoldable pub coalesce_from : Bounds → List Bounds → List Bounds
unfolding merged_bounds
coalesce_from last [] = last ∷ []
coalesce_from last (b ∷ bs) = elim (merged_bounds last b) [
  | some m ↦ coalesce_from m bs
  | none ↦ last ∷ coalesce_from b bs
]

unfoldable pub coalesce : List Bounds → List Bounds
unfolding coalesce_from
coalesce [] = []
coalesce (b ∷ bs) = coalesce_from b bs

module _ {E : Type 0} (layout_type : Field → Result E RsTypeKind) where
  unfoldable pub fields_with_bounds : Record → List Bounds
  unfolding is_union each_field_bounds coalesce
  fields_with_bounds r = coalesce (each_field_bounds layout_type (is_union r) r.fields)
