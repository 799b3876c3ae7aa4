-- ===== src/Layout/Offsets.antt =====
-- Where the fields of the struct that generate_record.rs writes stand.
use crubit4rust.Base.{
  Option-cases, All, nat_eq, string_eq, Result, err, ok, Result-cases, int_eq, ℕ, ◌+◌, ◌-◌, ◌*◌,
  ◌/◌, ◌%◌, ◌≤◌, String, ◌≡◌, refl, sym, ap, ap₂, ◌∙◌, subst, inl, inr, true, false, ◌&&◌, ◌||◌,
  Option, none, some, List, [], ◌∷◌, arith,
}
use crubit4rust.CodeGen.{Syntax}
use crubit4rust.Ir.{Field, Record, is_union}
use crubit4rust.RsSnippet.{RsTypeKind, should_implement_drop, needs_manually_drop}
use crubit4rust.Layout.Positions.{
  round_up, start_of, stop_of, rust_offsets, cc_offsets, LaidField, WellLaid,
}
use crubit4rust.Layout.Entries.{
  no_overlap, minus-ok, the_same, byte_of, byte_behind, content_typed, content_opaque,
  content_bitfields, SameOffset, fields_with_bounds-SameOffset, FirstSized,
  each_field_bounds-offset,
}
use crubit4rust.Layout.Names.{
  MadeUpNames, HasName, EntryHasName, padding_name_of-ok, definition_name-ok,
  fields_with_bounds-EntryHasName,
}
use crubit4rust.Layout.{
  offset_of_first, coalesce, each_field_bounds, head_padding, Bounds, fields_with_bounds, blob,
  typed, FieldDefinition, bit_padding, prev_end, end_offset, has_type, padding_size_in_bits,
  field_content, definition_is_pub, define_field, define_fields, field_definitions,
}

-- The size and the alignment of a type are parameters, as in Layout/Positions.
module _ (size_of align_of : RsTypeKind → ℕ) (syntax : Syntax) (decimal : ℕ → String)
    (made_up : MadeUpNames syntax decimal) {E : Type 0}
    (layout_type : Field → Result E RsTypeKind) where
  -- What is defined for an entry, and where it stands.
  abbrev Placed : Record → ℕ → Option Bounds → Bounds → List Bounds → ℕ → Type 0
  Placed r field_index prev b bs position =
      (d : FieldDefinition) × (define_field syntax decimal layout_type r field_index prev b bs
        ≡ ok d)
      × (start_of size_of align_of position d ≡ b.offset / 8)
      × (stop_of size_of align_of position d ≡ (end_offset r.size_align.size b bs + 7) / 8)

  place_blob :
      (r : Record) (field_index : ℕ) (prev : Option Bounds) (b : Bounds) (bs : List Bounds)
      (position : ℕ)
      → is_union r ≡ false
      → EntryHasName syntax b
      → position ≡ (prev_end prev b + 7) / 8
      → b.offset % 8 ≡ 0
      → position * 8 ≤ b.offset
      → b.offset ≤ end_offset r.size_align.size b bs
      → has_type layout_type b.field ≡ false
      → field_content layout_type r b.field b.offset (end_offset r.size_align.size b bs)
        ≡ ok (blob (bit_padding (end_offset r.size_align.size b bs - b.offset)))
      → Placed r field_index prev b bs position
  unfolding define_field padding_size_in_bits bit_padding start_of stop_of
  place_blob r field_index prev b bs position u called p m q o h c =
      let overlap = no_overlap prev b (omega arith) in
      let gap = minus-ok b.offset ((prev_end prev b + 7) / 8 * 8) (omega arith) in
      let (name_before, before) =
        padding_name_of-ok syntax decimal made_up (b.offset - (prev_end prev b + 7) / 8 * 8)
          field_index in
      let (name, here) = definition_name-ok syntax decimal made_up b.field field_index called in
      (
        record {
          padding = bit_padding (b.offset - (prev_end prev b + 7) / 8 * 8);
          padding_name = name_before;
          field_name = name;
          is_pub = definition_is_pub layout_type b.field;
          content = blob (bit_padding (end_offset r.size_align.size b bs - b.offset));
        },
        rw (u, overlap, h, gap, before, here, c) refl,
        omega arith,
        omega arith,
      )

  -- An entry that keeps its type.
  place_typed :
      (r : Record) (field_index : ℕ) (prev : Option Bounds) (b : Bounds) (bs : List Bounds)
      (position : ℕ) (f : Field) (t : RsTypeKind)
      → is_union r ≡ false
      → EntryHasName syntax b
      → position ≡ (prev_end prev b + 7) / 8
      → position * 8 ≤ b.offset
      → b.field ≡ some f
      → layout_type f ≡ ok t
      → b.offset ≡ round_up position (align_of t) * 8
      → b.end ≡ some (b.offset + size_of t * 8)
      → Placed r field_index prev b bs position
  unfolding define_field padding_size_in_bits bit_padding start_of stop_of end_offset
  place_typed r field_index prev b bs position f t u called p q e k o n =
      let overlap = no_overlap prev b (omega arith) in
      let content =
        ap (λ x. field_content layout_type r x b.offset (end_offset r.size_align.size b bs)) e
        ∙ content_typed layout_type r f t b.offset (end_offset r.size_align.size b bs) k in
      let h : has_type layout_type b.field ≡ true = ap (has_type layout_type) e ∙ rw k refl in
      let (name, here) = definition_name-ok syntax decimal made_up b.field field_index called in
      (
        record {
          padding = 0;
          padding_name = none;
          field_name = name;
          is_pub = definition_is_pub layout_type b.field;
          content = typed t ((should_implement_drop r || is_union r) && needs_manually_drop t);
        },
        rw (content, u, overlap, h, here) refl,
        subst (λ n. round_up n (align_of t) ≡ b.offset / 8) (the_same position)
            (byte_of b.offset (round_up position (align_of t)) o),
        subst
            (λ n. round_up n (align_of t) + size_of t ≡ (end_offset r.size_align.size b bs + 7) / 8)
            (the_same position)
            (rw n (byte_behind b.offset (round_up position (align_of t)) (size_of t) o)),
      )

  -- An entry without a type of its own: a bit-field, or a field whose type is not known here.
  place_untyped :
      (r : Record) (field_index : ℕ) (prev : Option Bounds) (b : Bounds) (bs : List Bounds)
      (position : ℕ) (field : Option Field)
      → is_union r ≡ false
      → EntryHasName syntax b
      → position ≡ (prev_end prev b + 7) / 8
      → b.offset % 8 ≡ 0
      → position * 8 ≤ b.offset
      → b.offset ≤ end_offset r.size_align.size b bs
      → b.field ≡ field
      → has_type layout_type field ≡ false
      → field_content layout_type r field b.offset (end_offset r.size_align.size b bs)
        ≡ ok (blob (bit_padding (end_offset r.size_align.size b bs - b.offset)))
      → Placed r field_index prev b bs position
  place_untyped r field_index prev b bs position field u called p m q o e h c =
      place_blob r field_index prev b bs position u called p m q o (ap (has_type layout_type) e ∙ h)
        (ap (λ x. field_content layout_type r x b.offset (end_offset r.size_align.size b bs)) e ∙ c)

  laid_typed :
      (position : ℕ) (b : Bounds) (f : Field) (t : RsTypeKind)
      → layout_type f ≡ ok t
      → LaidField size_of align_of layout_type position b (some f)
      → (b.offset ≡ round_up position (align_of t) * 8) × (b.end ≡ some (b.offset + size_of t * 8))
  unfolding LaidField
  laid_typed position b f t k laid =
      subst
        (λ kind. elim kind [
          | err _ ↦ Unit {0}
          | ok u ↦
              (b.offset ≡ round_up position (align_of u) * 8)
              × (b.end ≡ some (b.offset + size_of u * 8))
        ])
        k laid

  place :
      (r : Record) (field_index : ℕ) (prev : Option Bounds) (b : Bounds) (bs : List Bounds)
      (position : ℕ)
      → is_union r ≡ false
      → EntryHasName syntax b
      → position ≡ (prev_end prev b + 7) / 8
      → SameOffset b
      → WellLaid size_of align_of layout_type r.size_align.size position (b ∷ bs)
      → Placed r field_index prev b bs position
  unfolding WellLaid
  place r field_index prev b bs position u called p same w = elim (Option-cases b.field) [
    | inl e ↦
        place_untyped r field_index prev b bs position none u called p w.0 w.1 w.2 e refl
          (content_bitfields layout_type r b.offset (end_offset r.size_align.size b bs) w.2)
    | inr (f, e) ↦ elim (Result-cases (layout_type f)) [
      | inl (failure, k) ↦
          place_untyped r field_index prev b bs position (some f) u called p w.0 w.1 w.2 e
            (rw k refl)
            (content_opaque layout_type r f failure b.offset (end_offset r.size_align.size b bs) k
              (same f e) w.2)
      | inr (t, k) ↦
          let laid = subst (LaidField size_of align_of layout_type position b) e w.3 in
          let (o, n) = laid_typed position b f t k laid in
          place_typed r field_index prev b bs position f t u called p w.1 e k o n
    ]
  ]

  -- The position before a list of entries.
  unfoldable pub StartsAt : ℕ → Option Bounds → List Bounds → Type 0
  unfolding prev_end
  StartsAt position prev [] = Unit
  StartsAt position prev (b ∷ bs) = position ≡ (prev_end prev b + 7) / 8

  StartsAt-next :
      (size : ℕ) (b : Bounds) (bs : List Bounds)
      → StartsAt ((end_offset size b bs + 7) / 8) (some b) bs
  unfolding StartsAt end_offset prev_end
  StartsAt-next size b [] = tt
  StartsAt-next size b (c ∷ bs) = elim (Option-cases b.end) [
    | inl e ↦ rw e refl
    | inr (stop, e) ↦ rw e refl
  ]

  define_fields-rust_offsets :
      (r : Record) (field_index : ℕ) (prev : Option Bounds) (bs : List Bounds) (position : ℕ)
      → is_union r ≡ false
      → All (EntryHasName syntax) bs
      → StartsAt position prev bs
      → All SameOffset bs
      → WellLaid size_of align_of layout_type r.size_align.size position bs
      → (ds : List FieldDefinition) × (define_fields syntax decimal layout_type r field_index prev
            bs
          ≡ ok ds)
        × (rust_offsets size_of align_of position ds ≡ cc_offsets bs)
  unfolding define_fields rust_offsets cc_offsets StartsAt WellLaid
  define_fields-rust_offsets r field_index prev [] position u named p same w = ([], refl, refl)
  define_fields-rust_offsets r field_index prev (b ∷ bs) position u named p same w =
      let (d, defined, start, stop) = place r field_index prev b bs position u named.0 p same.0 w in
      let (ds, more, offsets) =
        define_fields-rust_offsets r (field_index + 1) (some b) bs
          ((end_offset r.size_align.size b bs + 7) / 8) u named.1
          (StartsAt-next r.size_align.size b bs) same.1 w.4 in
      (
        d ∷ ds,
        rw (defined, more) refl,
        ap₂ (λ x xs. x ∷ xs) start (ap (λ n. rust_offsets size_of align_of n ds) stop ∙ offsets),
      )

  StartsAt-offset :
      (size position o : ℕ) (bs : List Bounds)
      → position ≡ o / 8
      → offset_of_first bs ≡ some o
      → WellLaid size_of align_of layout_type size position bs
      → StartsAt position none bs
  unfolding StartsAt WellLaid prev_end
  StartsAt-offset size position o [] p e w = tt
  StartsAt-offset size position o (b ∷ bs) p e w =
      let first : b.offset ≡ o = ground arith in omega (arith, w.0)

  -- The entries of a record whose first field takes space start behind the head padding.
  StartsAt-head :
      (r : Record) (fs : List Field) (size position : ℕ)
      → r.fields ≡ fs
      → FirstSized fs
      → position ≡ head_padding r
      → WellLaid size_of align_of layout_type size position (fields_with_bounds layout_type r)
      → StartsAt position none (fields_with_bounds layout_type r)
  unfolding fields_with_bounds FirstSized head_padding each_field_bounds coalesce StartsAt
  StartsAt-head r [] size position e h p w =
      subst
        (λ fs. StartsAt position none (coalesce (each_field_bounds layout_type (is_union r) fs)))
        (sym e) tt
  StartsAt-head r (f ∷ fs) size position e h p w =
      let Goal : List Field → Type 0 =
        λ fs. StartsAt position none (coalesce (each_field_bounds layout_type (is_union r) fs)) in
      let laid =
        subst
          (λ fs.
            WellLaid size_of align_of layout_type size position
              (coalesce (each_field_bounds layout_type (is_union r) fs)))
          e w in
      subst Goal (sym e) (
        StartsAt-offset size position f.offset
          (coalesce (each_field_bounds layout_type (is_union r) (f ∷ fs))) (p ∙ rw e refl)
          (each_field_bounds-offset layout_type (is_union r) f fs h) laid)

  -- For a struct (not a union) whose first field takes space, whose named fields have names that
  -- `make_rs_ident` accepts, and whose fields C++ lays out in order behind what precedes the first
  -- one, each on a byte, those with a known type at the next aligned byte, and where the names that
  -- the generator makes up are accepted too: the field definitions are made without a failed
  -- assertion, a negative difference or a refused name, and behind the head padding Rust's
  -- `repr(C)` puts every one of them at the offset that its field has in C++.
  pub field_definitions-rust_offsets :
      (r : Record)
      → is_union r ≡ false
      → FirstSized r.fields
      → All (HasName syntax) r.fields
      → WellLaid size_of align_of layout_type r.size_align.size
          (head_padding r)
          (fields_with_bounds layout_type r)
      → (ds : List FieldDefinition) × (field_definitions syntax decimal layout_type r ≡ ok ds)
        × (rust_offsets size_of align_of (head_padding r) ds
            ≡ cc_offsets (fields_with_bounds layout_type r))
  unfolding field_definitions
  field_definitions-rust_offsets r u h names w =
      define_fields-rust_offsets r 0 none (fields_with_bounds layout_type r) (head_padding r) u
        (fields_with_bounds-EntryHasName syntax layout_type r names)
        (StartsAt-head r r.fields r.size_align.size (head_padding r) refl h refl w)
        (fields_with_bounds-SameOffset layout_type r) w
