-- ===== src/Layout/Entries.antt =====
-- generate_record.rs: what one entry of `fields_with_bounds` becomes, and where an entry starts.
use crubit4rust.Base.{
  ◌≢◌, ◌==◌, if◌then◌else◌, Bool-cases, Option-cases, All, nat_eq, string_eq, Result, err, ok,
  int_eq, ℕ, ◌+◌, ◌-◌, ◌*◌, ◌/◌, ◌≤◌, ◌≡◌, refl, sym, ap, ◌∙◌, subst, ◌≢◌, inl, inr, Bool, false,
  ◌&&◌, ◌||◌, Option, none, some, List, [], ◌∷◌, arith,
}
use crubit4rust.Ir.{Field, Record, is_union}
use crubit4rust.RsSnippet.{RsTypeKind, should_implement_drop, needs_manually_drop}
use crubit4rust.Layout.{
  Bounds, fields_with_bounds, each_field_bounds, field_bounds, merged_bounds, coalesce,
  coalesce_from, blob, typed, bit_padding, minus, prev_end, offset_of_first, assert_no_overlap,
  field_content,
}

pub no_overlap :
    (prev : Option Bounds) (cur : Bounds)
    → prev_end prev cur ≤ cur.offset
    → assert_no_overlap false prev cur ≡ ok tt
unfolding prev_end assert_no_overlap
no_overlap none cur h = refl
no_overlap (some prev) cur h = elim (Option-cases prev.field) [
  | inl e ↦ rw e refl
  | inr (f, e) ↦ elim (Option-cases prev.end) [
    | inl n ↦ rw (e, n) refl
    | inr (stop, n) ↦ rw (e, n) (ground arith)
  ]
]

pub minus-ok : (a b : ℕ) → b ≤ a → minus a b ≡ ok (a - b)
unfolding minus
minus-ok a b h = ground arith

pub the_same : (n : ℕ) → n ≡ n + 0
the_same n = omega arith

pub byte_of : (bits byte : ℕ) → bits ≡ byte * 8 → byte ≡ bits / 8
byte_of bits byte h = omega arith

pub byte_behind : (bits byte size : ℕ) → bits ≡ byte * 8 → byte + size ≡ (bits + size * 8 + 7) / 8
byte_behind bits byte size h = omega arith

module _ {E : Type 0} (layout_type : Field → Result E RsTypeKind) where
  pub content_typed :
      (r : Record) (f : Field) (t : RsTypeKind) (offset end : ℕ)
      → layout_type f ≡ ok t
      → field_content layout_type r (some f) offset end
        ≡ ok (typed t ((should_implement_drop r || is_union r) && needs_manually_drop t))
  unfolding field_content
  content_typed r f t offset end k = rw (field_content, k) refl

  pub content_opaque :
      (r : Record) (f : Field) (failure : E) (offset end : ℕ)
      → layout_type f ≡ err failure
      → f.offset ≡ offset
      → offset ≤ end
      → field_content layout_type r (some f) offset end ≡ ok (blob (bit_padding (end - offset)))
  unfolding field_content
  content_opaque r f failure offset end k same o =
      rw (field_content, k, same, minus-ok end offset o) refl

  pub content_bitfields :
      (r : Record) (offset end : ℕ)
      → offset ≤ end
      → field_content layout_type r none offset end ≡ ok (blob (bit_padding (end - offset)))
  unfolding field_content
  content_bitfields r offset end o = rw (minus-ok end offset o) refl

-- The entry and its field start at the same bit.
abbrev pub SameOffset : Bounds → Type 0
SameOffset b = (f : Field) → b.field ≡ some f → f.offset ≡ b.offset

-- Every entry starts where its field does.
merged_bounds-offset : (a b m : Bounds) → merged_bounds a b ≡ some m → m.offset ≡ a.offset
unfolding merged_bounds
merged_bounds-offset a b m h = elim (Option-cases a.field) [
  | inl x ↦ elim (Option-cases b.field) [
    | inl y ↦ ground arith
    | inr (g, y) ↦ absurd (ground arith)
  ]
  | inr (g, x) ↦ absurd (ground arith)
]

-- Merging keeps the offset of the first entry.
pub coalesce_from-offset :
    (last : Bounds) (bs : List Bounds) → offset_of_first (coalesce_from last bs) ≡ some last.offset
unfolding coalesce_from
coalesce_from-offset last [] = refl
coalesce_from-offset last (b ∷ bs) =
    let Goal : Option Bounds → Type 0 = λ o.
      offset_of_first (elim o [ some m ↦ coalesce_from m bs | none ↦ last ∷ coalesce_from b bs ])
      ≡ some last.offset in
    elim (Option-cases (merged_bounds last b)) [
      | inl e ↦ subst Goal (sym e) refl
      | inr (m, e) ↦
          subst Goal (sym e) (coalesce_from-offset m bs ∙ ap some (merged_bounds-offset last b m e))
    ]

merged_bounds-SameOffset : (a b m : Bounds) → merged_bounds a b ≡ some m → SameOffset m
unfolding merged_bounds
merged_bounds-SameOffset a b m h f e = elim (Option-cases a.field) [
  | inl x ↦ elim (Option-cases b.field) [
    | inl y ↦ absurd (ground arith)
    | inr (g, y) ↦ absurd (ground arith)
  ]
  | inr (g, x) ↦ absurd (ground arith)
]

-- What holds of every entry and of what two entries are merged to holds of every entry after the
-- merging.
module _ (P : Bounds → Type 0) (merged : (a b m : Bounds) → merged_bounds a b ≡ some m → P m) where
  coalesce_from-All :
      (last : Bounds) (bs : List Bounds) → P last → All P bs → All P (coalesce_from last bs)
  unfolding coalesce_from
  coalesce_from-All last [] h hs = (h, tt)
  coalesce_from-All last (b ∷ bs) h hs =
      let Goal : Option Bounds → Type 0 =
        λ o. All P (elim o [ some m ↦ coalesce_from m bs | none ↦ last ∷ coalesce_from b bs ]) in
      elim (Option-cases (merged_bounds last b)) [
        | inl e ↦ subst Goal (sym e) (h, coalesce_from-All b bs hs.0 hs.1)
        | inr (m, e) ↦ subst Goal (sym e) (coalesce_from-All m bs (merged last b m e) hs.1)
      ]

  pub coalesce-All : (bs : List Bounds) → All P bs → All P (coalesce bs)
  unfolding coalesce
  coalesce-All [] h = tt
  coalesce-All (b ∷ bs) h = coalesce_from-All b bs h.0 h.1

module _ {E : Type 0} (layout_type : Field → Result E RsTypeKind) where
  field_bounds-SameOffset :
      (in_union : Bool) (f : Field) → SameOffset (field_bounds layout_type in_union f)
  unfolding field_bounds
  field_bounds-SameOffset in_union f = elim (Bool-cases f.is_bitfield) [
    | inl e ↦ rw e (λ g m. cc)
    | inr e ↦ rw e (λ g m. ground arith)
  ]

  each_field_bounds-SameOffset :
      (in_union : Bool) (fs : List Field)
      → All SameOffset (each_field_bounds layout_type in_union fs)
  unfolding each_field_bounds field_bounds
  each_field_bounds-SameOffset in_union [] = tt
  each_field_bounds-SameOffset in_union (f ∷ fs) = elim (Bool-cases (f.size == 0)) [
    | inl e ↦ rw e (each_field_bounds-SameOffset in_union fs)
    | inr e ↦ rw e (field_bounds-SameOffset in_union f, each_field_bounds-SameOffset in_union fs)
  ]

  -- An entry of a record starts where its field does.
  pub fields_with_bounds-SameOffset :
      (r : Record) → All SameOffset (fields_with_bounds layout_type r)
  unfolding fields_with_bounds coalesce
  fields_with_bounds-SameOffset r =
      coalesce-All SameOffset merged_bounds-SameOffset
        (each_field_bounds layout_type (is_union r) r.fields)
        (each_field_bounds-SameOffset (is_union r) r.fields)

-- The first field of the record takes space.
unfoldable pub FirstSized : List Field → Type 0
FirstSized [] = Unit
FirstSized (f ∷ _) = f.size ≢ 0

module _ {E : Type 0} (layout_type : Field → Result E RsTypeKind) where
  -- If the first field takes space, the first entry starts where it does.
  pub each_field_bounds-offset :
      (in_union : Bool) (f : Field) (fs : List Field)
      → f.size ≢ 0
      → offset_of_first (coalesce (each_field_bounds layout_type in_union (f ∷ fs))) ≡ some f.offset
  unfolding each_field_bounds field_bounds coalesce
  each_field_bounds-offset in_union f fs h = elim (Bool-cases (f.size == 0)) [
    | inl e ↦ absurd (h (ground arith))
    | inr e ↦
        subst
          (λ zero_sized.
            offset_of_first (
              coalesce (
                if zero_sized
                then each_field_bounds layout_type in_union fs
                else field_bounds layout_type in_union f
                  ∷ each_field_bounds layout_type in_union fs))
            ≡ some f.offset)
          (sym e)
          (coalesce_from-offset (field_bounds layout_type in_union f)
            (each_field_bounds layout_type in_union fs))
  ]
