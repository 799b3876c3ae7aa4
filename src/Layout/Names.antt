-- ===== src/Layout/Names.antt =====
-- generate_record.rs: names of the fields of the struct that are identifiers.
use Prim.Native.String.{◌++◌ as str_append}
use crubit4rust.Base.{
  ◌==◌, Bool-cases, Option-cases, All, nat_eq, string_eq, Result, ok, int_eq, ℕ, zero, suc, String,
  ◌≡◌, refl, subst, inl, inr, Bool, Option, none, some, List, [], ◌∷◌, arith,
}
use crubit4rust.CodeGen.{Token, Syntax, make_rs_ident}
use crubit4rust.Ir.{Field, Record, is_union}
use crubit4rust.RsSnippet.{RsTypeKind}
use crubit4rust.Layout.Entries.{coalesce-All}
use crubit4rust.Layout.{
  Bounds, fields_with_bounds, each_field_bounds, field_bounds, merged_bounds, rs_ident,
  make_rs_field_ident, padding_name_of, definition_name,
}

module _ (syntax : Syntax) where
  -- `make_rs_ident` makes an identifier of the name.
  abbrev pub IsName : String → Type 0
  IsName name = (token : Token) × (make_rs_ident syntax name ≡ some token)

  -- The name of the field is an identifier, if it has one.
  unfoldable pub HasName : Field → Type 0
  HasName f = elim f.identifier [ none ↦ Unit | some id ↦ IsName id.identifier ]

  rs_ident-IsName :
      (name : String) → IsName name → (token : Token) × (rs_ident syntax name ≡ ok token)
  unfolding rs_ident
  rs_ident-IsName name (token, e) = (token, rw (rs_ident, e) refl)

  -- The field of the entry has a name.
  abbrev pub EntryHasName : Bounds → Type 0
  EntryHasName b = (f : Field) → b.field ≡ some f → HasName f

  -- What two entries are merged to has no field.
  merged_bounds-EntryHasName : (a b m : Bounds) → merged_bounds a b ≡ some m → EntryHasName m
  unfolding merged_bounds
  merged_bounds-EntryHasName a b m h f e = elim (Option-cases a.field) [
    | inl x ↦ elim (Option-cases b.field) [
      | inl y ↦ absurd (ground arith)
      | inr (g, y) ↦ absurd (ground arith)
    ]
    | inr (g, x) ↦ absurd (ground arith)
  ]

  module _ {E : Type 0} (layout_type : Field → Result E RsTypeKind) where
    field_bounds-EntryHasName :
        (in_union : Bool) (f : Field)
        → HasName f
        → EntryHasName (field_bounds layout_type in_union f)
    unfolding field_bounds
    field_bounds-EntryHasName in_union f h = elim (Bool-cases f.is_bitfield) [
      | inl e ↦ rw e (λ g m. cc)
      | inr e ↦ rw e (λ g m. subst HasName (ground arith) h)
    ]

    each_field_bounds-EntryHasName :
        (in_union : Bool) (fs : List Field)
        → All HasName fs
        → All EntryHasName (each_field_bounds layout_type in_union fs)
    unfolding each_field_bounds
    each_field_bounds-EntryHasName in_union [] h = tt
    each_field_bounds-EntryHasName in_union (f ∷ fs) h = elim (Bool-cases (f.size == 0)) [
      | inl e ↦ rw e (each_field_bounds-EntryHasName in_union fs h.1)
      | inr e ↦
          rw e (
            field_bounds-EntryHasName in_union f h.0,
            each_field_bounds-EntryHasName in_union fs h.1,
          )
    ]

    -- The field of every entry of a record has a name if all fields have one.
    pub fields_with_bounds-EntryHasName :
        (r : Record) → All HasName r.fields → All EntryHasName (fields_with_bounds layout_type r)
    unfolding fields_with_bounds
    fields_with_bounds-EntryHasName r h =
        coalesce-All EntryHasName merged_bounds-EntryHasName
          (each_field_bounds layout_type (is_union r) r.fields)
          (each_field_bounds-EntryHasName (is_union r) r.fields h)

module _ (syntax : Syntax) (decimal : ℕ → String) where
  -- The names that the generator makes up are identifiers.
  pub record MadeUpNames : Type 0 where
    pub padding : (n : ℕ) → IsName syntax (str_append "__padding" (decimal n))
    pub bitfields : (n : ℕ) → IsName syntax (str_append "__bitfields" (decimal n))
    pub unnamed_field : (n : ℕ) → IsName syntax (str_append "__unnamed_field" (decimal n))

  module _ (made_up : MadeUpNames) where
    pub padding_name_of-ok :
        (bits field_index : ℕ)
        → (name : Option Token) × (padding_name_of syntax decimal bits field_index ≡ ok name)
    unfolding padding_name_of
    padding_name_of-ok zero field_index = (none, refl)
    padding_name_of-ok (suc bits) field_index =
        let (token, e) =
          rs_ident-IsName syntax (str_append "__padding" (decimal field_index))
            (made_up.padding field_index) in
        (some token, rw e refl)

    make_rs_field_ident-ok :
        (f : Field) (field_index : ℕ)
        → HasName syntax f
        → (token : Token) × (make_rs_field_ident syntax decimal f field_index ≡ ok token)
    unfolding make_rs_field_ident HasName
    make_rs_field_ident-ok f field_index h = elim (Option-cases f.identifier) [
      | inl e ↦
          let (token, k) =
            rs_ident-IsName syntax (str_append "__unnamed_field" (decimal field_index))
              (made_up.unnamed_field field_index) in
          (token, rw (e, k) refl)
      | inr (id, e) ↦
          let named =
            subst (λ i. elim i [ none ↦ Unit {0} | some id ↦ IsName syntax id.identifier ]) e h in
          let (token, k) = rs_ident-IsName syntax id.identifier named in (token, rw (e, k) refl)
    ]

    -- The definition of a field gets a name if the field has one.
    pub definition_name-ok :
        (field : Option Field) (field_index : ℕ)
        → ((f : Field) → field ≡ some f → HasName syntax f)
        → (token : Token) × (definition_name syntax decimal field field_index ≡ ok token)
    unfolding definition_name
    definition_name-ok none field_index h =
        rs_ident-IsName syntax (str_append "__bitfields" (decimal field_index))
          (made_up.bitfields field_index)
    definition_name-ok (some f) field_index h = make_rs_field_ident-ok f field_index (h f refl)
