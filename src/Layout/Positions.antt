-- ===== src/Layout/Positions.antt =====
-- Where C++ puts the fields of a struct, and where Rust puts those that generate_record.rs writes.
use crubit4rust.Base.{
  nat_eq, string_eq, Result, err, ok, int_eq, ℕ, ◌+◌, ◌-◌, ◌*◌, ◌/◌, ◌%◌, ◌≤◌, ◌≡◌, Option, none,
  some, List, [], ◌∷◌,
}
use crubit4rust.Ir.{Field}
use crubit4rust.RsSnippet.{RsTypeKind}
use crubit4rust.Layout.{Bounds, blob, typed, FieldDefinition, end_offset}

-- The next multiple of an alignment.
abbrev pub round_up : ℕ → ℕ → ℕ
round_up n alignment = (n + (alignment - 1)) / alignment * alignment

-- The offsets in C++, in bytes.
unfoldable pub cc_offsets : List Bounds → List ℕ
cc_offsets [] = []
cc_offsets (b ∷ bs) = b.offset / 8 ∷ cc_offsets bs

-- The size and the alignment of a Rust type in bytes are parameters; those of a block of `u8` are
-- its length and 1, and `ManuallyDrop` keeps both.
module _ (size_of align_of : RsTypeKind → ℕ) where
  -- The first byte of a field, and the byte behind it, where the field before ends at `position`
  -- and the rules of `repr(C)` hold.
  unfoldable pub start_of : ℕ → FieldDefinition → ℕ
  start_of position d = elim d.content [
    | blob _ ↦ position + d.padding
    | typed t _ ↦ round_up (position + d.padding) (align_of t)
  ]

  unfoldable pub stop_of : ℕ → FieldDefinition → ℕ
  unfolding start_of
  stop_of position d = elim d.content [
    | blob bytes ↦ start_of position d + bytes
    | typed t _ ↦ start_of position d + size_of t
  ]

  -- The first bytes of all fields.
  unfoldable pub rust_offsets : ℕ → List FieldDefinition → List ℕ
  unfolding start_of stop_of
  rust_offsets position [] = []
  rust_offsets position (d ∷ ds) = start_of position d ∷ rust_offsets (stop_of position d) ds

  module _ {E : Type 0} (layout_type : Field → Result E RsTypeKind) where
    -- What C++ does with an entry that keeps its type: it stands at the next aligned byte, and has
    -- the size of the Rust type.
    unfoldable pub LaidField : ℕ → Bounds → Option Field → Type 0
    LaidField position b none = Unit
    LaidField position b (some f) = elim (layout_type f) [
      | err _ ↦ Unit
      | ok t ↦
          (b.offset ≡ round_up position (align_of t) * 8)
          × (b.end ≡ some (b.offset + size_of t * 8))
    ]

    -- What C++ does with all entries of a struct of `size` bytes: each starts on a byte, behind the
    -- one before.
    unfoldable pub WellLaid : ℕ → ℕ → List Bounds → Type 0
    unfolding LaidField end_offset
    WellLaid size position [] = Unit
    WellLaid size position (b ∷ bs) =
        (b.offset % 8 ≡ 0)
        × (position * 8 ≤ b.offset)
        × (b.offset ≤ end_offset size b bs)
        × LaidField position b b.field
        × WellLaid size ((end_offset size b bs + 7) / 8) bs
