-- ===== src/RsSnippet/Copies.antt =====
-- What rs_snippet.rs promises of a type that is `Copy`.
use crubit4rust.Base.{
  nat_eq, string_eq, contains, int_eq, ◌≡◌, refl, true, false, not, ◌&&◌, ◌||◌, arith,
}
use crubit4rust.Ir.{is_union, Record, is_unpin}
use crubit4rust.RsSnippet.{
  RsTypeKind, pointer, reference, rvalue_reference, func_ptr, incomplete_type, record_type,
  enum_type, alias_type, primitive, slice, nullable, bridge_type, other_type, implements_copy,
  type_is_unpin, type_check_by_value, check_by_value, should_derive_copy, should_derive_clone,
  should_implement_drop, generate_derives, is_ok,
}

-- For every record, if the derived traits include `Copy`, they include `Clone` and the record gets
-- no implementation of `Drop`, and those of a union do not include `Clone` without `Copy`.
pub generate_derives-Copy :
    (r : Record)
    → (contains (generate_derives r) "Copy"
          && (not (contains (generate_derives r) "Clone") || should_implement_drop r)
        ≡ false)
      × (is_union r
            && (contains (generate_derives r) "Clone" && not (contains (generate_derives r) "Copy"))
          ≡ false)
unfolding generate_derives should_derive_clone should_derive_copy should_implement_drop
    check_by_value
generate_derives-Copy r = (ground arith, ground arith)

-- A type that implements `Copy` is `Unpin` and can be used by value.
pub implements_copy-type_is_unpin :
    (t : RsTypeKind)
    → implements_copy t ≡ true
    → (type_is_unpin t ≡ true) × (is_ok (type_check_by_value t) ≡ true)
unfolding implements_copy type_is_unpin type_check_by_value should_derive_copy is_unpin
implements_copy-type_is_unpin (primitive _) h = (refl, refl)
implements_copy-type_is_unpin (pointer _ _) h = (refl, refl)
implements_copy-type_is_unpin (func_ptr _ _ _) h = (refl, refl)
implements_copy-type_is_unpin (reference _ m _) h = (refl, refl)
implements_copy-type_is_unpin (rvalue_reference _ _ _) h = (refl, refl)
implements_copy-type_is_unpin (incomplete_type _ _) h = absurd (ground arith)
implements_copy-type_is_unpin (record_type r _ _) h = ground arith
implements_copy-type_is_unpin (enum_type _ _) h = (refl, refl)
implements_copy-type_is_unpin (alias_type _ t _) h = implements_copy-type_is_unpin t h
implements_copy-type_is_unpin (nullable t) h = (refl, refl)
implements_copy-type_is_unpin (slice t) h = (refl, refl)
implements_copy-type_is_unpin (bridge_type _ _ _ _) h = (refl, refl)
implements_copy-type_is_unpin (other_type _ ts _) h = (refl, refl)
