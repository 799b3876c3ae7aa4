-- ===== src/RsSnippet/Queries.antt =====
-- The predicates on `RsTypeKind` in rs_snippet.rs.
use crubit4rust.Base.{◌==◌, Bool, true, false, not, ◌&&◌, ◌||◌, Option, none, some, Result, ok}
use crubit4rust.Ir.{Record, is_unpin}
use crubit4rust.RsSnippet.Kinds.{
  const_, mut_, Lifetime, bool_, RsTypeKind, pointer, reference, rvalue_reference, func_ptr,
  incomplete_type, record_type, enum_type, alias_type, primitive, slice, nullable, bridge_type,
  other_type, RsTypeKinds, no_kinds, more_kinds, KnownGeneric, not_generic, generic,
}
use crubit4rust.RsSnippet.Records.{check_by_value, should_derive_copy, is_unavailable, TypeError}

abbrev pub is_known : KnownGeneric → Bool
is_known not_generic = false
is_known (generic _ _ _) = true

-- `RsTypeKind::is_unpin`
unfoldable pub type_is_unpin : RsTypeKind → Bool
unfolding is_unpin
type_is_unpin (incomplete_type _ _) = false
type_is_unpin (record_type r _ known) = is_known known || is_unpin r
type_is_unpin (alias_type _ underlying_type _) = type_is_unpin underlying_type
type_is_unpin (bridge_type _ _ _ _) = true
type_is_unpin _ = true

unfoldable pub is_unsafe : RsTypeKind → Bool
is_unsafe (pointer _ _) = true
is_unsafe _ = false

unfoldable pub is_bridge_type : RsTypeKind → Bool
is_bridge_type (bridge_type _ _ _ _) = true
is_bridge_type _ = false

unfoldable pub is_primitive : RsTypeKind → Bool
is_primitive (primitive _) = true
is_primitive _ = false

unfoldable pub is_c_abi_compatible_by_value : RsTypeKind → Bool
is_c_abi_compatible_by_value (alias_type _ underlying_type _) =
    is_c_abi_compatible_by_value underlying_type
is_c_abi_compatible_by_value (incomplete_type _ _) = false
is_c_abi_compatible_by_value (record_type _ _ _) = false
is_c_abi_compatible_by_value (bridge_type _ _ _ _) = false
is_c_abi_compatible_by_value (other_type _ _ is_same_abi) = is_same_abi
is_c_abi_compatible_by_value _ = true

unfoldable pub is_move_constructible : RsTypeKind → Bool
is_move_constructible (incomplete_type _ _) = false
is_move_constructible (record_type r _ _) = not (is_unavailable r.move_constructor)
is_move_constructible (alias_type _ underlying_type _) = is_move_constructible underlying_type
is_move_constructible (bridge_type _ _ _ _) = true
is_move_constructible _ = true

-- `RsTypeKind::check_by_value`
unfoldable pub type_check_by_value : RsTypeKind → Result TypeError (Unit {0})
unfolding check_by_value
type_check_by_value (record_type r _ _) = check_by_value r
type_check_by_value (alias_type _ underlying_type _) = type_check_by_value underlying_type
type_check_by_value _ = ok tt

unfoldable mutual
  unfolding should_derive_copy

  pub implements_copy : RsTypeKind → Bool
  implements_copy (primitive _) = true
  implements_copy (pointer _ _) = true
  implements_copy (func_ptr _ _ _) = true
  implements_copy (reference _ const_ _) = true
  implements_copy (reference _ mut_ _) = false
  implements_copy (rvalue_reference _ _ _) = false
  implements_copy (incomplete_type _ _) = false
  implements_copy (record_type r _ _) = should_derive_copy r
  implements_copy (enum_type _ _) = true
  implements_copy (alias_type _ underlying_type _) = implements_copy underlying_type
  implements_copy (nullable t) = implements_copy t
  implements_copy (slice t) = implements_copy t
  implements_copy (bridge_type _ _ _ _) = false
  implements_copy (other_type _ type_args _) = all_implement_copy type_args

  -- `type_args.iter().all(|t| t.implements_copy())`
  pub all_implement_copy : RsTypeKinds → Bool
  all_implement_copy no_kinds = true
  all_implement_copy (more_kinds t ts) = implements_copy t && all_implement_copy ts

unfoldable pub is_record : RsTypeKind → Record → Bool
is_record (record_type actual _ _) expected = actual.id == expected.id
is_record _ expected = false

unfoldable pub is_ref_to : RsTypeKind → Record → Bool
unfolding is_record
is_ref_to (reference referent_ _ _) expected = is_record referent_ expected
is_ref_to (rvalue_reference referent_ _ _) expected = is_record referent_ expected
is_ref_to _ expected = false

unfoldable pub is_shared_ref_to : RsTypeKind → Record → Bool
unfolding is_record
is_shared_ref_to (reference referent_ const_ _) expected = is_record referent_ expected
is_shared_ref_to _ expected = false

unfoldable pub is_bool : RsTypeKind → Bool
is_bool (primitive bool_) = true
is_bool (alias_type _ underlying_type _) = is_bool underlying_type
is_bool _ = false

unfoldable pub referent : RsTypeKind → Option RsTypeKind
referent (pointer p _) = some p
referent (reference p _ _) = some p
referent (rvalue_reference p _ _) = some p
referent _ = none

unfoldable pub lifetime : RsTypeKind → Option Lifetime
lifetime (reference _ _ l) = some l
lifetime (rvalue_reference _ _ l) = some l
lifetime _ = none

-- `needs_manually_drop` of generate_record.rs
unfoldable pub needs_manually_drop : RsTypeKind → Bool
unfolding implements_copy
needs_manually_drop ty = not (implements_copy ty)
