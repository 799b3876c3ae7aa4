-- ===== src/RsSnippet/Records.antt =====
-- What rs_snippet.rs and generate_record.rs ask of a record: `should_derive_clone` and its
-- neighbours.
use crubit4rust.Base.{
  Bool, true, false, ◌&&◌, List, [], ◌∷◌, ◌++◌, String, Result, ok, err, if◌then◌else◌,
}
use crubit4rust.Ir.{
  Record, SpecialMemberFunc, trivial, nontrivial_members, nontrivial_user_defined, unavailable,
  is_unpin, is_union,
}

abbrev pub is_trivial : SpecialMemberFunc → Bool
is_trivial trivial = true
is_trivial _ = false

abbrev pub is_unavailable : SpecialMemberFunc → Bool
is_unavailable unavailable = true
is_unavailable _ = false

-- `Result::is_ok`
abbrev pub is_ok {ℓ} : {E A : Type ℓ} → Result E A → Bool
is_ok (ok _) = true
is_ok (err _) = false

-- The errors of the functions on types.
pub data TypeError : Type 0 where
  no_destructor abstract_type : String → TypeError
  not_a_mut_reference self_without_lifetime unexpected_self : TypeError

-- `check_by_value`
unfoldable pub check_by_value : Record → Result TypeError (Unit {0})
check_by_value record_ =
    if is_unavailable record_.destructor
    then err (no_destructor record_.cc_name)
    else if record_.is_abstract
    then err (abstract_type record_.cc_name)
    else ok tt

unfoldable pub should_derive_copy : Record → Bool
unfolding is_unpin check_by_value
should_derive_copy record_ =
    is_unpin record_
    && is_trivial record_.copy_constructor
    && is_trivial record_.destructor
    && is_ok (check_by_value record_)

unfoldable pub should_derive_clone : Record → Bool
unfolding is_unpin is_union check_by_value should_derive_copy
should_derive_clone record_ =
    if is_union record_
    then should_derive_copy record_
    else is_unpin record_ && is_trivial record_.copy_constructor && is_ok (check_by_value record_)

-- `should_implement_drop` of generate_record.rs
unfoldable pub should_implement_drop : Record → Bool
should_implement_drop record_ = elim record_.destructor [
  | trivial ↦ false
  | nontrivial_members ↦ true
  | nontrivial_user_defined ↦ true
  | unavailable ↦ false
]

-- `generate_derives` of generate_record.rs, by the names of the traits.
unfoldable pub generate_derives : Record → List String
unfolding should_derive_clone should_derive_copy
generate_derives record_ =
    (if should_derive_clone record_ then "Clone" ∷ [] else [])
    ++ (if should_derive_copy record_ then "Copy" ∷ [] else [])
