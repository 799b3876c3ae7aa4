-- ===== src/Bindings/Types.antt =====
-- lib.rs of generate_bindings: `rs_type_kind`, the body of the memoized query, which calls the query
-- `db.rs_type_kind` for the parts of a type. The texts of errors are without the `Debug` output.
use Prim.Native.Char.{code}
use Prim.Native.String.{◌++◌ as str_append}
use crubit4rust.Base.{
  ◌==◌, if◌then◌else◌, nat_eq, string_eq, Result, err, ok, ◌>>=◌, int_eq, ℕ, String, Bool, true,
  false, ◌&&◌, Option, none, some, List, [], ◌∷◌,
}
use crubit4rust.Errors.{other}
use crubit4rust.Features.{FlagSets}
use crubit4rust.Ir.{
  malformed_function_pointer, ItemId, LifetimeId, RsType, RsTypes, rs_type, no_rs_types,
  more_rs_types, Item, incomplete_record_item, record_item, enum_item, type_alias_item,
  type_map_override_item, get_lifetime, item_for_type,
}
use crubit4rust.RsSnippet.{
  from_ir, Mutability, const_, mut_, Lifetime, PrimitiveType, RsTypeKind, pointer, reference,
  rvalue_reference, func_ptr, incomplete_type, primitive, nullable, other_type, collected, from_str,
  is_bridge_type, is_c_abi_compatible_by_value, new_bridge_type, new_record, new_enum,
  new_type_alias, new_type_map_override, crate_path_of,
}
use crubit4rust.Bindings.Missing.{
  Stop, panicked, failed, Generator, or_panic, or_error, or_stop, name_of_item,
}
use crubit4rust.Bindings.Has.{
  NoBindingsReason, missing_required_features, dependency_failed, unsupported, HasBindings, yes,
  maybe, no, error_from, has_bindings,
}

-- `str::strip_prefix`
unfoldable pub strip_prefix : String → String → Option String
strip_prefix String.[] s = some s
strip_prefix (String.◌∷◌ c p) String.[] = none
strip_prefix (String.◌∷◌ c p) (String.◌∷◌ d s) = if code c == code d then strip_prefix p s else none

-- `remove(type_args.len() - 1)`: the other elements, and the last.
unfoldable pub split_last : List RsTypeKind → Option (List RsTypeKind × RsTypeKind)
split_last [] = none
split_last (t ∷ ts) = elim (split_last ts) [
  | none ↦ some ([], t)
  | some (init, last) ↦ some (t ∷ init, last)
]

-- `type_args.iter().all(|t| t.is_c_abi_compatible_by_value())`
unfoldable pub all_c_abi_compatible : List RsTypeKind → Bool
unfolding is_c_abi_compatible_by_value
all_c_abi_compatible [] = true
all_c_abi_compatible (t ∷ ts) = is_c_abi_compatible_by_value t && all_c_abi_compatible ts

abbrev pub is_missing_features : {Features : Type 0} → NoBindingsReason Features → Bool
is_missing_features (missing_required_features _ _) = true
is_missing_features (dependency_failed _ _) = false
is_missing_features (unsupported _ _) = false

-- The type behind an alias.
abbrev pub fallback_type : Item → Option RsType
fallback_type (type_alias_item alias) = some alias.underlying_type.rs_type
fallback_type _ = none

abbrev pub bail : {A : Type 0} → String → Result Stop A
bail message = err (failed (other message))

module _ (flags : FlagSets) (db : Generator flags) where
  open flags use {FlagSet}

  -- `get_type_args`
  unfoldable pub get_type_args : RsTypes → Result Stop (List RsTypeKind)
  get_type_args no_rs_types = ok []
  get_type_args (more_rs_types ty tys) = do
    t ← or_error (db.rs_type_kind ty)
    ts ← get_type_args tys
    ok (t ∷ ts)

  -- `get_pointee`
  unfoldable pub get_pointee : RsTypes → Result Stop RsTypeKind
  unfolding is_bridge_type
  get_pointee (more_rs_types ty no_rs_types) = or_error (db.rs_type_kind ty) >>= λ pointee.
      if is_bridge_type pointee
      then bail "Bridging types are not supported as pointee/referent types."
      else ok pointee
  get_pointee _ = bail "Missing pointee/referent type (need exactly 1 type argument)"

  -- `get_lifetime`
  unfoldable pub get_type_lifetime : List LifetimeId → Result Stop Lifetime
  unfolding get_lifetime
  get_type_lifetime (lifetime_id ∷ []) = elim (get_lifetime db.ir lifetime_id) [
    | none ↦ bail "no known lifetime"
    | some l ↦ ok l.name
  ]
  get_type_lifetime _ = bail "Missing reference lifetime (need exactly 1 lifetime argument)"

  unfoldable pub pointer_to : Mutability → RsTypes → Result Stop RsTypeKind
  unfolding get_pointee
  pointer_to mutability type_args = do
    pointee ← get_pointee type_args
    ok (pointer pointee mutability)

  -- A reference, or with `rvalue_reference` an rvalue reference.
  unfoldable pub reference_to :
      (RsTypeKind → Mutability → Lifetime → RsTypeKind)
      → Mutability
      → List LifetimeId
      → RsTypes
      → Result Stop RsTypeKind
  unfolding get_pointee get_type_lifetime
  reference_to make mutability lifetime_args type_args = do
    target ← get_pointee type_args
    l ← get_type_lifetime lifetime_args
    ok (make target mutability l)

  abbrev pub only_arg : List RsTypeKind → Result Stop RsTypeKind
  only_arg (t ∷ []) = ok (nullable t)
  only_arg _ = bail "Option should have exactly 1 type argument"

  -- `assert_eq!(lifetime.0.as_ref(), "static")`, where there is a lifetime.
  unfoldable pub assert_static : Result Stop Lifetime → Result Stop (Unit {0})
  assert_static (err _) = ok tt
  assert_static (ok l) =
      if string_eq.beq l "static" then ok tt else err (panicked malformed_function_pointer)

  unfoldable pub func_ptr_of : String → List LifetimeId → List RsTypeKind → Result Stop RsTypeKind
  unfolding get_type_lifetime assert_static split_last all_c_abi_compatible collected
  func_ptr_of abi lifetime_args type_args = assert_static (get_type_lifetime lifetime_args) >>= λ _.
      elim (split_last type_args) [
        | none ↦ err (panicked malformed_function_pointer)
        | some (param_types, return_type) ↦
            if all_c_abi_compatible type_args
            then ok (func_ptr abi return_type (collected param_types))
            else bail
                "Either the return type or some of the parameter types require an FFI thunk (and function pointers don't have a thunk)"
      ]

  abbrev pub primitive_of : String → PrimitiveType → List RsTypeKind → Result Stop RsTypeKind
  primitive_of name p [] = ok (primitive p)
  primitive_of name p (_ ∷ _) = bail (str_append name " type must not have type arguments")

  -- The last arm of the match on the name.
  unfoldable pub other_named : String → List LifetimeId → List RsTypeKind → Result Stop RsTypeKind
  unfolding from_str strip_prefix func_ptr_of collected
  other_named name lifetime_args type_args = elim (from_str name) [
    | some p ↦ primitive_of name p type_args
    | none ↦ elim (strip_prefix "#funcPtr " name) [
      | some abi ↦ func_ptr_of abi lifetime_args type_args
      | none ↦ ok (other_type name (collected type_args) true)
    ]
  ]

  -- The match on the name.
  unfoldable pub named_type : String → List LifetimeId → RsTypes → Result Stop RsTypeKind
  unfolding pointer_to reference_to get_type_args other_named
  named_type name lifetime_args type_args =
      if string_eq.beq name "*mut"
      then pointer_to mut_ type_args
      else if string_eq.beq name "*const"
      then pointer_to const_ type_args
      else if string_eq.beq name "&mut"
      then reference_to reference mut_ lifetime_args type_args
      else if string_eq.beq name "&"
      then reference_to reference const_ lifetime_args type_args
      else if string_eq.beq name "#RvalueReference mut"
      then reference_to rvalue_reference mut_ lifetime_args type_args
      else if string_eq.beq name "#RvalueReference const"
      then reference_to rvalue_reference const_ lifetime_args type_args
      else if string_eq.beq name "Option"
      then (get_type_args type_args >>= only_arg)
      else (get_type_args type_args >>= other_named name lifetime_args)

  -- The match on an item that has bindings.
  unfoldable pub declared_type : ℕ → Item → Result Stop RsTypeKind
  unfolding crate_path_of new_bridge_type new_record new_enum new_type_alias new_type_map_override
  declared_type fuel (incomplete_record_item r) =
      or_stop flags db (
        crate_path_of db.rs_type_kind db.same_arg db.syntax db.is_numeric fuel db.ir
          (incomplete_record_item r) r.owning_target)
      >>= λ path. ok (incomplete_type r path)
  declared_type fuel (record_item r) = elim r.bridge_type_info [
    | some _ ↦ or_stop flags db (new_bridge_type r)
    | none ↦
        or_stop flags db
          (new_record db.rs_type_kind db.same_arg db.syntax db.is_numeric fuel r db.ir)
  ]
  declared_type fuel (enum_item e) =
      or_stop flags db (new_enum db.rs_type_kind db.same_arg db.syntax db.is_numeric fuel e db.ir)
  declared_type fuel (type_alias_item alias) =
      or_stop flags db
        (new_type_alias db.rs_type_kind db.same_arg db.syntax db.is_numeric fuel alias db.ir)
  declared_type fuel (type_map_override_item o) =
      or_stop flags db (new_type_map_override db.rs_type_kind db.same_arg o)
  declared_type fuel _ = bail "Item does not define a type"

  -- What follows from `has_bindings` of the item.
  unfoldable pub by_bindings : ℕ → Item → HasBindings FlagSet → Result Stop RsTypeKind
  unfolding declared_type error_from name_of_item
  by_bindings fuel item yes = declared_type fuel item
  by_bindings fuel item maybe = elim (fallback_type item) [
    | some ty ↦ or_error (db.rs_type_kind ty)
    | none ↦ name_of_item flags db fuel item >>= λ name.
        bail (str_append "Type " (str_append name " may or may not exist, and cannot be used."))
  ]
  by_bindings fuel item (no reason) =
      if is_missing_features reason
      then err (failed (error_from flags db reason))
      else elim (fallback_type item) [
        | some ty ↦ or_error (db.rs_type_kind ty)
        | none ↦ err (failed (error_from flags db reason))
      ]

  -- A type without a name.
  unfoldable pub item_type : ℕ → RsTypes → Option ItemId → Result Stop RsTypeKind
  unfolding item_for_type has_bindings by_bindings
  item_type fuel (more_rs_types _ _) decl_id =
      bail "Type arguments on records nor type aliases are not yet supported"
  item_type fuel no_rs_types decl_id = do
    item ← or_stop flags db (from_ir (item_for_type db.ir decl_id))
    bindings ← or_panic (has_bindings flags db fuel item)
    by_bindings fuel item bindings

  -- `rs_type_kind`
  unfoldable pub rs_type_kind : ℕ → RsType → Result Stop RsTypeKind
  unfolding named_type item_type
  rs_type_kind fuel (rs_type name lifetime_args type_args (some unknown_attr) decl_id) =
      bail (str_append "unknown attribute(s): " unknown_attr)
  rs_type_kind fuel (rs_type none lifetime_args type_args none decl_id) =
      item_type fuel type_args decl_id
  rs_type_kind fuel (rs_type (some name) lifetime_args type_args none decl_id) =
      named_type name lifetime_args type_args
