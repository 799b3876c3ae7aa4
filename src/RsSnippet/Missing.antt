-- ===== src/RsSnippet/Missing.antt =====
-- Which features `required_crubit_features` of rs_snippet.rs reports as missing.
use Prim.Native.String.{◌++◌ as str_append}
use crubit4rust.Base.{
  if◌then◌else◌, Bool-cases, Option-cases, any, nat_eq, string_eq, contains, int_eq, String, ◌≡◌,
  ap, ◌∙◌, ◌↔◌, inl, inr, Bool, true, false, not, ◌&&◌, ◌||◌, Option, none, some, List, [], ◌∷◌,
  arith,
}
use crubit4rust.Features.{FlagSets, CrubitFeature, supported, experimental, feature_eq}
use crubit4rust.Ir.{Record}
use crubit4rust.RsSnippet.{
  TypeLocation, RsTypeKind, pointer, reference, rvalue_reference, func_ptr, incomplete_type,
  record_type, enum_type, alias_type, primitive, slice, nullable, bridge_type, other_type,
  template_instantiation_allowlist, is_by_value, require_feature, require_record, require_type,
  require_all, require_movable, required_crubit_features, type_is_unpin,
}
use crubit4rust.RsSnippet.Order.{preorder, yielded-dfs_iter}

-- The records that need no experimental feature: those that are no instantiation of a template, and
-- the allowed instantiations.
unfoldable pub is_plain_record : Record → Bool
is_plain_record r = elim r.defining_target [
  | none ↦ true
  | some _ ↦ contains template_instantiation_allowlist r.cc_preferred_name
]

-- The types that need only the feature `supported`, whatever their parts are.
unfoldable pub is_supported_type : RsTypeKind → Bool
unfolding is_plain_record
is_supported_type (reference _ _ _) = false
is_supported_type (rvalue_reference _ _ _) = false
is_supported_type (func_ptr abi _ _) = string_eq.beq abi "C"
is_supported_type (incomplete_type _ _) = false
is_supported_type (record_type r _ _) = is_plain_record r
is_supported_type (bridge_type _ _ _ _) = false
is_supported_type (other_type _ _ _) = false
is_supported_type _ = true

-- The feature that a type needs for itself.
unfoldable pub own_feature : RsTypeKind → CrubitFeature
unfolding is_supported_type
own_feature t = if is_supported_type t then supported else experimental

-- Is the feature needed for the type at this place: for a type that is not movable and is passed
-- by value, or for one of the types in it?
unfoldable pub needs : CrubitFeature → TypeLocation → RsTypeKind → Bool
unfolding own_feature type_is_unpin preorder
needs f type_location t =
    (feature_eq experimental f && (not (type_is_unpin t) && is_by_value type_location))
    || any (λ u. feature_eq (own_feature u) f) (preorder t)

module _ (flags : FlagSets) (display : RsTypeKind → String) (less : String → String → Bool) where
  open flags use {FlagSet, default, from, difference, union}

  require_feature-contains :
      (enabled : FlagSet) (required f : CrubitFeature) (reason : Option String)
      (m : FlagSet × List String)
      → flags.contains (require_feature flags display less enabled required reason m).0 f
        ≡ flags.contains m.0 f || (feature_eq required f && not (flags.contains enabled f))
  unfolding require_feature
  require_feature-contains enabled required f reason m =
      elim (Bool-cases (flags.is_empty (difference (from required) enabled))) [
        | inl empty ↦ ground (
          arith,
          (flags.is_empty_iff (difference (from required) enabled)).0 empty f,
          flags.contains-difference (from required) enabled f,
          flags.contains-from required f,
        )
        | inr some_missing ↦ ground (
          arith,
          flags.contains-union m.0 (difference (from required) enabled) f,
          flags.contains-difference (from required) enabled f,
          flags.contains-from required f,
        )
      ]

  require_record-contains :
      (enabled : FlagSet) (f : CrubitFeature) (t : RsTypeKind) (r : Record)
      (m : FlagSet × List String)
      → flags.contains (require_record flags display less enabled t r m).0 f
        ≡ flags.contains m.0 f
          || (feature_eq (if is_plain_record r then supported else experimental) f
              && not (flags.contains enabled f))
  unfolding require_record is_plain_record
  require_record-contains enabled f t r m = elim (Option-cases r.defining_target) [
    | inl e ↦ rw e (require_feature-contains enabled supported f none m)
    | inr (target, e) ↦
        elim (Bool-cases (contains template_instantiation_allowlist r.cc_preferred_name)) [
          | inl allowed ↦ rw (e, allowed) (require_feature-contains enabled supported f none m)
          | inr refused ↦
              rw (e, refused)
                (require_feature-contains enabled experimental f
                  (some (str_append (display t) " is a template instantiation")) m)
        ]
  ]

  require_type-contains :
      (enabled : FlagSet) (f : CrubitFeature) (t : RsTypeKind) (m : FlagSet × List String)
      → flags.contains (require_type flags display less enabled t m).0 f
        ≡ flags.contains m.0 f || (feature_eq (own_feature t) f && not (flags.contains enabled f))
  unfolding require_type own_feature
  require_type-contains enabled f (pointer t m) missing =
      require_feature-contains enabled supported f none missing
  require_type-contains enabled f (reference t m l) missing =
      require_feature-contains enabled experimental f (some "references are not supported") missing
  require_type-contains enabled f (rvalue_reference t m l) missing =
      require_feature-contains enabled experimental f (some "references are not supported") missing
  require_type-contains enabled f (func_ptr abi t ts) missing =
      elim (Bool-cases (string_eq.beq abi "C")) [
        | inl e ↦ rw e (require_feature-contains enabled supported f none missing)
        | inr e ↦ rw e (
            require_feature-contains enabled experimental f
              (some "functions must be not use a non-C calling convention") missing)
      ]
  require_type-contains enabled f (incomplete_type r path) missing =
      require_feature-contains enabled experimental f
        (some (str_append (display (incomplete_type r path)) " is not a complete type)")) missing
  require_type-contains enabled f (record_type r path known) missing =
      require_record-contains enabled f _ r missing
  require_type-contains enabled f (enum_type e path) missing =
      require_feature-contains enabled supported f none missing
  require_type-contains enabled f (alias_type a t path) missing =
      require_feature-contains enabled supported f none missing
  require_type-contains enabled f (primitive p) missing =
      require_feature-contains enabled supported f none missing
  require_type-contains enabled f (slice t) missing =
      require_feature-contains enabled supported f none missing
  require_type-contains enabled f (nullable t) missing =
      require_feature-contains enabled supported f none missing
  require_type-contains enabled f (bridge_type a b c r) missing =
      require_feature-contains enabled experimental f none missing
  require_type-contains enabled f (other_type name ts abi) missing =
      require_feature-contains enabled experimental f none missing

  require_all-contains :
      (enabled : FlagSet) (f : CrubitFeature) (ts : List RsTypeKind) (m : FlagSet × List String)
      → flags.contains (require_all flags display less enabled ts m).0 f
        ≡ flags.contains m.0 f
          || (any (λ u. feature_eq (own_feature u) f) ts && not (flags.contains enabled f))
  unfolding require_all
  require_all-contains enabled f [] m = ground arith
  require_all-contains enabled f (t ∷ ts) m = ground (
    arith,
    require_all-contains enabled f ts (require_type flags display less enabled t m),
    require_type-contains enabled f t m,
  )

  require_movable-contains :
      (enabled : FlagSet) (f : CrubitFeature) (type_location : TypeLocation) (t : RsTypeKind)
      → flags.contains (require_movable flags display less enabled type_location t).0 f
        ≡ (feature_eq experimental f && (not (type_is_unpin t) && is_by_value type_location))
          && not (flags.contains enabled f)
  unfolding require_movable
  require_movable-contains enabled f type_location t =
      elim (Bool-cases (not (type_is_unpin t) && is_by_value type_location)) [
        | inl e ↦ rw e (
            require_feature-contains enabled experimental f
              (some (
                str_append "<internal link>_relocatable_error: "
                  (str_append (display t) " is not rust-movable")))
              (default, [])
            ∙ ground (arith, flags.contains-default f))
        | inr e ↦ rw e (ground (arith, flags.contains-default f))
      ]

  -- A feature is reported as missing for a type exactly when it is not enabled and either it is
  -- `experimental` and the type is not movable and is passed by value, or one of the types in the
  -- type needs it.
  pub required_crubit_features-needs :
      (enabled : FlagSet) (type_location : TypeLocation) (t : RsTypeKind) (f : CrubitFeature)
      → flags.contains (required_crubit_features flags display less enabled type_location t).0 f
        ≡ needs f type_location t && not (flags.contains enabled f)
  unfolding required_crubit_features needs
  required_crubit_features-needs enabled type_location t f =
      ap
        (λ ts.
          flags.contains
            (require_all flags display less enabled ts
              (require_movable flags display less enabled type_location t)).0
            f)
        ((yielded-dfs_iter t 0).1)
      ∙ ground (
        arith,
        require_all-contains enabled f (preorder t)
            (require_movable flags display less enabled type_location t),
        require_movable-contains enabled f type_location t,
      )

  -- No feature is missing for a type exactly when every feature that it needs at this place is
  -- enabled.
  pub required_crubit_features-is_empty :
      (enabled : FlagSet) (type_location : TypeLocation) (t : RsTypeKind)
      → (flags.is_empty (required_crubit_features flags display less enabled type_location t).0
          ≡ true)
        ↔ ((f : CrubitFeature) → needs f type_location t ≡ true → flags.contains enabled f ≡ true)
  required_crubit_features-is_empty enabled type_location t =
      let missing = (required_crubit_features flags display less enabled type_location t).0 in
      (
        λ h f n. ground (
          arith,
          (flags.is_empty_iff missing).0 h f,
          required_crubit_features-needs enabled type_location t f,
        ),
        λ h. (flags.is_empty_iff missing).1 (λ f. elim (Bool-cases (needs f type_location t)) [
          | inl n ↦ ground (arith, h f n, required_crubit_features-needs enabled type_location t f)
          | inr n ↦ ground (arith, required_crubit_features-needs enabled type_location t f)
        ]),
      )
