-- ===== src/Layout/Fields.antt =====
-- generate_record.rs: the type of a field for the layout, and the bounds of the fields. What
-- rs_snippet.rs asks for (the text of a type, the order of texts, the query `db.rs_type_kind`) is a
-- parameter here as there.
use crubit4rust.Base.{
  if◌then◌else◌, nat_eq, string_eq, Result, err, ok, ◌>>=◌, int_eq, String, Bool, not, ◌&&◌, Option,
  none, some, List, [], ◌∷◌,
}
use crubit4rust.Errors.{Error}
use crubit4rust.Features.{FlagSets, experimental}
use crubit4rust.Ir.{Ir, Record, Field, RsType, BazelLabel, target_crubit_features, is_union}
use crubit4rust.RsSnippet.{
  RsTypeKind, elsewhere, required_crubit_features, needs_manually_drop, should_implement_drop,
}

-- Why a field has no type of its own.
pub data LayoutError (Features : Type 0) : Type 0 where
  no_unique_address : LayoutError Features
  unknown_field_attributes : BazelLabel → String → LayoutError Features
  no_field_type : String → LayoutError Features
  no_type_kind : Error → LayoutError Features
  missing_field_features : Features → String → LayoutError Features
  wrong_destruction_order : LayoutError Features

-- `record.defining_target.iter().chain([&record.owning_target])`
abbrev pub record_targets : Record → List BazelLabel
record_targets r = elim r.defining_target [
  | none ↦ r.owning_target ∷ []
  | some target ↦ target ∷ r.owning_target ∷ []
]

-- A loop of `ensure!`: the first error.
unfoldable pub each_target :
    {E : Type 0} → (BazelLabel → Result E (Unit {0})) → List BazelLabel → Result E (Unit {0})
each_target check [] = ok tt
each_target check (target ∷ targets) = do _ ← check target; each_target check targets

module _ (flags : FlagSets) (display : RsTypeKind → String) (less : String → String → Bool)
    (rs_type_kind : RsType → Result Error RsTypeKind) (ir : Ir (flags.FlagSet)) where
  open flags use {FlagSet, contains, default, is_empty}

  abbrev pub enabled_features : BazelLabel → FlagSet
  enabled_features target = target_crubit_features default ir target

  -- The features of a target have to contain `experimental`.
  unfoldable pub ensure_experimental :
      LayoutError FlagSet → BazelLabel → Result (LayoutError FlagSet) (Unit {0})
  unfolding target_crubit_features
  ensure_experimental error target =
      if contains (enabled_features target) experimental then ok tt else err error

  unfoldable pub check_attributes : Record → Option String → Result (LayoutError FlagSet) (Unit {0})
  unfolding each_target ensure_experimental
  check_attributes r none = ok tt
  check_attributes r (some unknown_attr) =
      each_target
        (λ target. ensure_experimental (unknown_field_attributes target unknown_attr) target)
        (record_targets r)

  unfoldable pub check_features : RsTypeKind → BazelLabel → Result (LayoutError FlagSet) (Unit {0})
  unfolding target_crubit_features required_crubit_features
  check_features t target =
      let (missing, reason) =
        required_crubit_features flags display less (enabled_features target) elsewhere t in
      if is_empty missing then ok tt else err (missing_field_features missing reason)

  unfoldable pub check_destruction : Record → RsTypeKind → Result (LayoutError FlagSet) (Unit {0})
  unfolding each_target ensure_experimental should_implement_drop needs_manually_drop is_union
  check_destruction r t =
      if should_implement_drop r && not (is_union r) && needs_manually_drop t
      then each_target (ensure_experimental wrong_destruction_order) (record_targets r)
      else ok tt

  -- `match &field.type_`
  unfoldable pub field_type_kind : Field → Result (LayoutError FlagSet) RsTypeKind
  field_type_kind field = elim field.type_ [
    | err e ↦ err (no_field_type e)
    | ok t ↦ elim (rs_type_kind t.rs_type) [ err error ↦ err (no_type_kind error) | ok k ↦ ok k ]
  ]

  unfoldable pub get_field_rs_type_kind_for_layout :
      Record → Field → Result (LayoutError FlagSet) RsTypeKind
  unfolding check_attributes check_features check_destruction field_type_kind each_target
  get_field_rs_type_kind_for_layout r field =
      if field.is_no_unique_address then err no_unique_address else do
        _ ← check_attributes r field.unknown_attr
        type_kind ← field_type_kind field
        _ ← each_target (check_features type_kind) (record_targets r)
        _ ← check_destruction r type_kind
        ok type_kind
