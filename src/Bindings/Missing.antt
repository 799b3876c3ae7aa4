-- ===== src/Bindings/Missing.antt =====
-- lib.rs of generate_bindings: `required_crubit_features`, the features that an item needs and its
-- targets do not enable. A panic stops everything; an error is a value.
use Prim.Native.String.{◌++◌ as str_append}
use crubit4rust.Base.{
  if◌then◌else◌, nat_eq, string_eq, Result, err, ok, ◌>>=◌, int_eq, ℕ, String, Bool, true, false,
  none, some, List, [], ◌∷◌, ◌++◌,
}
use crubit4rust.CodeGen.{Syntax}
use crubit4rust.Errors.{Error}
use crubit4rust.Features.{FlagSets, CrubitFeature, experimental}
use crubit4rust.Ir.{
  Ir, Failure, expected_namespace, namespaces_in_record, no_associated_item, wrong_type, Item,
  RsType, BazelLabel, TemplateArg, UnqualifiedIdentifier, destructor_name, identifier, operator,
  constructor_name, target_crubit_features, defining_target, owning_target, debug_name,
}
use crubit4rust.RsSnippet.{
  RsTypeKind, TypeLocation, required_crubit_features, KindError, ir_failure, query_error,
  no_bridge_type_info, slice_parameters,
}

pub data Stop : Type 0 where
  panicked : Failure → Stop
  failed : Error → Stop

-- `RequiredCrubitFeature`
pub record Required (Features : Type 0) : Type 0 where
  pub target : BazelLabel
  pub item : String
  pub missing_features : Features
  pub capability_description : String

-- The failures of the IR that are errors, and no panics.
abbrev pub is_error : Failure → Bool
is_error expected_namespace = true
is_error (wrong_type _) = true
is_error no_associated_item = true
is_error namespaces_in_record = true
is_error _ = false

abbrev pub is_destructor : UnqualifiedIdentifier → Bool
is_destructor destructor_name = true
is_destructor (identifier _) = false
is_destructor (operator _) = false
is_destructor constructor_name = false

abbrev pub or_panic : {A : Type 0} → Result Failure A → Result Stop A
or_panic (ok a) = ok a
or_panic (err failure) = err (panicked failure)

abbrev pub or_error : {A : Type 0} → Result Error A → Result Stop A
or_error (ok a) = ok a
or_error (err error) = err (failed error)

-- What the code calls elsewhere: `Display` of a type, the order of texts, `char::is_numeric` and
-- `char::is_alphabetic`, the decimal text of a number, the query `db.rs_type_kind`, the derived
-- equality of template arguments, the text of an error, and the crates' functions on identifiers.
pub record Generator (flags : FlagSets) : Type 0 where
  pub ir : Ir (flags.FlagSet)
  pub display : RsTypeKind → String
  pub less : String → String → Bool
  pub is_numeric : ℕ → Bool
  pub is_alphabetic : ℕ → Bool
  pub decimal : ℕ → String
  pub rs_type_kind : RsType → Result Error RsTypeKind
  pub same_arg : TemplateArg → TemplateArg → Bool
  pub describe : KindError → Error
  pub syntax : Syntax

module _ (flags : FlagSets) (db : Generator flags) where
  open flags use {FlagSet, default, from, intersection, is_empty}

  abbrev pub or_stop : {A : Type 0} → Result KindError A → Result Stop A
  or_stop (ok a) = ok a
  or_stop (err (query_error error)) = err (failed error)
  or_stop (err (no_bridge_type_info r)) = err (failed (db.describe (no_bridge_type_info r)))
  or_stop (err (slice_parameters n)) = err (failed (db.describe (slice_parameters n)))
  or_stop (err (ir_failure failure)) =
      if is_error failure
      then err (failed (db.describe (ir_failure failure)))
      else err (panicked failure)

  -- `item.debug_name(ir)`; the fuel is that of `debug_name`.
  unfoldable pub name_of_item : ℕ → Item → Result Stop String
  unfolding debug_name
  name_of_item fuel item = or_panic (debug_name db.is_alphabetic fuel db.ir item)

  -- `item.defining_target().into_iter().chain(item.owning_target())`
  unfoldable pub item_targets : Item → List BazelLabel
  unfolding defining_target owning_target
  item_targets item =
      elim (defining_target item) [ none ↦ [] | some target ↦ target ∷ [] ]
      ++ elim (owning_target item) [ none ↦ [] | some target ↦ target ∷ [] ]

  -- One target of `require_any_feature`.
  unfoldable pub lacks_any : FlagSet → BazelLabel → Bool
  unfolding target_crubit_features
  lacks_any alternatives target =
      is_empty (intersection alternatives (target_crubit_features default db.ir target))

  -- The closure `require_any_feature`.
  unfoldable pub require_any_feature :
      ℕ → Item → FlagSet → String → List BazelLabel → Result Stop (List (Required FlagSet))
  unfolding lacks_any name_of_item
  require_any_feature fuel item alternatives description [] = ok []
  require_any_feature fuel item alternatives description (target ∷ targets) =
      let rest = require_any_feature fuel item alternatives description targets in
      if lacks_any alternatives target
      then (name_of_item fuel item >>= λ name. rest >>= λ more. ok (
          record {
            target = target;
            item = name;
            missing_features = alternatives;
            capability_description = description;
          }
          ∷ more))
      else rest

  -- `capability_description` in `require_rs_type_kind`
  unfoldable pub describe_capability : String → String → String
  describe_capability desc context_ =
      if string_eq.beq desc ""
      then context_
      else if string_eq.beq context_ ""
      then desc
      else str_append context_ (str_append ": " desc)

  -- The closure `require_rs_type_kind`.
  unfoldable pub require_rs_type_kind :
      ℕ
      → Item
      → RsTypeKind
      → TypeLocation
      → String
      → List BazelLabel
      → Result Stop (List (Required FlagSet))
  unfolding target_crubit_features required_crubit_features describe_capability name_of_item
  require_rs_type_kind fuel item t type_location context_ [] = ok []
  require_rs_type_kind fuel item t type_location context_ (target ∷ targets) =
      let rest = require_rs_type_kind fuel item t type_location context_ targets in
      let (missing, desc) =
        required_crubit_features flags db.display db.less
          (target_crubit_features default db.ir target) type_location t in
      if is_empty missing
      then rest
      else (name_of_item fuel item >>= λ name. rest >>= λ more. ok (
          record {
            target = target;
            item = name;
            missing_features = missing;
            capability_description = describe_capability desc context_;
          }
          ∷ more))

  -- Both closures, with the targets of the item.
  unfoldable pub any_feature :
      ℕ → Item → CrubitFeature → String → Result Stop (List (Required FlagSet))
  unfolding require_any_feature item_targets
  any_feature fuel item feature description =
      require_any_feature fuel item (from feature) description (item_targets item)

  unfoldable pub type_feature :
      ℕ → Item → RsTypeKind → TypeLocation → String → Result Stop (List (Required FlagSet))
  unfolding require_rs_type_kind item_targets
  type_feature fuel item t type_location context_ =
      require_rs_type_kind fuel item t type_location context_ (item_targets item)

  -- A requirement under a condition.
  unfoldable pub feature_if : Bool → ℕ → Item → String → Result Stop (List (Required FlagSet))
  unfolding any_feature
  feature_if condition fuel item description =
      if condition then any_feature fuel item experimental description else ok []
