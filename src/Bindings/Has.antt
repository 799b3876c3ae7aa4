-- ===== src/Bindings/Has.antt =====
-- lib.rs of generate_bindings: `has_bindings`.
use Prim.Native.String.{◌++◌ as str_append}
use crubit4rust.Base.{
  if◌then◌else◌, nat_eq, string_eq, Result, err, ok, ◌>>=◌, int_eq, ℕ, zero, suc, String, Bool,
  true, false, ◌&&◌, Option, none, some, List, [], ◌∷◌, ◌++◌,
}
use crubit4rust.Errors.{Error, other, context}
use crubit4rust.Features.{FlagSets, CrubitFeature, supported, experimental, aspect_hint}
use crubit4rust.Ir.{
  Failure, out_of_fuel, Item, func_item, record_item, type_alias_item, enclosing_item_id,
  find_untyped_decl, is_type_definition, debug_name,
}
use crubit4rust.RsSnippet.{joined}
use crubit4rust.Bindings.Missing.{panicked, failed, Required, Generator}
use crubit4rust.Bindings.Items.{item_required_features}

pub data NoBindingsReason (Features : Type 0) : Type 0 where
  missing_required_features : String → List (Required Features) → NoBindingsReason Features
  dependency_failed : String → Error → NoBindingsReason Features
  unsupported : String → Error → NoBindingsReason Features

pub data HasBindings (Features : Type 0) : Type 0 where
  yes maybe : HasBindings Features
  no : NoBindingsReason Features → HasBindings Features

abbrev pub is_record_item : Item → Bool
is_record_item (record_item _) = true
is_record_item _ = false

module _ (flags : FlagSets) (db : Generator flags) where
  open flags use {FlagSet}

  -- `RequiredCrubitFeature`'s `Display`; the features in the order of the flags.
  unfoldable pub display_required : Required FlagSet → String
  unfolding joined
  display_required r =
      let hint = λ (f : CrubitFeature).
        if flags.contains r.missing_features f then aspect_hint f ∷ [] else [] in
      let needs = str_append r.target (
        str_append " needs [" (
          str_append (joined (hint supported ++ hint experimental))
            (str_append "] for " r.item))) in
      if string_eq.beq r.capability_description ""
      then needs
      else str_append needs (str_append " (" (str_append r.capability_description ")"))

  -- `join("\n")` of the texts.
  unfoldable pub joined_lines : List (Required FlagSet) → String
  unfolding display_required
  joined_lines [] = ""
  joined_lines (r ∷ []) = display_required r
  joined_lines (r ∷ s ∷ rs) =
      str_append (display_required r) (str_append "\n" (joined_lines (s ∷ rs)))

  -- `From<NoBindingsReason> for Error`
  unfoldable pub error_from : NoBindingsReason FlagSet → Error
  unfolding joined_lines
  error_from (missing_required_features name missing) = other (
      str_append "Can't generate bindings for " (
        str_append name (
          str_append ", because of missing required features (<internal link>):\n"
            (joined_lines missing))))
  error_from (dependency_failed name error) =
      context
        (str_append "Can't generate bindings for "
          (str_append name " due to missing bindings for its dependency"))
        error
  error_from (unsupported name error) =
      context
        (str_append "Can't generate bindings for " (str_append name ", because it is unsupported"))
        error

  abbrev pub name_of : ℕ → Item → Result Failure String
  name_of fuel item = debug_name db.is_alphabetic fuel db.ir item

  -- The last match.
  unfoldable pub own_bindings : ℕ → Item → Result Failure (HasBindings FlagSet)
  unfolding debug_name
  own_bindings fuel (func_item x) = ok maybe
  own_bindings fuel (type_alias_item alias) = elim (db.rs_type_kind alias.underlying_type.rs_type) [
    | ok _ ↦ ok yes
    | err error ↦ do
      name ← name_of fuel (type_alias_item alias)
      ok (no (dependency_failed name error))
  ]
  own_bindings fuel _ = ok yes

  -- What the bindings of the parent say about an item.
  unfoldable pub under_parent :
      ℕ → Item → Item → HasBindings FlagSet → Result Failure (HasBindings FlagSet)
  unfolding error_from is_type_definition own_bindings debug_name
  under_parent fuel item parent (no no_parent_bindings) = do
    name ← name_of fuel item
    ok (no (dependency_failed name (error_from no_parent_bindings)))
  under_parent fuel item parent maybe = do
    name ← name_of fuel item
    ok (no (dependency_failed name (other "parent item might not be defined")))
  under_parent fuel item parent yes =
      if is_type_definition item && is_record_item parent
      then (name_of fuel item >>= λ name. ok (
          no (
            unsupported name
              (other "b/200067824: type definitions nested inside records are not yet supported"))))
      else own_bindings fuel item

  -- The first match: `none` where it goes on.
  unfoldable pub missing_bindings : ℕ → Item → Result Failure (Option (HasBindings FlagSet))
  unfolding item_required_features debug_name
  missing_bindings fuel item = elim (item_required_features flags db fuel item) [
    | err (panicked failure) ↦ err failure
    | err (failed error) ↦ do
      name ← name_of fuel item
      ok (some (no (dependency_failed name error)))
    | ok [] ↦ ok none
    | ok (m ∷ ms) ↦ do
      name ← name_of fuel item
      ok (some (no (missing_required_features name (m ∷ ms))))
  ]

  -- `has_bindings`; the parent is asked with one unit of fuel less.
  unfoldable pub has_bindings : ℕ → Item → Result Failure (HasBindings FlagSet)
  unfolding missing_bindings under_parent own_bindings enclosing_item_id find_untyped_decl
  has_bindings zero item = err out_of_fuel
  has_bindings (suc fuel) item = elim (missing_bindings fuel item) [
    | err failure ↦ err failure
    | ok (some result) ↦ ok result
    | ok none ↦ elim (enclosing_item_id item) [
      | none ↦ own_bindings fuel item
      | some parent_id ↦ elim (find_untyped_decl db.ir parent_id) [
        | err failure ↦ err failure
        | ok parent ↦ elim (has_bindings fuel parent) [
          | err failure ↦ err failure
          | ok of_parent ↦ under_parent fuel item parent of_parent
        ]
      ]
    ]
  ]
