-- ===== src/Bindings/Enabled.antt =====
-- `required_crubit_features` of lib.rs where every feature is enabled.
use Prim.Native.String.{◌++◌ as str_append}
use crubit4rust.Base.{
  if◌then◌else◌, Bool-cases, All, nat_eq, string_eq, Result, ok, ◌>>=◌, >>=-eq-ok, ok-injective,
  int_eq, ℕ, ◌+◌, String, ◌≡◌, refl, sym, ap₂, ◌∙◌, inl, inr, Bool, true, false, not, Option, none,
  some, List, [], ◌∷◌, ◌++◌, arith,
}
use crubit4rust.Features.{FlagSets, CrubitFeature, supported, experimental, feature_eq}
use crubit4rust.Ir.{
  BazelLabel, Item, func_item, incomplete_record_item, record_item, enum_item, type_alias_item,
  unsupported_item, comment_item, namespace_item, use_mod_item, type_map_override_item, Func,
  FuncParam, target_crubit_features, unknown_attr,
}
use crubit4rust.RsSnippet.{RsTypeKind, TypeLocation, fn_param, fn_return, elsewhere}
use crubit4rust.RsSnippet.Missing.{required_crubit_features-is_empty}
use crubit4rust.Bindings.{
  item_targets, Stop, Generator, Required, lacks_any, require_any_feature, require_rs_type_kind,
  any_feature, type_feature, feature_if, attribute_feature, param_types_features,
  param_attributes_features, signature_features, kind_features, item_required_features, ◌and_then◌,
  is_destructor, is_some,
}

feature_eq_refl : (f : CrubitFeature) → feature_eq f f ≡ true
feature_eq_refl supported = refl
feature_eq_refl experimental = refl

-- A computation that finds nothing missing, if it does not stop.
NoneMissing : {R : Type 0} → Result Stop (List R) → Type 0
NoneMissing {R} r = (rs : List R) → r ≡ ok rs → rs ≡ []

nothing-NoneMissing : {R : Type 0} (r : Result Stop (List R)) → r ≡ ok [] → NoneMissing r
unfolding NoneMissing
nothing-NoneMissing r e rs h = ok-injective (sym h ∙ e)

>>=-NoneMissing :
    {A R : Type 0} (r : Result Stop A) (next : A → Result Stop (List R))
    → ((a : A) → NoneMissing (next a))
    → NoneMissing (r >>= next)
unfolding NoneMissing
>>=-NoneMissing r next n rs h = let (a, e, k) = >>=-eq-ok r next h in n a rs k

and_then-NoneMissing :
    {R : Type 0} (a b : Result Stop (List R))
    → NoneMissing a
    → NoneMissing b
    → NoneMissing (a and_then b)
unfolding NoneMissing ◌and_then◌
and_then-NoneMissing a b m n rs h =
    let (xs, e, k) = >>=-eq-ok a (λ xs. b >>= λ ys. ok (xs ++ ys)) h in
    let (ys, f, l) = >>=-eq-ok b (λ ys. ok (xs ++ ys)) k in
    sym (ok-injective l) ∙ ap₂ (λ us vs. us ++ vs) (m xs e) (n ys f)

module _ (flags : FlagSets) (db : Generator flags) where
  open flags use {FlagSet, default, from, intersection, is_empty}

  -- Every feature is enabled for the target.
  abbrev pub Enables : BazelLabel → Type 0
  Enables target =
      (f : CrubitFeature) → flags.contains (target_crubit_features default db.ir target) f ≡ true

  lacks_any-from :
      (f : CrubitFeature) (target : BazelLabel)
      → Enables target
      → lacks_any flags db (from f) target ≡ false
  unfolding lacks_any
  lacks_any-from f target on =
      let enabled_here = target_crubit_features default db.ir target in
      elim (Bool-cases (is_empty (intersection (from f) enabled_here))) [
        | inr e ↦ e
        | inl e ↦ absurd (
            ground (
              arith,
              (flags.is_empty_iff (intersection (from f) enabled_here)).0 e f,
              flags.contains-intersection (from f) enabled_here f,
              flags.contains-from f f,
              feature_eq_refl f,
              on f,
            ))
      ]

  require_any_feature-nothing :
      (fuel : ℕ) (item : Item) (f : CrubitFeature) (description : String)
      (targets : List BazelLabel)
      → All Enables targets
      → require_any_feature flags db fuel item (from f) description targets ≡ ok []
  unfolding require_any_feature
  require_any_feature-nothing fuel item f description [] on = refl
  require_any_feature-nothing fuel item f description (target ∷ targets) on =
      rw (lacks_any-from f target on.0)
        (require_any_feature-nothing fuel item f description targets on.1)

  require_rs_type_kind-nothing :
      (fuel : ℕ) (item : Item) (t : RsTypeKind) (type_location : TypeLocation) (context_ : String)
      (targets : List BazelLabel)
      → All Enables targets
      → require_rs_type_kind flags db fuel item t type_location context_ targets ≡ ok []
  unfolding require_rs_type_kind
  require_rs_type_kind-nothing fuel item t type_location context_ [] on = refl
  require_rs_type_kind-nothing fuel item t type_location context_ (target ∷ targets) on =
      let empty =
        (required_crubit_features-is_empty flags db.display db.less
            (target_crubit_features default db.ir target) type_location t).1
          (λ f n. on.0 f) in
      rw empty (require_rs_type_kind-nothing fuel item t type_location context_ targets on.1)

  -- The lemmas below are about one item, whose targets enable every feature.
  module _ (fuel : ℕ) (item : Item) (on : All Enables (item_targets flags db item)) where
    any_feature-NoneMissing :
        (f : CrubitFeature) (description : String)
        → NoneMissing (any_feature flags db fuel item f description)
    unfolding any_feature
    any_feature-NoneMissing f description =
        nothing-NoneMissing _ (require_any_feature-nothing fuel item f description _ on)

    type_feature-NoneMissing :
        (t : RsTypeKind) (type_location : TypeLocation) (context_ : String)
        → NoneMissing (type_feature flags db fuel item t type_location context_)
    unfolding type_feature
    type_feature-NoneMissing t type_location context_ =
        nothing-NoneMissing _ (require_rs_type_kind-nothing fuel item t type_location context_ _ on)

    feature_if-NoneMissing :
        (condition : Bool) (description : String)
        → NoneMissing (feature_if flags db condition fuel item description)
    unfolding feature_if
    feature_if-NoneMissing true description = any_feature-NoneMissing experimental description
    feature_if-NoneMissing false description = nothing-NoneMissing _ refl

    attribute_feature-NoneMissing :
        (prefix : String) (attr : Option String)
        → NoneMissing (attribute_feature flags db fuel item prefix attr)
    unfolding attribute_feature
    attribute_feature-NoneMissing prefix none = nothing-NoneMissing _ refl
    attribute_feature-NoneMissing prefix (some attr) =
        any_feature-NoneMissing experimental (str_append prefix attr)

    param_types_features-NoneMissing :
        (i : ℕ) (params : List FuncParam)
        → NoneMissing (param_types_features flags db fuel item i params)
    unfolding param_types_features
    param_types_features-NoneMissing i [] = nothing-NoneMissing _ refl
    param_types_features-NoneMissing i (param ∷ params) = >>=-NoneMissing _ _ (λ t.
        and_then-NoneMissing _ _
          (type_feature-NoneMissing t fn_param (
            str_append "the type of " (
              str_append param.identifier.identifier
                (str_append " (parameter #" (str_append (db.decimal i) ")")))))
          (param_types_features-NoneMissing (i + 1) params))

    param_attributes_features-NoneMissing :
        (params : List FuncParam)
        → NoneMissing (param_attributes_features flags db fuel item params)
    unfolding param_attributes_features
    param_attributes_features-NoneMissing [] = nothing-NoneMissing _ refl
    param_attributes_features-NoneMissing (param ∷ params) =
        and_then-NoneMissing _ _ (attribute_feature-NoneMissing _ param.unknown_attr)
          (param_attributes_features-NoneMissing params)

    signature_features-NoneMissing :
        (func : Func) → NoneMissing (signature_features flags db fuel item func)
    unfolding signature_features
    signature_features-NoneMissing func = >>=-NoneMissing _ _ (λ t.
        and_then-NoneMissing _ _ (type_feature-NoneMissing t fn_return "return type") (
          and_then-NoneMissing _ _ (param_types_features-NoneMissing 0 func.params) (
            and_then-NoneMissing _ _
              (any_feature-NoneMissing supported
                (if func.is_extern_c then "extern \"C\" function" else "non-extern \"C\" function"))
              (and_then-NoneMissing _ _
                (feature_if-NoneMissing (not func.has_c_calling_convention)
                  "non-C calling convention")
                (and_then-NoneMissing _ _
                  (feature_if-NoneMissing func.is_noreturn "[[noreturn]] attribute")
                  (and_then-NoneMissing _ _
                    (feature_if-NoneMissing (is_some func.nodiscard) "[[nodiscard]] attribute")
                    (and_then-NoneMissing _ _
                      (feature_if-NoneMissing (is_some func.deprecated) "[[deprecated]] attribute")
                      (param_attributes_features-NoneMissing func.params))))))))

  kind_features-NoneMissing :
      (fuel : ℕ) (item : Item)
      → All Enables (item_targets flags db item)
      → NoneMissing (kind_features flags db fuel item)
  unfolding kind_features
  kind_features-NoneMissing fuel (unsupported_item x) on = nothing-NoneMissing _ refl
  kind_features-NoneMissing fuel (func_item func) on = elim (Bool-cases (is_destructor func.name)) [
    | inl e ↦ rw e (any_feature-NoneMissing fuel (func_item func) on supported "destructors")
    | inr e ↦ rw e (signature_features-NoneMissing fuel (func_item func) on func)
  ]
  kind_features-NoneMissing fuel (record_item r) on =
      >>=-NoneMissing _ _ (λ t. type_feature-NoneMissing fuel (record_item r) on t elsewhere "")
  kind_features-NoneMissing fuel (type_alias_item a) on =
      >>=-NoneMissing _ _ (λ t. type_feature-NoneMissing fuel (type_alias_item a) on t elsewhere "")
  kind_features-NoneMissing fuel (enum_item e) on =
      >>=-NoneMissing _ _ (λ t. type_feature-NoneMissing fuel (enum_item e) on t elsewhere "")
  kind_features-NoneMissing fuel (namespace_item x) on =
      any_feature-NoneMissing fuel (namespace_item x) on supported "namespace"
  kind_features-NoneMissing fuel (incomplete_record_item x) on =
      any_feature-NoneMissing fuel (incomplete_record_item x) on experimental "incomplete type"
  kind_features-NoneMissing fuel (comment_item x) on = nothing-NoneMissing _ refl
  kind_features-NoneMissing fuel (use_mod_item x) on = nothing-NoneMissing _ refl
  kind_features-NoneMissing fuel (type_map_override_item x) on =
      any_feature-NoneMissing fuel (type_map_override_item x) on experimental "type map override"

  -- If the targets of an item enable every feature, the item misses none: where the list of missing
  -- features is computed, it is empty.
  pub item_required_features-Enables :
      (fuel : ℕ) (item : Item) (missing : List (Required FlagSet))
      → All Enables (item_targets flags db item)
      → item_required_features flags db fuel item ≡ ok missing
      → missing ≡ []
  unfolding item_required_features NoneMissing
  item_required_features-Enables fuel item missing on h =
      and_then-NoneMissing
        (attribute_feature flags db fuel item "unknown attribute(s): " (unknown_attr item))
        (kind_features flags db fuel item)
        (attribute_feature-NoneMissing fuel item on "unknown attribute(s): " (unknown_attr item))
        (kind_features-NoneMissing fuel item on) missing h
