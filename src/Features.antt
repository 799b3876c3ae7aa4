-- ===== src/Features.antt =====
-- common/crubit_feature.rs: the feature flags, and how they are read from the IR.
-- The crate `flagset` is the parameter `FlagSets`, with what its documentation promises: a set of
-- flags is known by what it contains.
pub mod Laws
pub mod Pair
mod Tests
use crubit4rust.Base.{
  Bool, true, false, not, ◌&&◌, ◌||◌, List, [], ◌∷◌, Option, none, some, String, string_eq, Eq,
  Result, ok, err, ◌>>=◌, ◌≡◌, ◌↔◌, if◌then◌else◌,
}

pub data CrubitFeature : Type 0 where
  supported experimental : CrubitFeature

abbrev pub feature_eq : CrubitFeature → CrubitFeature → Bool
feature_eq supported supported = true
feature_eq supported experimental = false
feature_eq experimental supported = false
feature_eq experimental experimental = true

-- `flagset::FlagSet<CrubitFeature>`.
pub record FlagSets : Type 1 where
  pub FlagSet : Type 0
  pub contains : FlagSet → CrubitFeature → Bool
  pub default : FlagSet
  pub full : FlagSet
  pub from : CrubitFeature → FlagSet
  pub union : FlagSet → FlagSet → FlagSet
  pub intersection : FlagSet → FlagSet → FlagSet
  pub difference : FlagSet → FlagSet → FlagSet
  pub is_empty : FlagSet → Bool
  pub contains-default : (f : CrubitFeature) → contains default f ≡ false
  pub contains-full : (f : CrubitFeature) → contains full f ≡ true
  pub contains-from : (g f : CrubitFeature) → contains (from g) f ≡ feature_eq g f
  pub contains-union :
      (a b : FlagSet) (f : CrubitFeature) → contains (union a b) f ≡ contains a f || contains b f
  pub contains-intersection :
      (a b : FlagSet) (f : CrubitFeature)
      → contains (intersection a b) f ≡ contains a f && contains b f
  pub contains-difference :
      (a b : FlagSet) (f : CrubitFeature)
      → contains (difference a b) f ≡ contains a f && not (contains b f)
  pub is_empty_iff :
      (a : FlagSet) → (is_empty a ≡ true) ↔ ((f : CrubitFeature) → contains a f ≡ false)

-- `CrubitFeature::short_name`
pub short_name : CrubitFeature → String
short_name supported = "supported"
short_name experimental = "experimental"

-- `CrubitFeature::aspect_hint`
pub aspect_hint : CrubitFeature → String
aspect_hint supported = "//features:supported"
aspect_hint experimental = "//features:experimental"

-- What `visit_bytes` reports: the name that it does not know.
pub data UnexpectedFeature : Type 0 where
  unexpected_feature : String → UnexpectedFeature

module _ (flags : FlagSets) where
  open flags use {FlagSet, default, full, from, union}

  pub named_features : String → Option FlagSet
  named_features name =
      if string_eq.beq name "all"
      then some full
      else if string_eq.beq name "supported"
      then some (from supported)
      else if string_eq.beq name "experimental"
      then some (from experimental)
      else none

  -- `CrubitFeatureVisitor::visit_bytes`
  pub visit_bytes : String → Result UnexpectedFeature FlagSet
  visit_bytes bytes = elim (named_features bytes) [
    | none ↦ err (unexpected_feature bytes)
    | some features ↦ ok features
  ]

  -- The loop of `CrubitFeaturesVisitor::visit_seq`, from `result` on.
  pub visit_seq_from : FlagSet → List String → Result UnexpectedFeature FlagSet
  visit_seq_from result [] = ok result
  visit_seq_from result (name ∷ names) = do
    f ← visit_bytes name
    visit_seq_from (union result f) names

  -- `CrubitFeaturesVisitor::visit_seq`
  pub visit_seq : List String → Result UnexpectedFeature FlagSet
  visit_seq names = visit_seq_from default names
