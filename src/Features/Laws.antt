-- ===== src/Features/Laws.antt =====
-- Reading feature names: round trip, and what a sequence of names grants.
use text.Mathlib.TextEquality.{eq_iff}
use crubit4rust.Base.{
  Bool, true, false, ◌||◌, List, [], ◌∷◌, none, some, String, string_eq, err, ◌≡◌, refl, arith, inl,
  inr, Option-cases, ◌⊎◌, All, ◌++◌,
}
use crubit4rust.Features.{
  FlagSets, CrubitFeature, supported, experimental, feature_eq, short_name, named_features,
  visit_bytes, visit_seq, visit_seq_from, unexpected_feature,
}

-- The names that stand for a set with `f` in it.
unfoldable pub grants : String → CrubitFeature → Bool
unfolding short_name
grants name f = string_eq.beq name "all" || string_eq.beq name (short_name f)

-- The names that `named_features` knows.
unfoldable pub is_feature_name : String → Bool
is_feature_name name =
    string_eq.beq name "all" || string_eq.beq name "supported" || string_eq.beq name "experimental"

feature_names :
    (f : CrubitFeature) → (feature_eq supported f ≡ true) ⊎ (feature_eq experimental f ≡ true)
feature_names supported = inl refl
feature_names experimental = inr refl

module _ (flags : FlagSets) where
  open flags use {FlagSet, contains}

  pub named_features-grants :
      (name : String) (s : FlagSet) (f : CrubitFeature)
      → named_features flags name ≡ some s
      → contains s f ≡ grants name f
  unfolding named_features grants
  named_features-grants name s f h = ground (
    arith,
    flags.contains-full f,
    flags.contains-from supported f,
    flags.contains-from experimental f,
    feature_names f,
    eq_iff name "all",
    eq_iff name "supported",
    eq_iff name "experimental",
    eq_iff "supported" "experimental",
    eq_iff "experimental" "supported",
  )

  named_features-known :
      (name : String)
      → is_feature_name name ≡ true
      → (s : FlagSet) × (named_features flags name ≡ some s)
  unfolding named_features is_feature_name
  named_features-known name h = elim (Option-cases (named_features flags name)) [
    | inl unknown ↦ absurd (ground arith)
    | inr known ↦ known
  ]

  named_features_unknown :
      (name : String) → is_feature_name name ≡ false → named_features flags name ≡ none
  unfolding named_features is_feature_name
  named_features_unknown name h = ground arith

  visit_seq_from_unknown :
      (xs ys : List String) (n : String) (result : FlagSet)
      → All (λ x. is_feature_name x ≡ true) xs
      → is_feature_name n ≡ false
      → visit_seq_from flags result (xs ++ n ∷ ys) ≡ err (unexpected_feature n)
  unfolding visit_seq_from visit_bytes
  visit_seq_from_unknown [] ys n result known unknown =
      ground (arith, named_features_unknown n unknown)
  visit_seq_from_unknown (x ∷ xs) ys n result known unknown =
      let (s, found) = named_features-known x known.0 in
      let later = visit_seq_from_unknown xs ys n (flags.union result s) known.1 unknown in
      ground arith

  -- A sequence of names is refused at the first name that is none of `all`, `supported` and
  -- `experimental`, and the error holds that name.
  pub visit_seq_unknown :
      (xs ys : List String) (n : String)
      → All (λ x. is_feature_name x ≡ true) xs
      → is_feature_name n ≡ false
      → visit_seq flags (xs ++ n ∷ ys) ≡ err (unexpected_feature n)
  unfolding visit_seq
  visit_seq_unknown xs ys n = visit_seq_from_unknown xs ys n flags.default
