-- ===== src/Features/Tests.antt =====
-- Feature names read into two Booleans.
use crubit4rust.Base.{[], ◌∷◌, err, ◌≡◌, refl}
use crubit4rust.Features.{
  visit_seq, short_name, named_features, visit_bytes, visit_seq_from, unexpected_feature,
}
use crubit4rust.Features.Laws.{visit_seq_unknown, is_feature_name, grants}
use crubit4rust.Features.Pair.{pairs}

program : Unit {0}
unfolding short_name named_features visit_bytes visit_seq_from visit_seq is_feature_name grants
program = tt

visit_seq_unknown_example :
    visit_seq pairs ("supported" ∷ "Supported" ∷ "all" ∷ []) ≡ err (unexpected_feature "Supported")
unfolding program
visit_seq_unknown_example =
    visit_seq_unknown pairs ("supported" ∷ []) ("all" ∷ []) "Supported" (refl, tt) refl
