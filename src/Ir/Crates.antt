-- ===== src/Ir/Crates.antt =====
-- `rs_imported_crate_name` of ir.rs, and a text as the list of its code points and back.
use Prim.Native.Char.{Char, char, code, nul}
use Prim.Native.Nat.{compare, Ordering}
use crubit4rust.Base.{
  if◌then◌else◌, nat_eq, string_eq, Result, err, ok, int_eq, ℕ, String, ◌≡◌, refl, ◌⊎◌, inl, inr,
  Bool, Option, none, some, List, [], ◌∷◌,
}
use crubit4rust.CodeGen.{Token, Syntax, make_rs_ident}
use crubit4rust.Ir.Types.{BazelLabel}
use crubit4rust.Ir.Build.{Ir, Failure, refused_ident}
use crubit4rust.Ir.Queries.{is_current_target}
use crubit4rust.Ir.Labels.{target_name_escaped}

-- The code points of a text.
unfoldable pub code_points : String → List ℕ
code_points String.[] = []
code_points (String.◌∷◌ c s) = code c ∷ code_points s

abbrev pub below-cases : (o : Ordering) → (o ≡ Ordering.lt) ⊎ (Unit {0})
below-cases Ordering.lt = inl refl
below-cases Ordering.eq = inr tt
below-cases Ordering.gt = inr tt

-- The character of a code point below `0xD800`, as all are that `target_name_escaped` leaves.
unfoldable pub char_of : ℕ → Char
char_of n = elim (below-cases (compare n 55296)) [ inl e ↦ char n (rw e tt) | inr _ ↦ nul ]

unfoldable pub text_of : List ℕ → String
unfolding char_of
text_of [] = String.[]
text_of (n ∷ ns) = String.◌∷◌ (char_of n) (text_of ns)

module _ (syntax : Syntax) (is_numeric : ℕ → Bool) {Features : Type 0} where
  unfoldable pub rs_imported_crate_name : BazelLabel → Ir Features → Result Failure (Option Token)
  unfolding code_points text_of target_name_escaped make_rs_ident
  rs_imported_crate_name owning_target ir =
      if is_current_target ir owning_target
      then ok none
      else elim (make_rs_ident syntax
          (text_of (target_name_escaped is_numeric (code_points owning_target)))) [
            | none ↦ err refused_ident
            | some owning_crate ↦ ok (some owning_crate)
          ]
