-- ===== src/CodeGen/Qualifiers.antt =====
-- C++ identifiers and namespace paths: how their formatting fails.
use text.Mathlib.TextEquality.{eq_iff}
use crubit4rust.Base.{
  Bool-cases, Option-cases, All, nat_eq, string_eq, err, ok, int_eq, String, ◌≡◌, refl, subst, ◌≢◌,
  inl, inr, true, false, none, List, [], ◌∷◌, ◌++◌, arith,
}
use crubit4rust.CodeGen.{
  is_cpp_reserved_keyword, TokenStream, Syntax, reserved_keyword, no_first_char, format_from,
  first_char, format_cc_ident, cc_idents_of, format_for_cc, format_with_cc_body,
}

-- The empty text is no keyword.
not_keyword_empty : is_cpp_reserved_keyword "" ≡ false
unfolding is_cpp_reserved_keyword
not_keyword_empty = refl

no_first_char-empty : (name : String) → first_char name ≡ none → string_eq.beq name "" ≡ true
no_first_char-empty String.[] h = refl
no_first_char-empty (String.◌∷◌ c s) h = absurd (ground arith)

module _ (syntax : Syntax) where
  -- `format_cc_ident` does not panic: a name that is not empty has a first character.
  format_cc_ident-returns : (name : String) → format_cc_ident syntax name ≢ err no_first_char
  unfolding format_cc_ident format_from
  format_cc_ident-returns name h = elim (Option-cases (first_char name)) [
    | inl missing ↦ ground (arith, no_first_char-empty name missing)
    | inr (c, starts) ↦ ground (arith, Option-cases (syntax.parse_tokens name))
  ]

  format_cc_ident_keyword :
      (name : String)
      → is_cpp_reserved_keyword name ≡ true
      → format_cc_ident syntax name ≡ err (reserved_keyword name)
  unfolding format_cc_ident
  format_cc_ident_keyword name h = elim (Bool-cases (string_eq.beq name "")) [
    | inl empty ↦
        let e = (eq_iff name "").0 empty in
        absurd
          (ground (arith, not_keyword_empty, subst (λ n. is_cpp_reserved_keyword n ≡ true) e h))
    | inr other ↦ rw (other, h) refl
  ]

  -- A name that can be formatted.
  abbrev pub Formats : String → Type 0
  Formats name = (ts : TokenStream) × (format_cc_ident syntax name ≡ ok ts)

  cc_idents_of_keyword :
      (xs ys : List String) (k : String)
      → All Formats xs
      → is_cpp_reserved_keyword k ≡ true
      → cc_idents_of syntax (xs ++ k ∷ ys) ≡ err (reserved_keyword k)
  unfolding cc_idents_of
  cc_idents_of_keyword [] ys k h keyword = rw (format_cc_ident_keyword k keyword) refl
  cc_idents_of_keyword (x ∷ xs) ys k h keyword =
      rw (h.0.1) (rw (cc_idents_of_keyword xs ys k h.1 keyword) refl)

  -- A namespace path whose first name that cannot be formatted is a C++ keyword is refused with
  -- that keyword, as a prefix and around a body alike.
  pub format_for_cc_keyword :
      (xs ys : List String) (k : String) (body : TokenStream) (attributes : List TokenStream)
      → All Formats xs
      → is_cpp_reserved_keyword k ≡ true
      → (format_for_cc syntax (record { names = xs ++ k ∷ ys }) ≡ err (reserved_keyword k))
        × (format_with_cc_body syntax (record { names = xs ++ k ∷ ys }) body attributes
            ≡ err (reserved_keyword k))
  unfolding format_for_cc format_with_cc_body
  format_for_cc_keyword [] ys k body attributes h keyword =
      let e = cc_idents_of_keyword [] ys k h keyword in (ground arith, ground arith)
  format_for_cc_keyword (x ∷ xs) ys k body attributes h keyword =
      let e = cc_idents_of_keyword (x ∷ xs) ys k h keyword in (ground arith, ground arith)
