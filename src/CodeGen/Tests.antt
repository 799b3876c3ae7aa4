-- ===== src/CodeGen/Tests.antt =====
-- Names of the unit tests of code_gen_utils.rs, and the theorems at concrete names.
use crubit4rust.Base.{ℕ, List, [], ◌∷◌, some, err, ◌≡◌, refl, arith}
use crubit4rust.CodeGen.{
  hex_digit, hex8, escape_char, escape_from, escape_non_identifier_chars, is_cpp_reserved_keyword,
  ident, format_cc_ident, reserved_keyword, format_for_cc, format_with_cc_body, invalid_start,
  make_rs_ident, format_for_rs,
}
use crubit4rust.CodeGen.Escape.{
  escape_non_identifier_chars_inj, escape_non_identifier_chars-ident, Starts, Continues,
}
use crubit4rust.CodeGen.Qualifiers.{Formats, format_for_cc_keyword}
use crubit4rust.CodeGen.Ascii.{letter, letter_or_digit, ascii, ascii-XidLaws}

program : Unit {0}
unfolding hex_digit hex8 escape_char escape_from escape_non_identifier_chars is_cpp_reserved_keyword
    format_cc_ident make_rs_ident format_for_rs
program = tt

-- `a_$` and a byte that is no letter.
abbrev symbol : List ℕ
symbol = b'a' ∷ b'_' ∷ b'$' ∷ b' ' ∷ []

abbrev escaped : List ℕ
escaped =
    b'a' ∷ b'_' ∷ b'u' ∷ b'_' ∷ b'd' ∷ b'_' ∷ b'x' ∷ b'0' ∷ b'0' ∷ b'0' ∷ b'0' ∷ b'0' ∷ b'0' ∷ b'2'
    ∷ b'0' ∷ []

symbol-escaped : escape_non_identifier_chars letter letter_or_digit symbol ≡ escaped
unfolding program
symbol-escaped = refl

escape_non_identifier_chars_inj_example : symbol ≡ symbol
escape_non_identifier_chars_inj_example =
    escape_non_identifier_chars_inj letter letter_or_digit symbol symbol (omega arith) (omega arith)
      refl

escape_non_identifier_chars-ident_example :
    Starts letter letter_or_digit (escape_non_identifier_chars letter letter_or_digit symbol)
    × Continues letter letter_or_digit (escape_non_identifier_chars letter letter_or_digit symbol)
escape_non_identifier_chars-ident_example =
    escape_non_identifier_chars-ident letter letter_or_digit ascii-XidLaws symbol

tuple_field : format_cc_ident ascii "0" ≡ err (invalid_start b'0')
unfolding program
tuple_field = refl

awaited : make_rs_ident ascii "await" ≡ some (ident "r#await")
unfolding program
awaited = refl

foo-Formats : Formats ascii "foo"
unfolding program
foo-Formats = (ident "foo" ∷ [], refl)

format_for_cc_keyword_example :
    (format_for_cc ascii (record { names = "foo" ∷ "int" ∷ "bar" ∷ [] })
      ≡ err (reserved_keyword "int"))
    × (format_with_cc_body ascii (record { names = "foo" ∷ "int" ∷ "bar" ∷ [] }) [] []
        ≡ err (reserved_keyword "int"))
unfolding program
format_for_cc_keyword_example =
    format_for_cc_keyword ascii ("foo" ∷ []) ("bar" ∷ []) "int" [] [] (foo-Formats, tt) refl
