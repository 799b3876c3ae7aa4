-- ===== src/CodeGen/Ascii.antt =====
-- The `XID` properties of ASCII characters, and a syntax in which every text is one token: the
-- parameters of code_gen_utils.rs can be met.
use crubit4rust.Base.{ℕ, ◌==◌, leb, Bool, true, ◌&&◌, ◌||◌, [], ◌∷◌, some, arith}
use crubit4rust.CodeGen.{Syntax, ident}
use crubit4rust.CodeGen.Escape.{XidLaws}

abbrev pub letter : ℕ → Bool
letter c = (leb b'a' c && leb c b'z') || (leb b'A' c && leb c b'Z')

abbrev pub letter_or_digit : ℕ → Bool
letter_or_digit c = letter c || (leb b'0' c && leb c b'9') || c == b'_'

abbrev pub ascii : Syntax
ascii = record {
  is_xid_start = letter;
  parses_as_ident = λ name. true;
  format_ident = λ name. some (ident name);
  parse_tokens = λ name. some (ident name ∷ []);
}

pub ascii-XidLaws : XidLaws letter letter_or_digit
ascii-XidLaws = record {
  start_continues = λ c h. ground arith;
  underscore_continues = ground arith;
  lower_continues = λ c h k. ground arith;
  digit_continues = λ c h k. ground arith;
}
