-- ===== src/CodeGen/Chars.antt =====
-- `escape_non_identifier_chars` of code_gen_utils.rs.
use crubit4rust.Base.{ℕ, ◌+◌, ◌/◌, ◌%◌, ◌==◌, ltb, Bool, List, [], ◌∷◌, ◌++◌, if◌then◌else◌}

-- A digit of `{:x}`.
unfoldable pub hex_digit : ℕ → ℕ
hex_digit d = if ltb d 10 then d + b'0' else d + 87

-- `format!("{:08x}", c as u32)`
unfoldable pub hex8 : ℕ → List ℕ
hex8 c =
    hex_digit (c / 0x10000000 % 16)
    ∷ hex_digit (c / 0x1000000 % 16)
    ∷ hex_digit (c / 0x100000 % 16)
    ∷ hex_digit (c / 0x10000 % 16)
    ∷ hex_digit (c / 0x1000 % 16)
    ∷ hex_digit (c / 0x100 % 16)
    ∷ hex_digit (c / 0x10 % 16)
    ∷ hex_digit (c % 16)
    ∷ []

module _ (is_xid_start is_xid_continue : ℕ → Bool) where
  -- What the loop pushes for the character `c` at the position `i`.
  unfoldable pub escape_char : ℕ → ℕ → List ℕ
  escape_char i c =
      if c == b'_'
      then b'_' ∷ b'u' ∷ []
      else if c == b'$'
      then b'_' ∷ b'd' ∷ []
      else if c == b'.'
      then b'_' ∷ b'p' ∷ []
      else if (if i == 0 then is_xid_start c else is_xid_continue c)
      then c ∷ []
      else b'_' ∷ b'x' ∷ hex8 c

  unfoldable pub escape_from : ℕ → List ℕ → List ℕ
  escape_from i [] = []
  escape_from i (c ∷ cs) = escape_char i c ++ escape_from (i + 1) cs

  unfoldable pub escape_non_identifier_chars : List ℕ → List ℕ
  escape_non_identifier_chars symbol = escape_from 0 symbol
