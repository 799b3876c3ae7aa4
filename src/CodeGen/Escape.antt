-- ===== src/CodeGen/Escape.antt =====
-- Escaped names: they can be read back, and they are identifiers.
use crubit4rust.Base.{
  ℕ, ◌+◌, ◌-◌, ◌*◌, ◌/◌, ◌%◌, ◌<◌, ◌==◌, ltb, Bool, true, List, [], ◌∷◌, ◌++◌, Option, none, some,
  All, All-append, if◌then◌else◌, ◌≡◌, refl, arith, Bool-cases, inl, inr, ap, ◌∙◌, sym, ◌||◌, ◌≤◌,
}
use crubit4rust.CodeGen.{hex_digit, hex8, escape_char, escape_from, escape_non_identifier_chars}

-- The value of a digit of `{:x}`.
unfoldable pub unhex : ℕ → ℕ
unhex h = if ltb h b'a' then h - b'0' else h - 87

pub unhex-hex_digit : (d : ℕ) → d < 16 → unhex (hex_digit d) ≡ d
unfolding unhex hex_digit
unhex-hex_digit d h = ground arith

-- The digit of `c` at the place of value `p`.
digit_value : (c p : ℕ) → unhex (hex_digit (c / p % 16)) ≡ c / p % 16
digit_value c p = unhex-hex_digit (c / p % 16) (omega arith)

-- Eight digits, and what follows them.
read_hex8 : List ℕ → Option (ℕ × List ℕ)
read_hex8 (a ∷ b ∷ c ∷ d ∷ e ∷ f ∷ g ∷ h ∷ rest) = some (
  unhex a * 0x10000000
      + unhex b * 0x1000000
      + unhex c * 0x100000
      + unhex d * 0x10000
      + unhex e * 0x1000
      + unhex f * 0x100
      + unhex g * 0x10
      + unhex h,
  rest,
)
read_hex8 _ = none

read_hex8-hex8 :
    (c : ℕ) (rest : List ℕ) → c < 0x100000000 → read_hex8 (hex8 c ++ rest) ≡ some (c, rest)
unfolding read_hex8 hex8
read_hex8-hex8 c rest h =
    ap (λ (n : ℕ). some (n, rest))
      (omega (
        arith,
        digit_value c 0x10000000,
        digit_value c 0x1000000,
        digit_value c 0x100000,
        digit_value c 0x10000,
        digit_value c 0x1000,
        digit_value c 0x100,
        digit_value c 0x10,
        unhex-hex_digit (c % 16) (omega arith),
      ))

-- What stands behind an underscore.
read_code : List ℕ → Option (ℕ × List ℕ)
read_code [] = none
read_code (t ∷ rest) =
    if t == b'u'
    then some (b'_', rest)
    else if t == b'd'
    then some (b'$', rest)
    else if t == b'p'
    then some (b'.', rest)
    else read_hex8 rest

-- The first character that was escaped, and what follows it.
read_char : List ℕ → Option (ℕ × List ℕ)
read_char [] = none
read_char (c ∷ rest) = if c == b'_' then read_code rest else some (c, rest)

module _ (is_xid_start is_xid_continue : ℕ → Bool) where
  abbrev escape : ℕ → List ℕ → List ℕ
  escape = escape_from is_xid_start is_xid_continue

  read_char-escape_char :
      (i c : ℕ) (rest : List ℕ)
      → c < 0x110000
      → read_char (escape_char is_xid_start is_xid_continue i c ++ rest) ≡ some (c, rest)
  unfolding read_char read_code escape_char
  read_char-escape_char i c rest h = ground (arith, read_hex8-hex8 c rest)

  -- Escaping loses nothing, wherever it starts in the symbol.
  escape_from_inj :
      (i : ℕ) (xs ys : List ℕ)
      → All (λ c. c < 0x110000) xs
      → All (λ c. c < 0x110000) ys
      → escape i xs ≡ escape i ys
      → xs ≡ ys
  unfolding escape_from read_char
  escape_from_inj i [] [] hx hy h = refl
  escape_from_inj i [] (y ∷ ys) hx hy h =
      let clash = ap read_char h ∙ read_char-escape_char i y (escape (i + 1) ys) hy.0 in cc
  escape_from_inj i (x ∷ xs) [] hx hy h =
      let clash = ap read_char (sym h) ∙ read_char-escape_char i x (escape (i + 1) xs) hx.0 in cc
  escape_from_inj i (x ∷ xs) (y ∷ ys) hx hy h =
      let same : ◌≡◌ {A = Option (ℕ × List ℕ)} (some (x, escape (i + 1) xs))
          (some (y, escape (i + 1) ys)) =
        sym (read_char-escape_char i x (escape (i + 1) xs) hx.0)
        ∙ ap read_char h
        ∙ read_char-escape_char i y (escape (i + 1) ys) hy.0 in
      let rest = escape_from_inj (i + 1) xs ys hx.1 hy.1 (cc) in ground arith

  -- Different symbols, of Unicode scalar values, stay different after escaping.
  pub escape_non_identifier_chars_inj :
      (s t : List ℕ)
      → All (λ c. c < 0x110000) s
      → All (λ c. c < 0x110000) t
      → escape_non_identifier_chars is_xid_start is_xid_continue s
        ≡ escape_non_identifier_chars is_xid_start is_xid_continue t
      → s ≡ t
  unfolding escape_non_identifier_chars
  escape_non_identifier_chars_inj s t = escape_from_inj 0 s t

  -- What is documented of the `XID` properties: a start may continue, and so may an underscore
  -- and the ASCII letters and digits.
  pub record XidLaws : Type 0 where
    pub start_continues : (c : ℕ) → is_xid_start c ≡ true → is_xid_continue c ≡ true
    pub underscore_continues : is_xid_continue b'_' ≡ true
    pub lower_continues : (c : ℕ) → b'a' ≤ c → c ≤ b'z' → is_xid_continue c ≡ true
    pub digit_continues : (c : ℕ) → b'0' ≤ c → c ≤ b'9' → is_xid_continue c ≡ true

  hex_digit_continues : XidLaws → (d : ℕ) → d < 16 → is_xid_continue (hex_digit d) ≡ true
  unfolding hex_digit
  hex_digit_continues l d h = elim (Bool-cases (ltb d 10)) [
    | inl low ↦ rw low (l.digit_continues (d + b'0') (omega arith) (ground arith))
    | inr high ↦ rw high (l.lower_continues (d + 87) (ground arith) (omega arith))
  ]

  -- Every character may stand in an identifier after its start.
  abbrev pub Continues : List ℕ → Type 0
  Continues = All (λ d. is_xid_continue d ≡ true)

  -- The first character, if there is one, may start an identifier.
  abbrev pub Starts : List ℕ → Type 0
  Starts [] = Unit
  Starts (c ∷ _) = (is_xid_start c || c == b'_') ≡ true

  hex8-Continues : XidLaws → (c : ℕ) → Continues (hex8 c)
  unfolding hex8
  hex8-Continues l c =
      let digit = λ (n : ℕ). hex_digit_continues l (n % 16) (omega arith) in
      (
        digit (c / 0x10000000),
        (
          digit (c / 0x1000000),
          (
            digit (c / 0x100000),
            (
              digit (c / 0x10000),
              (digit (c / 0x1000), (digit (c / 0x100), (digit (c / 0x10), (digit c, tt)))),
            ),
          ),
        ),
      )

  escape_char-Continues :
      XidLaws → (i c : ℕ) → Continues (escape_char is_xid_start is_xid_continue i c)
  unfolding escape_char
  escape_char-Continues l i c = ground (
    arith,
    hex8-Continues l c,
    l.start_continues c,
    l.lower_continues b'u',
    l.lower_continues b'd',
    l.lower_continues b'p',
    l.lower_continues b'x',
    l.underscore_continues,
  )

  escape_from-Continues : XidLaws → (i : ℕ) (cs : List ℕ) → Continues (escape i cs)
  unfolding escape_from
  escape_from-Continues l i [] = tt
  escape_from-Continues l i (c ∷ cs) =
      All-append _ (escape_char is_xid_start is_xid_continue i c) (escape (i + 1) cs)
        (escape_char-Continues l i c) (escape_from-Continues l (i + 1) cs)

  escape_char-Starts :
      (c : ℕ) (rest : List ℕ) → Starts (escape_char is_xid_start is_xid_continue 0 c ++ rest)
  unfolding escape_char
  escape_char-Starts c rest = ground arith

  -- An escaped symbol is an identifier, or empty: its first character is an `XID` start or an
  -- underscore, and all its characters may stand in an identifier.
  pub escape_non_identifier_chars-ident :
      XidLaws
      → (s : List ℕ)
      → Starts (escape_non_identifier_chars is_xid_start is_xid_continue s)
        × Continues (escape_non_identifier_chars is_xid_start is_xid_continue s)
  unfolding escape_non_identifier_chars escape_from
  escape_non_identifier_chars-ident l [] = (tt, tt)
  escape_non_identifier_chars-ident l (c ∷ cs) =
      (escape_char-Starts c (escape (0 + 1) cs), escape_from-Continues l 0 (c ∷ cs))
