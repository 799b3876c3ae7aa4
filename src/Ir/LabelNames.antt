-- ===== src/Ir/LabelNames.antt =====
-- The escaped forms of a Bazel label in ir.rs: one can be read back, both are identifiers.
use crubit4rust.Base.{
  ℕ, ◌+◌, ◌*◌, ◌/◌, ◌%◌, ◌<◌, ◌≤◌, ◌==◌, leb, Bool, true, false, ◌&&◌, ◌||◌, List, [], ◌∷◌, ◌++◌,
  Option, none, some, All, All-append, if◌then◌else◌, ◌≡◌, refl, arith, Bool-cases, inl, inr, ap,
  ◌∙◌, sym, subst,
}
use crubit4rust.CodeGen.{hex_digit}
use crubit4rust.CodeGen.Escape.{unhex, unhex-hex_digit}
use crubit4rust.Ir.{
  is_ascii_alphanumeric, underscores, is_core, starts_with_number, target_name,
  last_package_component, target_name_escaped, escape_byte, escape_bytes, convert_to_cc_identifier,
}

-- The first byte that was escaped, and what follows it.
read_escaped : List ℕ → Option (ℕ × List ℕ)
read_escaped (h ∷ l ∷ rest) = some (unhex h * 16 + unhex l, rest)
read_escaped _ = none

read_byte : List ℕ → Option (ℕ × List ℕ)
read_byte [] = none
read_byte (c ∷ rest) = if c == b'_' then read_escaped rest else some (c, rest)

read_byte-escape_byte :
    (b : ℕ) (rest : List ℕ) → b < 256 → read_byte (escape_byte b ++ rest) ≡ some (b, rest)
unfolding read_byte read_escaped escape_byte
read_byte-escape_byte b rest h = ground (arith, unhex-hex_digit (b / 16), unhex-hex_digit (b % 16))

escape_bytes_inj :
    (xs ys : List ℕ)
    → All (λ b. b < 256) xs
    → All (λ b. b < 256) ys
    → escape_bytes xs ≡ escape_bytes ys
    → xs ≡ ys
unfolding escape_bytes read_byte
escape_bytes_inj [] [] hx hy h = refl
escape_bytes_inj [] (y ∷ ys) hx hy h =
    let clash = ap read_byte h ∙ read_byte-escape_byte y (escape_bytes ys) hy.0 in cc
escape_bytes_inj (x ∷ xs) [] hx hy h =
    let clash = ap read_byte (sym h) ∙ read_byte-escape_byte x (escape_bytes xs) hx.0 in cc
escape_bytes_inj (x ∷ xs) (y ∷ ys) hx hy h =
    let same : ◌≡◌ {A = Option (ℕ × List ℕ)} (some (x, escape_bytes xs))
        (some (y, escape_bytes ys)) =
      sym (read_byte-escape_byte x (escape_bytes xs) hx.0)
      ∙ ap read_byte h
      ∙ read_byte-escape_byte y (escape_bytes ys) hy.0 in
    let later = escape_bytes_inj xs ys hx.1 hy.1 in ground (arith, same, later)

-- Different labels, each a list of bytes, become different C++ identifiers.
pub convert_to_cc_identifier_inj :
    (xs ys : List ℕ)
    → All (λ b. b < 256) xs
    → All (λ b. b < 256) ys
    → convert_to_cc_identifier xs ≡ convert_to_cc_identifier ys
    → xs ≡ ys
unfolding convert_to_cc_identifier
convert_to_cc_identifier_inj xs ys hx hy h = escape_bytes_inj xs ys hx hy (ground (arith, h))

-- A character of an ASCII identifier.
abbrev pub IsIdentChar : ℕ → Type 0
IsIdentChar c = (is_ascii_alphanumeric c || c == b'_') ≡ true

hex_digit-IsIdentChar : (d : ℕ) → d < 16 → IsIdentChar (hex_digit d)
unfolding hex_digit
hex_digit-IsIdentChar d h = ground arith

escape_byte-IsIdentChar : (b : ℕ) → b < 256 → All IsIdentChar (escape_byte b)
unfolding escape_byte
escape_byte-IsIdentChar b h = elim (Bool-cases (is_ascii_alphanumeric b)) [
  | inl plain ↦ rw plain (rw plain refl, tt)
  | inr special ↦ rw special (
    refl,
    (
      hex_digit-IsIdentChar (b / 16) (omega arith),
      (hex_digit-IsIdentChar (b % 16) (omega arith), tt),
    ),
  )
]

escape_bytes-IsIdentChar : (bs : List ℕ) → All (λ b. b < 256) bs → All IsIdentChar (escape_bytes bs)
unfolding escape_bytes
escape_bytes-IsIdentChar [] h = tt
escape_bytes-IsIdentChar (b ∷ bs) h =
    All-append IsIdentChar (escape_byte b) (escape_bytes bs) (escape_byte-IsIdentChar b h.0)
      (escape_bytes-IsIdentChar bs h.1)

underscores-IsIdentChar : (cs : List ℕ) → All IsIdentChar (underscores cs)
unfolding underscores
underscores-IsIdentChar [] = tt
underscores-IsIdentChar (c ∷ cs) = (ground arith, underscores-IsIdentChar cs)

-- The C++ identifier of a label, a list of bytes, consists of ASCII letters, digits and underscores, and begins with
-- an underscore.
pub convert_to_cc_identifier-IsIdentChar :
    (label : List ℕ)
    → All (λ b. b < 256) label
    → (rest : List ℕ) × (convert_to_cc_identifier label ≡ b'_' ∷ rest) × All IsIdentChar rest
unfolding convert_to_cc_identifier
convert_to_cc_identifier-IsIdentChar label h =
    (escape_bytes label, refl, escape_bytes-IsIdentChar label h)

-- No ASCII digit comes first.
abbrev pub NoDigitFirst : List ℕ → Type 0
NoDigitFirst [] = Unit
NoDigitFirst (c ∷ _) = (leb b'0' c && leb c b'9') ≡ false

module _ (is_numeric : ℕ → Bool)
    (digits : (c : ℕ) → b'0' ≤ c → c ≤ b'9' → is_numeric c ≡ true) where
  underscores-NoDigitFirst :
      (name : List ℕ) → starts_with_number is_numeric name ≡ false → NoDigitFirst (underscores name)
  unfolding underscores
  underscores-NoDigitFirst [] h = tt
  underscores-NoDigitFirst (c ∷ cs) h = ground (arith, digits c)

  is_name :
      (name result : List ℕ)
      → NoDigitFirst (underscores name)
      → result ≡ underscores name
      → All IsIdentChar result × NoDigitFirst result
  is_name name result first e =
      subst (λ r. All IsIdentChar r × NoDigitFirst r) (sym e) (underscores-IsIdentChar name, first)

  -- The escaped name of a target consists of ASCII letters, digits and underscores, and no digit
  -- comes first, since `char::is_numeric` holds of the ASCII digits.
  pub target_name_escaped-IsIdentChar :
      (label : List ℕ)
      → All IsIdentChar (target_name_escaped is_numeric label)
        × NoDigitFirst (target_name_escaped is_numeric label)
  unfolding target_name_escaped underscores
  target_name_escaped-IsIdentChar label = elim (Bool-cases (is_core (target_name label))) [
    | inl core ↦
        is_name (b'c' ∷ b'o' ∷ b'r' ∷ b'e' ∷ b'_' ∷ last_package_component label)
          (target_name_escaped is_numeric label) refl (rw core refl)
    | inr other ↦ elim (Bool-cases (starts_with_number is_numeric (target_name label))) [
      | inl number ↦
          is_name (b'n' ∷ target_name label) (target_name_escaped is_numeric label) refl
            (rw (other, number) refl)
      | inr plain ↦
          let e : target_name_escaped is_numeric label ≡ underscores (target_name label) =
            rw (other, plain) refl in
          is_name (target_name label) (target_name_escaped is_numeric label)
            (underscores-NoDigitFirst (target_name label) plain) e
    ]
  ]
