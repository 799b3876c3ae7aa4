-- ===== src/Ir/Labels.antt =====
-- `BazelLabel` of ir.rs: the parts of a label and its two escaped forms. A label is the list of its
-- code points here, and of its bytes in `convert_to_cc_identifier`.
use crubit4rust.Base.{
  ℕ, ◌/◌, ◌%◌, ◌==◌, leb, Bool, false, ◌&&◌, ◌||◌, List, [], ◌∷◌, ◌++◌, Option, none, some,
  if◌then◌else◌,
}
use crubit4rust.CodeGen.{hex_digit}

-- `str::split_once`
unfoldable pub split_once : ℕ → List ℕ → Option (List ℕ × List ℕ)
split_once c [] = none
split_once c (x ∷ xs) =
    if x == c
    then some ([], xs)
    else elim (split_once c xs) [ none ↦ none | some (before, after) ↦ some (x ∷ before, after) ]

-- `str::rsplit_once`
unfoldable pub rsplit_once : ℕ → List ℕ → Option (List ℕ × List ℕ)
rsplit_once c [] = none
rsplit_once c (x ∷ xs) = elim (rsplit_once c xs) [
  | some (before, after) ↦ some (x ∷ before, after)
  | none ↦ if x == c then some ([], xs) else none
]

unfoldable pub target_name : List ℕ → List ℕ
unfolding split_once rsplit_once
target_name label = elim (split_once b':' label) [
  | some (_, name) ↦ name
  | none ↦ elim (rsplit_once b'/' label) [ some (_, last) ↦ last | none ↦ label ]
]

unfoldable pub package_name : List ℕ → List ℕ
unfolding rsplit_once
package_name label = elim (rsplit_once b':' label) [ none ↦ label | some (before, _) ↦ before ]

unfoldable pub last_package_component : List ℕ → List ℕ
unfolding rsplit_once package_name
last_package_component label = elim (rsplit_once b'/' (package_name label)) [
  | none ↦ []
  | some (_, last) ↦ last
]

-- `is_ascii_alphanumeric`
abbrev pub is_ascii_alphanumeric : ℕ → Bool
is_ascii_alphanumeric c =
    (leb b'0' c && leb c b'9') || (leb b'A' c && leb c b'Z') || (leb b'a' c && leb c b'z')

-- `replace(|c| !c.is_ascii_alphanumeric(), "_")`
unfoldable pub underscores : List ℕ → List ℕ
underscores [] = []
underscores (c ∷ cs) = (if is_ascii_alphanumeric c then c else b'_') ∷ underscores cs

abbrev pub is_core : List ℕ → Bool
is_core (a ∷ b ∷ c ∷ d ∷ []) = a == b'c' && b == b'o' && c == b'r' && d == b'e'
is_core _ = false

-- `is_numeric` is `char::is_numeric`.
module _ (is_numeric : ℕ → Bool) where
  abbrev pub starts_with_number : List ℕ → Bool
  starts_with_number [] = false
  starts_with_number (c ∷ _) = is_numeric c

  unfoldable pub target_name_escaped : List ℕ → List ℕ
  unfolding target_name last_package_component underscores
  target_name_escaped label =
      let name = target_name label in
      if is_core name
      then underscores (b'c' ∷ b'o' ∷ b'r' ∷ b'e' ∷ b'_' ∷ last_package_component label)
      else if starts_with_number name
      then underscores (b'n' ∷ name)
      else underscores name

-- What is written for a byte: itself, or an underscore and two hexadecimal digits.
unfoldable pub escape_byte : ℕ → List ℕ
unfolding hex_digit
escape_byte b =
    if is_ascii_alphanumeric b then b ∷ [] else b'_' ∷ hex_digit (b / 16) ∷ hex_digit (b % 16) ∷ []

unfoldable pub escape_bytes : List ℕ → List ℕ
unfolding escape_byte
escape_bytes [] = []
escape_bytes (b ∷ bs) = escape_byte b ++ escape_bytes bs

unfoldable pub convert_to_cc_identifier : List ℕ → List ℕ
unfolding escape_bytes
convert_to_cc_identifier label = b'_' ∷ escape_bytes label
