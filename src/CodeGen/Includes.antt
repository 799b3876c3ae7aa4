-- ===== src/CodeGen/Includes.antt =====
-- `CcInclude` and `format_cc_includes` of code_gen_utils.rs.
use Prim.Native.String.{◌++◌ as str_append}
use crubit4rust.Base.{
  Bool, true, false, List, [], ◌∷◌, ◌++◌, Option, none, some, String, if◌then◌else◌,
}
use crubit4rust.CodeGen.Idents.{ident, punct, text_literal, TokenStream, Syntax}

pub data CcInclude : Type 0 where
  system_header abseil_header user_header : String → CcInclude
  support_lib_header : String → String → CcInclude

abbrev pub cstddef : CcInclude
cstddef = system_header "cstddef"

abbrev pub cstdint : CcInclude
cstdint = system_header "cstdint"

abbrev pub memory : CcInclude
memory = system_header "memory"

abbrev pub utility : CcInclude
utility = system_header "utility"

abbrev pub type_traits : CcInclude
type_traits = system_header "type_traits"

-- The line `#include path`.
abbrev pub include_line : TokenStream → TokenStream
include_line path = ident "__HASH_TOKEN__" ∷ ident "include" ∷ path ++ ident "__NEWLINE__" ∷ []

-- `replace` is `str::replace(_, "{header}", _)` of Rust's library, on the format and the path.
module _ (syntax : Syntax) (replace : String → String → String) where
  -- `CcInclude::to_tokens`; `none` where an `expect` panics.
  unfoldable pub include_tokens : CcInclude → Option TokenStream
  include_tokens (system_header path) = elim (syntax.parse_tokens path) [
    | none ↦ none
    | some ts ↦ some (include_line (punct "<" ∷ ts ++ punct ">" ∷ []))
  ]
  include_tokens (abseil_header path) =
      some (include_line (text_literal (str_append "third_party/absl/" path) ∷ []))
  include_tokens (user_header path) = some (include_line (text_literal path ∷ []))
  include_tokens (support_lib_header format path) =
      elim (syntax.parse_tokens (replace format path)) [
        | none ↦ none
        | some ts ↦ some (include_line ts)
      ]

  -- Is there an empty line between `include` and what `iter.peek()` shows?
  abbrev pub needs_gap : CcInclude → List CcInclude → Bool
  needs_gap (system_header _) (user_header _ ∷ _) = true
  needs_gap _ _ = false

  -- The includes in the order of the `BTreeSet`.
  unfoldable pub format_cc_includes : List CcInclude → Option TokenStream
  unfolding include_tokens
  format_cc_includes [] = some []
  format_cc_includes (i ∷ is) = elim (include_tokens i) [
    | none ↦ none
    | some line ↦ elim (format_cc_includes is) [
      | none ↦ none
      | some rest ↦ some (line ++ (if needs_gap i is then ident "__NEWLINE__" ∷ [] else []) ++ rest)
    ]
  ]
