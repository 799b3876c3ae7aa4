-- ===== src/Printer.antt =====
-- common/token_stream_printer.rs: source code out of token streams, with placeholders for what a
-- token stream cannot hold. The texts that go to the writer are a list, in order. A literal is its
-- source text. Running the formatters on the result is not modelled.
pub mod Pieces
mod Tests
use Prim.Native.String.{◌++◌ as str_append}
use crubit4rust.Base.{
  ℕ, ◌==◌, Bool, true, false, not, ◌&&◌, List, [], ◌∷◌, ◌++◌, Option, none, some, String, string_eq,
  Result, ok, err, ◌>>=◌, if◌then◌else◌,
}

pub data Spacing : Type 0 where
  joint alone : Spacing

pub data Delimiter : Type 0 where
  parenthesis bracket brace no_delimiter : Delimiter

mutual
  -- `proc_macro2::TokenTree`; a punctuation has its text too.
  pub data TokenTree : Type 0 where
    group : Delimiter → TokenStream → TokenTree
    ident literal : String → TokenTree
    punct : String → Spacing → TokenTree

  -- `proc_macro2::TokenStream`
  pub data TokenStream : Type 0 where
    finished : TokenStream
    followed : TokenTree → TokenStream → TokenStream

-- The first arms of the match in `write_unformatted_tokens`.
pub data IdentKind : Type 0 where
  newline space hash comment plain : IdentKind

pub ident_kind : String → IdentKind
ident_kind s =
    if string_eq.beq s "__NEWLINE__"
    then newline
    else if string_eq.beq s "__SPACE__"
    then space
    else if string_eq.beq s "__HASH_TOKEN__"
    then hash
    else if string_eq.beq s "__COMMENT__"
    then comment
    else plain

abbrev pub is_ident_or_literal : TokenTree → Bool
is_ident_or_literal (ident id) =
    not (string_eq.beq id "__NEWLINE__") && not (string_eq.beq id "__SPACE__")
is_ident_or_literal (literal _) = true
is_ident_or_literal (group _ _) = false
is_ident_or_literal (punct _ _) = false

-- `get_colon`: the spacing of a colon.
abbrev pub get_colon : TokenTree → Option Spacing
get_colon (punct p s) = if string_eq.beq p ":" then some s else none
get_colon (group _ _) = none
get_colon (ident _) = none
get_colon (literal _) = none

abbrev pub is_some : Option Spacing → Bool
is_some none = false
is_some (some _) = true

-- The answer for a colon that does not begin a `::`, by the token before.
abbrev pub after_colon : Option Spacing → TokenTree → Bool
after_colon (some joint) next = is_some (get_colon next)
after_colon (some alone) next = true
after_colon none next = true

abbrev pub previous_colon : Option TokenTree → Option Spacing
previous_colon none = none
previous_colon (some t) = get_colon t

pub tokens_require_whitespace : Option TokenTree → TokenTree → TokenTree → Bool
tokens_require_whitespace prev current next =
    if is_ident_or_literal current && is_ident_or_literal next
    then true
    else elim (get_colon current) [
      | none ↦ false
      | some joint ↦ false
      | some alone ↦ after_colon (previous_colon prev) next
    ]

-- The space between a token and what `it.peek()` shows.
pub gap : Option TokenTree → TokenTree → TokenStream → List String
unfolding tokens_require_whitespace
gap prev current finished = []
gap prev current (followed next _) =
    if tokens_require_whitespace prev current next then " " ∷ [] else []

abbrev pub open_delimiter : Delimiter → String
open_delimiter parenthesis = "("
open_delimiter bracket = "["
open_delimiter brace = "{ "
open_delimiter no_delimiter = ""

abbrev pub closed_delimiter : Delimiter → String
closed_delimiter parenthesis = ")"
closed_delimiter bracket = "]"
closed_delimiter brace = " }"
closed_delimiter no_delimiter = ""

pub data PrintError : Type 0 where
  comment_without_literal : PrintError

-- `comment_text` is `trim_matches('"').replace("\\n", "\n// ")` of Rust's library.
module _ (comment_text : String → String) where
  abbrev pub comment_line : String → String
  comment_line l = str_append "// " (str_append (comment_text l) "\n")

  -- The loop of `write_unformatted_tokens`, after the token `prev`.
  mutual
    pub write_from : Option TokenTree → TokenStream → Result PrintError (List String)
    write_from prev finished = ok []
    write_from prev (followed (group d ts) it) = do
      inner ← write_from none ts
      rest ← write_from (some (group d ts)) it
      ok (open_delimiter d ∷ inner ++ closed_delimiter d ∷ rest)
    write_from prev (followed (literal l) it) = do
      rest ← write_from (some (literal l)) it
      ok (l ∷ gap prev (literal l) it ++ rest)
    write_from prev (followed (punct p s) it) = do
      rest ← write_from (some (punct p s)) it
      ok (p ∷ gap prev (punct p s) it ++ rest)
    write_from prev (followed (ident s) it) = elim (ident_kind s) [
      | newline ↦ do rest ← write_from (some (ident s)) it; ok ("\n" ∷ rest)
      | space ↦ do rest ← write_from (some (ident s)) it; ok (" " ∷ rest)
      | hash ↦ do rest ← write_from (some (ident s)) it; ok ("#" ∷ rest)
      | comment ↦ write_comment s it
      | plain ↦ do rest ← write_from (some (ident s)) it; ok (s ∷ gap prev (ident s) it ++ rest)
    ]

    -- What follows a `__COMMENT__`.
    pub write_comment : String → TokenStream → Result PrintError (List String)
    write_comment s finished = err comment_without_literal
    write_comment s (followed (literal l) it) = do
      rest ← write_from (some (ident s)) it
      ok (comment_line l ∷ rest)
    write_comment s (followed (ident _) it) = err comment_without_literal
    write_comment s (followed (punct _ _) it) = err comment_without_literal
    write_comment s (followed (group _ _) it) = err comment_without_literal

  -- `write_unformatted_tokens`
  pub write_unformatted_tokens : TokenStream → Result PrintError (List String)
  unfolding write_from
  write_unformatted_tokens tokens = write_from none tokens
