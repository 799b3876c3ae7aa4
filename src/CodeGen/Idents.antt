-- ===== src/CodeGen/Idents.antt =====
-- The identifiers and the `NamespaceQualifier` of code_gen_utils.rs.
use Prim.Native.Char.{code}
use Prim.Native.String.{◌++◌ as str_append}
use crubit4rust.Base.{
  ℕ, ◌==◌, Bool, ◌||◌, List, [], ◌∷◌, ◌++◌, Option, none, some, String, contains, string_eq, Result,
  ok, err, ◌>>=◌, if◌then◌else◌,
}
use crubit4rust.CodeGen.Keywords.{is_cpp_reserved_keyword}

-- `proc_macro2::TokenTree`
pub data Token : Type 0 where
  ident punct text_literal : String → Token

abbrev pub TokenStream : Type 0
TokenStream = List Token

-- What the code calls of the crates: `unicode_ident::is_xid_start`, `syn::parse_str::<Ident>`
-- (does it succeed), `format_ident!` (`none` where it panics), and the parser of token streams
-- (`none` for a `LexError`).
pub record Syntax : Type 0 where
  pub is_xid_start : ℕ → Bool
  pub parses_as_ident : String → Bool
  pub format_ident : String → Option Token
  pub parse_tokens : String → Option TokenStream

-- `no_first_char` is the panic of `expect`.
pub data IdentError : Type 0 where
  empty_identifier no_first_char : IdentError
  reserved_keyword : String → IdentError
  invalid_start : ℕ → IdentError
  unparseable : String → IdentError

-- `ident.chars().next()`
abbrev pub first_char : String → Option ℕ
first_char String.[] = none
first_char (String.◌∷◌ c s) = some (code c)

-- The names that `make_rs_ident` escapes itself.
abbrev pub rust_2018_keywords : List String
rust_2018_keywords = "async" ∷ "await" ∷ "try" ∷ "dyn" ∷ []

module _ (syntax : Syntax) where
  -- The last steps of `format_cc_ident`, for an identifier that begins with `c`.
  unfoldable pub format_from : String → Option ℕ → Result IdentError TokenStream
  format_from name none = err no_first_char
  format_from name (some c) =
      if syntax.is_xid_start c || c == b'_'
      then elim (syntax.parse_tokens name) [ none ↦ err (unparseable name) | some ts ↦ ok ts ]
      else err (invalid_start c)

  unfoldable pub format_cc_ident : String → Result IdentError TokenStream
  unfolding format_from
  format_cc_ident name =
      if string_eq.beq name ""
      then err empty_identifier
      else if is_cpp_reserved_keyword name
      then err (reserved_keyword name)
      else format_from name (first_char name)

  -- `none` is a panic.
  unfoldable pub make_rs_ident : String → Option Token
  make_rs_ident name =
      if contains rust_2018_keywords name
      then syntax.format_ident (str_append "r#" name)
      else if syntax.parses_as_ident name
      then syntax.format_ident name
      else syntax.format_ident (str_append "r#" name)

-- `NamespaceQualifier`
pub record NamespaceQualifier : Type 0 where
  pub names : List String

module _ (syntax : Syntax) where
  unfoldable pub rs_path : List String → Option TokenStream
  rs_path [] = some []
  rs_path (name ∷ names) = elim (make_rs_ident syntax name) [
    | none ↦ none
    | some i ↦ elim (rs_path names) [ none ↦ none | some ts ↦ some (i ∷ punct "::" ∷ ts) ]
  ]

  unfoldable pub format_for_rs : NamespaceQualifier → Option TokenStream
  unfolding rs_path
  format_for_rs q = rs_path q.names

  unfoldable pub cc_idents_of : List String → Result IdentError (List TokenStream)
  cc_idents_of [] = ok []
  cc_idents_of (name ∷ names) = do
    i ← format_cc_ident syntax name
    is ← cc_idents_of names
    ok (i ∷ is)

  unfoldable pub cc_idents : NamespaceQualifier → Result IdentError (List TokenStream)
  unfolding cc_idents_of
  cc_idents q = cc_idents_of q.names

  -- `#(#idents::)*`
  abbrev pub each_before_colons : List TokenStream → TokenStream
  each_before_colons [] = []
  each_before_colons (i ∷ is) = i ++ punct "::" ∷ each_before_colons is

  -- `#(#idents)::*`
  abbrev pub joined_by_colons : List TokenStream → TokenStream
  joined_by_colons [] = []
  joined_by_colons (i ∷ []) = i
  joined_by_colons (i ∷ j ∷ is) = i ++ punct "::" ∷ joined_by_colons (j ∷ is)

  -- `#(#streams)*`
  abbrev pub concatenated : List TokenStream → TokenStream
  concatenated [] = []
  concatenated (t ∷ ts) = t ++ concatenated ts

  unfoldable pub format_for_cc : NamespaceQualifier → Result IdentError TokenStream
  unfolding cc_idents
  format_for_cc q = do is ← cc_idents q; ok (each_before_colons is)

  -- The stream around `body` for the namespace whose identifiers are `is`.
  abbrev pub in_namespace : List TokenStream → TokenStream → List TokenStream → TokenStream
  in_namespace is body attributes =
      ident "__NEWLINE__" ∷ concatenated attributes
      ++ ident "namespace" ∷ joined_by_colons is
      ++ punct "{" ∷ ident "__NEWLINE__" ∷ body
      ++ ident "__NEWLINE__" ∷ punct "}" ∷ ident "__NEWLINE__" ∷ []

  unfoldable pub format_with_cc_body :
      NamespaceQualifier → TokenStream → List TokenStream → Result IdentError TokenStream
  unfolding cc_idents
  format_with_cc_body q body attributes = elim q.names [
    | [] ↦ ok body
    | _ ∷ _ ↦ do is ← cc_idents q; ok (in_namespace is body attributes)
  ]
