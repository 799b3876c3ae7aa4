-- ===== src/RsSnippet/Tokens.antt =====
-- How rs_snippet.rs writes a type as tokens. `none` is a panic: an identifier or a lifetime that
-- `syn` refuses, or the name of an `Other` type that is no token stream.
use Prim.Native.Char.{code}
use crubit4rust.Base.{
  ◌==◌, if◌then◌else◌, nat_eq, string_eq, int_eq, String, Bool, true, false, not, ◌&&◌, ◌||◌,
  Option, none, some, List, [], ◌∷◌, ◌++◌,
}
use crubit4rust.CodeGen.{
  Token, TokenStream, ident, punct, text_literal, Syntax, make_rs_ident, format_for_rs,
}
use crubit4rust.RsSnippet.Kinds.{
  Mutability, const_, mut_, Lifetime, CratePath, unit_, RsTypeKind, primitive, RsTypeKinds,
  no_kinds, more_kinds,
}
use crubit4rust.RsSnippet.Queries.{type_is_unpin, is_unsafe}

-- One stream after another, unless one of them panics.
infixr 5 ◌⊕◌
unfoldable pub ◌⊕◌ : Option TokenStream → Option TokenStream → Option TokenStream
none ⊕ b = none
some ts ⊕ none = none
some ts ⊕ some us = some (ts ++ us)

-- `Mutability::format_for_pointer`
unfoldable pub format_for_pointer : Mutability → TokenStream
format_for_pointer mut_ = ident "mut" ∷ []
format_for_pointer const_ = ident "const" ∷ []

-- `Mutability::format_for_reference`
unfoldable pub format_for_reference : Mutability → TokenStream
format_for_reference mut_ = ident "mut" ∷ []
format_for_reference const_ = []

-- `#( #streams ),*`
unfoldable pub joined_by_commas : List (Option TokenStream) → Option TokenStream
unfolding ◌⊕◌
joined_by_commas [] = some []
joined_by_commas (t ∷ []) = t
joined_by_commas (t ∷ u ∷ ts) = t ⊕ some (punct "," ∷ []) ⊕ joined_by_commas (u ∷ ts)

-- `#( #idents )::*`
unfoldable pub idents_joined : List (Option Token) → Option TokenStream
idents_joined [] = some []
idents_joined (none ∷ is) = none
idents_joined (some i ∷ []) = some (i ∷ [])
idents_joined (some i ∷ j ∷ is) = elim (idents_joined (j ∷ is)) [
  | none ↦ none
  | some ts ↦ some (i ∷ punct "::" ∷ ts)
]

unfoldable pub as_stream : Option Token → Option TokenStream
as_stream none = none
as_stream (some t) = some (t ∷ [])

abbrev pub is_mut : Mutability → Bool
is_mut mut_ = true
is_mut const_ = false

abbrev pub is_elided : Lifetime → Bool
is_elided l = string_eq.beq l "_"

-- The lifetimes that are not elided.
unfoldable pub named_lifetimes : List Lifetime → List Lifetime
named_lifetimes [] = []
named_lifetimes (l ∷ ls) = if is_elided l then named_lifetimes ls else l ∷ named_lifetimes ls

-- `split("::")`
unfoldable pub split_path : String → List String
split_path String.[] = "" ∷ []
split_path (String.◌∷◌ c String.[]) = String.◌∷◌ c String.[] ∷ []
split_path (String.◌∷◌ c (String.◌∷◌ d s)) = elim (code c == b':' && code d == b':') [
  | true ↦ "" ∷ split_path s
  | false ↦ elim (split_path (String.◌∷◌ d s)) [
    | [] ↦ String.◌∷◌ c String.[] ∷ []
    | part ∷ parts ↦ String.◌∷◌ c part ∷ parts
  ]
]

-- `lifetime_tokens` gives the tokens of `syn::Lifetime::new` on the name behind a quote.
module _ (syntax : Syntax) (lifetime_tokens : String → Option TokenStream) where
  -- `ToTokens for Lifetime`
  abbrev pub lifetime_to_tokens : Lifetime → Option TokenStream
  lifetime_to_tokens l = lifetime_tokens l

  -- `Lifetime::format_for_reference`
  unfoldable pub lifetime_for_reference : Lifetime → Option TokenStream
  lifetime_for_reference l = if is_elided l then some [] else lifetime_to_tokens l

  -- `ToTokens for CratePath`
  unfoldable pub crate_path_tokens : CratePath → Option TokenStream
  unfolding ◌⊕◌ format_for_rs
  crate_path_tokens path =
      some (elim path.crate_ident [ none ↦ ident "crate" ∷ [] | some i ↦ i ∷ [] ])
      ⊕ some (punct "::" ∷ [])
      ⊕ format_for_rs syntax path.crate_root_path
      ⊕ format_for_rs syntax path.namespace_qualifier

  -- `#crate_path #ident`, the identifier made by `make_rs_ident`.
  unfoldable pub path_and_ident : CratePath → String → Option TokenStream
  unfolding ◌⊕◌ crate_path_tokens as_stream make_rs_ident
  path_and_ident path name = crate_path_tokens path ⊕ as_stream (make_rs_ident syntax name)

  unfoldable pub lifetimes_as_tokens : List Lifetime → List (Option TokenStream)
  lifetimes_as_tokens [] = []
  lifetimes_as_tokens (l ∷ ls) = lifetime_to_tokens l ∷ lifetimes_as_tokens ls

  -- `< .. >`, unless there is nothing to put in it.
  unfoldable pub in_angles : List Lifetime → List (Option TokenStream) → Option TokenStream
  unfolding ◌⊕◌ lifetimes_as_tokens joined_by_commas
  in_angles [] [] = some []
  in_angles ls ts =
      some (punct "<" ∷ [])
      ⊕ joined_by_commas (lifetimes_as_tokens ls)
      ⊕ joined_by_commas ts
      ⊕ some (punct ">" ∷ [])

  -- `format_generic_params`, for types that are tokens already.
  unfoldable pub format_generic_params :
      List Lifetime → List (Option TokenStream) → Option TokenStream
  unfolding named_lifetimes in_angles
  format_generic_params all_lifetimes types = in_angles (named_lifetimes all_lifetimes) types

  -- A reference around the tokens of its referent.
  unfoldable pub reference_tokens :
      RsTypeKind → Mutability → Lifetime → Option TokenStream → Option TokenStream
  unfolding ◌⊕◌ format_for_reference lifetime_for_reference type_is_unpin
  reference_tokens referent_ mutability l referent_tokens =
      let reference_ =
        some (punct "&" ∷ [])
        ⊕ lifetime_for_reference l
        ⊕ some (format_for_reference mutability)
        ⊕ referent_tokens in
      if is_mut mutability && not (type_is_unpin referent_)
      then some (
          punct "::"
          ∷ ident "core"
          ∷ punct "::"
          ∷ ident "pin"
          ∷ punct "::"
          ∷ ident "Pin"
          ∷ punct "<"
          ∷ [])
        ⊕ reference_
        ⊕ some (punct ">" ∷ [])
      else reference_

  -- `::ctor::RvalueReference<..>` or `::ctor::ConstRvalueReference<..>` around the tokens.
  unfoldable pub rvalue_tokens : Mutability → Lifetime → Option TokenStream → Option TokenStream
  unfolding ◌⊕◌
  rvalue_tokens mutability l inner =
      some (
        punct "::"
        ∷ ident "ctor"
        ∷ punct "::"
        ∷ ident (if is_mut mutability then "RvalueReference" else "ConstRvalueReference")
        ∷ punct "<"
        ∷ [])
      ⊕ lifetime_to_tokens l
      ⊕ some (punct "," ∷ [])
      ⊕ inner
      ⊕ some (punct ">" ∷ [])

  -- `[RsTypeKind::iter().any(is_unsafe)]`
  unfoldable pub any_unsafe : RsTypeKinds → Bool
  unfolding is_unsafe
  any_unsafe no_kinds = false
  any_unsafe (more_kinds t ts) = is_unsafe t || any_unsafe ts

  -- A function pointer from its parts.
  unfoldable pub func_ptr_tokens :
      String → RsTypeKinds → List (Option TokenStream) → Option TokenStream → Option TokenStream
  unfolding ◌⊕◌ any_unsafe joined_by_commas
  func_ptr_tokens abi param_types params return_frag =
      some (if any_unsafe param_types then ident "unsafe" ∷ [] else [])
      ⊕ some (ident "extern" ∷ text_literal abi ∷ ident "fn" ∷ punct "(" ∷ [])
      ⊕ joined_by_commas params
      ⊕ some (punct ")" ∷ [])
      ⊕ return_frag

  -- `-> #tokens`, unless the type is the unit type.
  unfoldable pub return_fragment : RsTypeKind → Option TokenStream → Option TokenStream
  unfolding ◌⊕◌
  return_fragment (primitive unit_) tokens = some []
  return_fragment _ tokens = some (punct "->" ∷ []) ⊕ tokens
