-- ===== src/RsSnippet/Printers.antt =====
-- The two printers of rs_snippet.rs: `to_token_stream` and the one that writes `Self`.
use crubit4rust.Base.{
  if◌then◌else◌, nat_eq, string_eq, Result, err, ok, int_eq, String, Bool, false, not, ◌&&◌, Option,
  none, some, List, [], ◌∷◌,
}
use crubit4rust.CodeGen.{Token, TokenStream, ident, punct, Syntax, make_rs_ident}
use crubit4rust.Ir.{Record}
use crubit4rust.RsSnippet.Kinds.{
  Snippet, Mutability, mut_, Lifetime, CratePath, RsTypeKind, pointer, reference, rvalue_reference,
  func_ptr, incomplete_type, record_type, enum_type, alias_type, primitive, slice, nullable,
  bridge_type, other_type, RsTypeKinds, no_kinds, more_kinds, KnownGeneric, not_generic, generic,
}
use crubit4rust.RsSnippet.Primitives.{primitive_tokens}
use crubit4rust.RsSnippet.Queries.{type_is_unpin}
use crubit4rust.RsSnippet.Records.{
  TypeError, not_a_mut_reference, self_without_lifetime, unexpected_self,
}
use crubit4rust.RsSnippet.Tokens.{
  ◌⊕◌, format_for_pointer, format_for_reference, joined_by_commas, idents_joined, as_stream,
  split_path, lifetime_for_reference, path_and_ident, format_generic_params, reference_tokens,
  rvalue_tokens, func_ptr_tokens, return_fragment, is_mut,
}

-- The first of the streams, if there is one: `take(1)`.
abbrev pub first_only : List (Option TokenStream) → List (Option TokenStream)
first_only [] = []
first_only (t ∷ ts) = t ∷ []

unfoldable pub rs_idents : Syntax → List String → List (Option Token)
unfolding make_rs_ident
rs_idents syntax [] = []
rs_idents syntax (name ∷ names) = make_rs_ident syntax name ∷ rs_idents syntax names

-- `same_record` is the derived `PartialEq` of `Record`.
module _ (syntax : Syntax) (lifetime_tokens : String → Option TokenStream)
    (same_record : Record → Record → Bool) where
  -- `self_record == Some(record)`
  abbrev pub is_self : Option Record → Record → Bool
  is_self none r = false
  is_self (some self_record) r = same_record self_record r

  -- A generic type of Rust for a template.
  unfoldable pub known_tokens : String → List (Option TokenStream) → Option TokenStream
  unfolding ◌⊕◌ idents_joined split_path joined_by_commas rs_idents
  known_tokens rust_generic_name type_args =
      idents_joined (rs_idents syntax (split_path rust_generic_name))
      ⊕ some (punct "<" ∷ [])
      ⊕ joined_by_commas (first_only type_args)
      ⊕ some (punct ">" ∷ [])

  unfoldable mutual
    unfolding ◌⊕◌ format_for_pointer reference_tokens rvalue_tokens func_ptr_tokens return_fragment
        path_and_ident known_tokens primitive_tokens format_generic_params as_stream make_rs_ident

    -- `ToTokens for RsTypeKind`
    pub to_token_stream : RsTypeKind → Option TokenStream
    to_token_stream (pointer pointee mutability) =
        some (punct "*" ∷ format_for_pointer mutability) ⊕ to_token_stream pointee
    to_token_stream (reference referent_ mutability l) =
        reference_tokens syntax lifetime_tokens referent_ mutability l (to_token_stream referent_)
    to_token_stream (rvalue_reference referent_ mutability l) =
        rvalue_tokens syntax lifetime_tokens mutability l (to_token_stream referent_)
    to_token_stream (func_ptr abi return_type param_types) =
        func_ptr_tokens syntax lifetime_tokens abi param_types (each_token_stream param_types) (
          return_fragment syntax lifetime_tokens return_type
            (to_token_stream_replacing_by_self none return_type))
    to_token_stream (incomplete_type r path) = path_and_ident syntax lifetime_tokens path r.rs_name
    to_token_stream (record_type r path known) = record_tokens r path known
    to_token_stream (enum_type e path) =
        path_and_ident syntax lifetime_tokens path e.identifier.identifier
    to_token_stream (alias_type a underlying_type path) =
        path_and_ident syntax lifetime_tokens path a.identifier.identifier
    to_token_stream (primitive p) = some (primitive_tokens p)
    to_token_stream (slice t) = some (punct "[" ∷ []) ⊕ to_token_stream t ⊕ some (punct "]" ∷ [])
    to_token_stream (nullable t) =
        some (ident "Option" ∷ punct "<" ∷ []) ⊕ to_token_stream t ⊕ some (punct ">" ∷ [])
    to_token_stream (bridge_type name a b r) = as_stream (make_rs_ident syntax name)
    to_token_stream (other_type name type_args _) =
        syntax.parse_tokens name
        ⊕ format_generic_params syntax lifetime_tokens [] (each_token_stream type_args)

    -- The arm of `to_token_stream` for a record.
    pub record_tokens : Record → CratePath → KnownGeneric → Option TokenStream
    record_tokens r path not_generic = path_and_ident syntax lifetime_tokens path r.rs_name
    record_tokens r path (generic template_name rust_generic_name type_args) =
        known_tokens rust_generic_name (each_token_stream type_args)

    pub each_token_stream : RsTypeKinds → List (Option TokenStream)
    each_token_stream no_kinds = []
    each_token_stream (more_kinds t ts) = to_token_stream t ∷ each_token_stream ts

    -- Its calls of `to_token_stream` on the type itself are written out.
    pub to_token_stream_replacing_by_self : Option Record → RsTypeKind → Option TokenStream
    to_token_stream_replacing_by_self self_record (pointer pointee mutability) =
        some (punct "*" ∷ format_for_pointer mutability)
        ⊕ to_token_stream_replacing_by_self self_record pointee
    to_token_stream_replacing_by_self self_record (reference referent_ mutability l) =
        reference_tokens syntax lifetime_tokens referent_ mutability l
          (to_token_stream_replacing_by_self self_record referent_)
    to_token_stream_replacing_by_self self_record (rvalue_reference referent_ mutability l) =
        rvalue_tokens syntax lifetime_tokens mutability l
          (to_token_stream_replacing_by_self self_record referent_)
    to_token_stream_replacing_by_self self_record (func_ptr abi return_type param_types) =
        func_ptr_tokens syntax lifetime_tokens abi param_types
          (each_replacing_by_self self_record param_types)
          (return_fragment syntax lifetime_tokens return_type
            (to_token_stream_replacing_by_self self_record return_type))
    to_token_stream_replacing_by_self self_record (record_type r path known) =
        if is_self self_record r then some (ident "Self" ∷ []) else record_tokens r path known
    to_token_stream_replacing_by_self self_record (slice t) =
        some (punct "[" ∷ [])
        ⊕ to_token_stream_replacing_by_self self_record t
        ⊕ some (punct "]" ∷ [])
    to_token_stream_replacing_by_self self_record (nullable t) =
        some (ident "Option" ∷ punct "<" ∷ [])
        ⊕ to_token_stream_replacing_by_self self_record t
        ⊕ some (punct ">" ∷ [])
    to_token_stream_replacing_by_self self_record (bridge_type name a b r) =
        as_stream (make_rs_ident syntax name)
    to_token_stream_replacing_by_self self_record (other_type name type_args is_same_abi) =
        syntax.parse_tokens name
        ⊕ format_generic_params syntax lifetime_tokens []
            (each_replacing_by_self self_record type_args)
    to_token_stream_replacing_by_self self_record (incomplete_type r path) =
        path_and_ident syntax lifetime_tokens path r.rs_name
    to_token_stream_replacing_by_self self_record (enum_type e path) =
        path_and_ident syntax lifetime_tokens path e.identifier.identifier
    to_token_stream_replacing_by_self self_record (alias_type a t path) =
        path_and_ident syntax lifetime_tokens path a.identifier.identifier
    to_token_stream_replacing_by_self self_record (primitive p) = some (primitive_tokens p)

    pub each_replacing_by_self : Option Record → RsTypeKinds → List (Option TokenStream)
    each_replacing_by_self self_record no_kinds = []
    each_replacing_by_self self_record (more_kinds t ts) =
        to_token_stream_replacing_by_self self_record t ∷ each_replacing_by_self self_record ts

  -- `RsTypeKind::format_as_return_type_fragment`
  unfoldable pub format_as_return_type_fragment : RsTypeKind → Option Record → Option TokenStream
  unfolding return_fragment to_token_stream_replacing_by_self
  format_as_return_type_fragment t self_record =
      return_fragment syntax lifetime_tokens t (to_token_stream_replacing_by_self self_record t)

  -- `RsTypeKind::format_mut_ref_as_uninitialized`; the inner `none` is a panic.
  unfoldable pub format_mut_ref_as_uninitialized :
      RsTypeKind → Result TypeError (Option TokenStream)
  unfolding ◌⊕◌ lifetime_for_reference to_token_stream
  format_mut_ref_as_uninitialized (reference referent_ mut_ l) = ok (
      some (punct "&" ∷ [])
      ⊕ lifetime_for_reference syntax lifetime_tokens l
      ⊕ some (
          ident "mut"
          ∷ punct "::"
          ∷ ident "core"
          ∷ punct "::"
          ∷ ident "mem"
          ∷ punct "::"
          ∷ ident "MaybeUninit"
          ∷ punct "<"
          ∷ [])
      ⊕ to_token_stream referent_
      ⊕ some (punct ">" ∷ []))
  format_mut_ref_as_uninitialized _ = err not_a_mut_reference

  -- `self: ::ctor::RvalueReference<#lifetime, Self>`, and the feature that it needs.
  unfoldable pub rvalue_self : Mutability → Lifetime → Option Snippet
  unfolding ◌⊕◌ lifetime_for_reference make_rs_ident
  rvalue_self mutability l =
      let written =
        some (
          ident "self"
          ∷ punct ":"
          ∷ punct "::"
          ∷ ident "ctor"
          ∷ punct "::"
          ∷ ident (if is_mut mutability then "RvalueReference" else "ConstRvalueReference")
          ∷ punct "<"
          ∷ [])
        ⊕ lifetime_for_reference syntax lifetime_tokens l
        ⊕ some (punct "," ∷ ident "Self" ∷ punct ">" ∷ []) in
      elim (make_rs_ident syntax "arbitrary_self_types") [
        | none ↦ none
        | some feature ↦ elim written [
          | none ↦ none
          | some ts ↦ some (record { tokens = ts; features = feature ∷ [] })
        ]
      ]

  -- `RsSnippet::new`
  abbrev pub new_snippet : Option TokenStream → Option Snippet
  new_snippet none = none
  new_snippet (some ts) = some (record { tokens = ts; features = [] })

  -- `RsTypeKind::format_as_self_param`; the inner `none` is a panic.
  unfoldable pub format_as_self_param : RsTypeKind → Result TypeError (Option Snippet)
  unfolding ◌⊕◌ lifetime_for_reference format_for_reference type_is_unpin rvalue_self
  format_as_self_param (pointer _ _) = err self_without_lifetime
  format_as_self_param (reference referent_ mutability l) = ok (
      new_snippet (
        let borrowed =
          some (punct "&" ∷ [])
          ⊕ lifetime_for_reference syntax lifetime_tokens l
          ⊕ some (format_for_reference mutability) in
        if is_mut mutability && not (type_is_unpin referent_)
        then some (
            ident "self"
            ∷ punct ":"
            ∷ punct "::"
            ∷ ident "core"
            ∷ punct "::"
            ∷ ident "pin"
            ∷ punct "::"
            ∷ ident "Pin"
            ∷ punct "<"
            ∷ [])
          ⊕ borrowed
          ⊕ some (ident "Self" ∷ punct ">" ∷ [])
        else borrowed ⊕ some (ident "self" ∷ [])))
  format_as_self_param (rvalue_reference referent_ mutability l) = ok (rvalue_self mutability l)
  format_as_self_param (record_type _ _ _) = ok (new_snippet (some (ident "self" ∷ [])))
  format_as_self_param _ = err unexpected_self
