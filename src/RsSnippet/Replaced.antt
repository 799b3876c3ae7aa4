-- ===== src/RsSnippet/Replaced.antt =====
-- When the two printers of rs_snippet.rs write the same tokens.
use crubit4rust.Base.{
  nat_eq, string_eq, int_eq, String, ◌≡◌, refl, sym, ap, ap₂, ◌∙◌, Bool, false, ◌||◌, Option, none,
  some, [], ◌∷◌, arith,
}
use crubit4rust.CodeGen.{TokenStream, Syntax, ident, punct}
use crubit4rust.Ir.{Record}
use crubit4rust.RsSnippet.{
  RsTypeKind, pointer, reference, rvalue_reference, func_ptr, incomplete_type, record_type,
  enum_type, alias_type, primitive, slice, nullable, bridge_type, other_type, RsTypeKinds, no_kinds,
  more_kinds, ◌⊕◌, is_self, format_for_pointer, reference_tokens, rvalue_tokens, func_ptr_tokens,
  return_fragment, format_generic_params, to_token_stream, each_token_stream,
  to_token_stream_replacing_by_self, each_replacing_by_self,
}

module _ (syntax : Syntax) (lifetime_tokens : String → Option TokenStream)
    (same_record : Record → Record → Bool) where
  -- Is the record one of the types whose name the printer writes out?
  unfoldable mutual
    pub mentions : Option Record → RsTypeKind → Bool
    mentions self_record (pointer t _) = mentions self_record t
    mentions self_record (reference t _ _) = mentions self_record t
    mentions self_record (rvalue_reference t _ _) = mentions self_record t
    mentions self_record (func_ptr _ t ts) = mentions self_record t || mention_all self_record ts
    mentions self_record (record_type r _ _) =
        is_self syntax lifetime_tokens same_record self_record r
    mentions self_record (slice t) = mentions self_record t
    mentions self_record (nullable t) = mentions self_record t
    mentions self_record (other_type _ ts _) = mention_all self_record ts
    mentions self_record (incomplete_type _ _) = false
    mentions self_record (enum_type _ _) = false
    mentions self_record (alias_type _ _ _) = false
    mentions self_record (primitive _) = false
    mentions self_record (bridge_type _ _ _ _) = false

    pub mention_all : Option Record → RsTypeKinds → Bool
    mention_all self_record no_kinds = false
    mention_all self_record (more_kinds t ts) = mentions self_record t || mention_all self_record ts

  mutual
    unfolding mentions

    mentions-none : (t : RsTypeKind) → mentions none t ≡ false
    mentions-none (pointer t _) = mentions-none t
    mentions-none (reference t _ _) = mentions-none t
    mentions-none (rvalue_reference t _ _) = mentions-none t
    mentions-none (func_ptr _ t ts) = ground (arith, mentions-none t, mention_all-none ts)
    mentions-none (record_type r _ _) = refl
    mentions-none (slice t) = mentions-none t
    mentions-none (nullable t) = mentions-none t
    mentions-none (other_type _ ts _) = mention_all-none ts
    mentions-none (incomplete_type _ _) = refl
    mentions-none (enum_type _ _) = refl
    mentions-none (alias_type _ _ _) = refl
    mentions-none (primitive _) = refl
    mentions-none (bridge_type _ _ _ _) = refl

    mention_all-none : (ts : RsTypeKinds) → mention_all none ts ≡ false
    mention_all-none no_kinds = refl
    mention_all-none (more_kinds t ts) = ground (arith, mentions-none t, mention_all-none ts)

  abbrev replaced : Option Record → RsTypeKind → Option TokenStream
  replaced = to_token_stream_replacing_by_self syntax lifetime_tokens same_record

  abbrev plain : RsTypeKind → Option TokenStream
  plain = to_token_stream syntax lifetime_tokens same_record

  mutual
    unfolding mentions to_token_stream

    replaced-plain :
        (self_record : Option Record) (t : RsTypeKind)
        → mentions self_record t ≡ false
        → replaced self_record t ≡ plain t
    replaced-plain self_record (pointer t m) h =
        ap (λ ts. some (punct "*" ∷ format_for_pointer m) ⊕ ts) (replaced-plain self_record t h)
    replaced-plain self_record (reference t m l) h =
        ap (reference_tokens syntax lifetime_tokens t m l) (replaced-plain self_record t h)
    replaced-plain self_record (rvalue_reference t m l) h =
        ap (rvalue_tokens syntax lifetime_tokens m l) (replaced-plain self_record t h)
    replaced-plain self_record (func_ptr abi t ts) h =
        ap₂
          (λ params result.
            func_ptr_tokens syntax lifetime_tokens abi ts params
              (return_fragment syntax lifetime_tokens t result))
          (each_replaced-plain self_record ts (ground arith))
          (replaced-plain self_record t (ground arith)
            ∙ sym (replaced-plain none t (mentions-none t)))
    replaced-plain self_record (record_type r path known) h = rw h refl
    replaced-plain self_record (slice t) h =
        ap (λ ts. some (punct "[" ∷ []) ⊕ ts ⊕ some (punct "]" ∷ []))
          (replaced-plain self_record t h)
    replaced-plain self_record (nullable t) h =
        ap (λ ts. some (ident "Option" ∷ punct "<" ∷ []) ⊕ ts ⊕ some (punct ">" ∷ []))
          (replaced-plain self_record t h)
    replaced-plain self_record (other_type name ts abi) h =
        ap (λ us. syntax.parse_tokens name ⊕ format_generic_params syntax lifetime_tokens [] us)
          (each_replaced-plain self_record ts h)
    replaced-plain self_record (incomplete_type _ _) h = refl
    replaced-plain self_record (enum_type _ _) h = refl
    replaced-plain self_record (alias_type _ _ _) h = refl
    replaced-plain self_record (primitive _) h = refl
    replaced-plain self_record (bridge_type _ _ _ _) h = refl

    each_replaced-plain :
        (self_record : Option Record) (ts : RsTypeKinds)
        → mention_all self_record ts ≡ false
        → each_replacing_by_self syntax lifetime_tokens same_record self_record ts
          ≡ each_token_stream syntax lifetime_tokens same_record ts
    each_replaced-plain self_record no_kinds h = refl
    each_replaced-plain self_record (more_kinds t ts) h =
        ap₂ (λ u us. u ∷ us) (replaced-plain self_record t (ground arith))
          (each_replaced-plain self_record ts (ground arith))

  -- The printer that writes `Self` for a record writes the same tokens as the plain printer for
  -- every type that does not mention the record.
  pub to_token_stream_replacing_by_self-mentions :
      (self_record : Option Record) (t : RsTypeKind)
      → mentions self_record t ≡ false
      → to_token_stream_replacing_by_self syntax lifetime_tokens same_record self_record t
        ≡ to_token_stream syntax lifetime_tokens same_record t
  to_token_stream_replacing_by_self-mentions = replaced-plain

  -- Without a record to replace, the two printers write the same tokens.
  pub to_token_stream_replacing_by_self-none :
      (t : RsTypeKind)
      → to_token_stream_replacing_by_self syntax lifetime_tokens same_record none t
        ≡ to_token_stream syntax lifetime_tokens same_record t
  to_token_stream_replacing_by_self-none t = replaced-plain none t (mentions-none t)

  -- Types that do not mention the record are written as without a record.
  pub each_replacing_by_self-mentions :
      (self_record : Option Record) (ts : RsTypeKinds)
      → mention_all self_record ts ≡ false
      → each_replacing_by_self syntax lifetime_tokens same_record self_record ts
        ≡ each_replacing_by_self syntax lifetime_tokens same_record none ts
  each_replacing_by_self-mentions self_record ts h =
      each_replaced-plain self_record ts h ∙ sym (each_replaced-plain none ts (mention_all-none ts))
