-- ===== src/Functions/Traits.antt =====
-- generate_func.rs: the names of traits, their tokens, and the kinds of `impl` blocks. `none` is a
-- panic. The parameters of a section are those of the printers of types.
use crubit4rust.Base.{
  if◌then◌else◌, nat_eq, string_eq, int_eq, String, Bool, false, Option, none, some, List, [], ◌∷◌,
  ◌++◌,
}
use crubit4rust.CodeGen.{TokenStream, ident, punct, Syntax}
use crubit4rust.Ir.{Record}
use crubit4rust.RsSnippet.{
  Lifetime, RsTypeKind, RsTypeKinds, no_kinds, more_kinds, ◌⊕◌, is_record, lifetimes,
  joined_by_commas, format_generic_params, to_token_stream_replacing_by_self,
  each_replacing_by_self,
}

pub data TraitName : Type 0 where
  ctor_new : RsTypeKinds → TraitName
  unpin_constructor : (name : String) (params : RsTypeKinds) → TraitName
  partial_eq : RsTypeKinds → TraitName
  partial_ord : RsTypeKinds → TraitName
  other_trait : (name : String) (params : RsTypeKinds) (is_unsafe_fn : Bool) → TraitName

unfoldable pub trait_params : TraitName → RsTypeKinds
trait_params (ctor_new params) = params
trait_params (unpin_constructor _ params) = params
trait_params (partial_eq params) = params
trait_params (partial_ord params) = params
trait_params (other_trait _ params _) = params

unfoldable pub lifetimes_of_all : RsTypeKinds → List Lifetime
unfolding lifetimes
lifetimes_of_all no_kinds = []
lifetimes_of_all (more_kinds t ts) = lifetimes t ++ lifetimes_of_all ts

-- `TraitName::lifetimes`
unfoldable pub trait_lifetimes : TraitName → List Lifetime
unfolding trait_params lifetimes_of_all
trait_lifetimes name = lifetimes_of_all (trait_params name)

unfoldable pub is_trait_record : Option Record → RsTypeKind → Bool
unfolding is_record
is_trait_record none t = false
is_trait_record (some trait_record) t = is_record t trait_record

module _ (syntax : Syntax) (lifetime_tokens : String → Option TokenStream)
    (same_record : Record → Record → Bool) where
  unfoldable pub format_generic_params_replacing_by_self :
      RsTypeKinds → Option Record → Option TokenStream
  unfolding each_replacing_by_self
  format_generic_params_replacing_by_self types trait_record =
      format_generic_params syntax lifetime_tokens []
        (each_replacing_by_self syntax lifetime_tokens same_record trait_record types)

  unfoldable pub format_tuple_except_singleton_replacing_by_self :
      RsTypeKinds → Option Record → Option TokenStream
  unfolding to_token_stream_replacing_by_self each_replacing_by_self joined_by_commas ◌⊕◌
  format_tuple_except_singleton_replacing_by_self (more_kinds singleton no_kinds) trait_record =
      to_token_stream_replacing_by_self syntax lifetime_tokens same_record trait_record singleton
  format_tuple_except_singleton_replacing_by_self items trait_record =
      some (punct "(" ∷ [])
      ⊕ joined_by_commas
          (each_replacing_by_self syntax lifetime_tokens same_record trait_record items)
      ⊕ some (punct ")" ∷ [])

  -- The tokens of `PartialEq` or `PartialOrd`, which have one parameter.
  unfoldable pub comparison_tokens : String → RsTypeKinds → Option Record → Option TokenStream
  unfolding is_trait_record format_generic_params_replacing_by_self ◌⊕◌
  comparison_tokens name (more_kinds t no_kinds) trait_record =
      if is_trait_record trait_record t
      then some (ident name ∷ [])
      else (some (ident name ∷ [])
          ⊕ format_generic_params_replacing_by_self (more_kinds t no_kinds) trait_record)
  comparison_tokens name _ trait_record = none

  unfoldable pub to_token_stream_removing_trait_record :
      TraitName → Option Record → Option TokenStream
  unfolding ◌⊕◌ format_generic_params_replacing_by_self comparison_tokens
      format_tuple_except_singleton_replacing_by_self
  to_token_stream_removing_trait_record (unpin_constructor name params) trait_record =
      syntax.parse_tokens name ⊕ format_generic_params_replacing_by_self params trait_record
  to_token_stream_removing_trait_record (other_trait name params _) trait_record =
      syntax.parse_tokens name ⊕ format_generic_params_replacing_by_self params trait_record
  to_token_stream_removing_trait_record (partial_eq params) trait_record =
      comparison_tokens "PartialEq" params trait_record
  to_token_stream_removing_trait_record (partial_ord params) trait_record =
      comparison_tokens "PartialOrd" params trait_record
  to_token_stream_removing_trait_record (ctor_new arg_types) trait_record =
      some (punct "::" ∷ ident "ctor" ∷ punct "::" ∷ ident "CtorNew" ∷ punct "<" ∷ [])
      ⊕ format_tuple_except_singleton_replacing_by_self arg_types trait_record
      ⊕ some (punct ">" ∷ [])

pub data ImplFor : Type 0 where
  for_t for_ref_t : ImplFor

pub record TraitImpl : Type 0 where
  pub record_ : Record
  pub trait_name : TraitName
  pub impl_for : ImplFor
  pub trait_generic_params : List Lifetime
  pub format_first_param_as_self : Bool
  pub drop_return : Bool
  pub associated_return_type : Option String
  pub force_const_reference_params : Bool

pub data ImplKind : Type 0 where
  no_impl : (is_unsafe : Bool) → ImplKind
  struct_impl : (r : Record) (is_unsafe format_first_param_as_self : Bool) → ImplKind
  trait_impl : TraitImpl → ImplKind

unfoldable pub new_trait : TraitName → Record → Bool → Bool → ImplKind
new_trait name r first_param_as_self const_reference_params = trait_impl record {
  record_ = r;
  trait_name = name;
  impl_for = for_t;
  trait_generic_params = [];
  format_first_param_as_self = first_param_as_self;
  drop_return = false;
  associated_return_type = none;
  force_const_reference_params = const_reference_params;
}

unfoldable pub first_param_is_self : ImplKind → Bool
first_param_is_self (no_impl _) = false
first_param_is_self (struct_impl _ _ format_first_param_as_self) = format_first_param_as_self
first_param_is_self (trait_impl t) = t.format_first_param_as_self

unfoldable pub trait_is_unsafe : TraitName → Bool
trait_is_unsafe (other_trait _ _ is_unsafe_fn) = is_unsafe_fn
trait_is_unsafe _ = false

-- `ImplKind::is_unsafe`
unfoldable pub impl_is_unsafe : ImplKind → Bool
unfolding trait_is_unsafe
impl_is_unsafe (no_impl is_unsafe) = is_unsafe
impl_is_unsafe (struct_impl _ is_unsafe _) = is_unsafe
impl_is_unsafe (trait_impl t) = trait_is_unsafe t.trait_name
