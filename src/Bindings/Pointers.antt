-- ===== src/Bindings/Pointers.antt =====
-- C++ references in thunks.
use crubit4rust.Base.{
  nat_eq, string_eq, contains, ok, ◌>>=◌, int_eq, ℕ, String, ◌≡◌, sym, ◌∙◌, Bool, true, false,
  Option, some, [], ◌∷◌, ◌++◌, arith,
}
use crubit4rust.CodeGen.{Syntax, punct}
use crubit4rust.Ir.{Ir, ItemId, CcTypes, cc_type}
use crubit4rust.Bindings.{
  cpp_name, pointer_tokens, format_pointee, format_cpp_type_inner, format_cpp_type, const_fragment,
}

-- The names of pointers and references.
abbrev pub is_pointer_name : String → Bool
is_pointer_name name = contains ("*" ∷ "&" ∷ "&&" ∷ []) name

written_as_pointer :
    (syntax : Syntax) {Features : Type 0} (fuel : ℕ) (ir : Ir Features) (name : String)
    (is_const : Bool) (type_args : CcTypes) (decl_id : Option ItemId)
    → is_pointer_name name ≡ true
    → format_cpp_type syntax fuel ir (cc_type (some name) is_const type_args decl_id) ≡ (
        format_pointee syntax fuel ir type_args false >>= λ nested.
        ok (nested ++ punct "*" ∷ const_fragment is_const))
unfolding format_cpp_type format_cpp_type_inner pointer_tokens cpp_name
written_as_pointer syntax fuel ir name is_const type_args decl_id h = ground arith

-- The type of a thunk does not tell pointers, lvalue references and rvalue references apart: with
-- the same type argument and the same constness, all are written alike.
pub format_cpp_type-is_pointer_name :
    (syntax : Syntax) {Features : Type 0} (fuel : ℕ) (ir : Ir Features) (a b : String)
    (is_const : Bool) (type_args : CcTypes) (decl_id : Option ItemId)
    → is_pointer_name a ≡ true
    → is_pointer_name b ≡ true
    → format_cpp_type syntax fuel ir (cc_type (some a) is_const type_args decl_id)
      ≡ format_cpp_type syntax fuel ir (cc_type (some b) is_const type_args decl_id)
format_cpp_type-is_pointer_name syntax fuel ir a b is_const type_args decl_id ha hb =
    written_as_pointer syntax fuel ir a is_const type_args decl_id ha
    ∙ sym (written_as_pointer syntax fuel ir b is_const type_args decl_id hb)
