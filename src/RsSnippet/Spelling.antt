-- ===== src/RsSnippet/Spelling.antt =====
-- The names of primitive types in rs_snippet.rs: what is parsed is what is printed.
use Prim.Native.String.{◌++◌ as str_append}
use crubit4rust.Base.{
  Bool-cases, All, nat_eq, string_eq, int_eq, String, ◌≡◌, refl, sym, ap, ◌∙◌, subst, ◌↔◌, ◌⊎◌, inl,
  inr, Bool, true, false, some, List, [], ◌∷◌, arith,
}
use crubit4rust.CodeGen.{TokenStream, ident, punct, text_literal}
use crubit4rust.RsSnippet.{
  PrimitiveType, unit_, bool_, u8, i8, u16, i16, u32, i32, u64, i64, usize, isize, f32, f64, c_char,
  c_uchar, c_schar, c_ushort, c_short, c_uint, c_int, c_ulong, c_long, c_ulonglong, c_longlong,
  from_str, first_arm, primitive_tokens, primitive_names,
}

-- The text of a stream without white space.
unfoldable pub spelled : TokenStream → String
spelled [] = ""
spelled (ident s ∷ ts) = str_append s (spelled ts)
spelled (punct s ∷ ts) = str_append s (spelled ts)
spelled (text_literal s ∷ ts) = str_append s (spelled ts)

abbrev pub is_unit : PrimitiveType → Bool
is_unit unit_ = true
is_unit _ = false

-- What the first arm for a string has, if all arms have it.
first_arm-All :
    (P : String → PrimitiveType → Type 0) (arms : List (String × PrimitiveType)) (s : String)
    (p : PrimitiveType)
    → All (λ arm. P arm.0 arm.1) arms
    → first_arm arms s ≡ some p
    → P s p
unfolding first_arm
first_arm-All P [] s p all h = absurd (ground arith)
first_arm-All P ((name, t) ∷ arms) s p all h = elim (Bool-cases (string_eq.beq name s)) [
  | inl eq ↦
      let same : t ≡ p = ground arith in
      subst (λ q. P s q) same (subst (λ r. P r t) ((string_eq.beq_iff name s).0 eq) all.0)
  | inr ne ↦ first_arm-All P arms s p all.1 (ground arith)
]

-- The name is the text of the type, unless the type is the unit type.
Spells : String → PrimitiveType → Type 0
Spells s p = (is_unit p ≡ true) ⊎ (spelled (primitive_tokens p) ≡ s)

primitive_names-Spells : All (λ arm. Spells arm.0 arm.1) primitive_names
unfolding Spells spelled primitive_tokens
primitive_names-Spells = (
  inl refl,
  (
    inr refl,
    (
      inr refl,
      (
        inr refl,
        (
          inr refl,
          (
            inr refl,
            (
              inr refl,
              (
                inr refl,
                (
                  inr refl,
                  (
                    inr refl,
                    (
                      inr refl,
                      (
                        inr refl,
                        (
                          inr refl,
                          (
                            inr refl,
                            (
                              inr refl,
                              (
                                inr refl,
                                (
                                  inr refl,
                                  (
                                    inr refl,
                                    (
                                      inr refl,
                                      (
                                        inr refl,
                                        (
                                          inr refl,
                                          (inr refl, (inr refl, (inr refl, (inr refl, tt)))),
                                        ),
                                      ),
                                    ),
                                  ),
                                ),
                              ),
                            ),
                          ),
                        ),
                      ),
                    ),
                  ),
                ),
              ),
            ),
          ),
        ),
      ),
    ),
  ),
)

from_str-spelled :
    (p : PrimitiveType) → is_unit p ≡ false → from_str (spelled (primitive_tokens p)) ≡ some p
unfolding from_str first_arm spelled primitive_tokens
from_str-spelled unit_ h = absurd (ground arith)
from_str-spelled bool_ h = refl
from_str-spelled u8 h = refl
from_str-spelled i8 h = refl
from_str-spelled u16 h = refl
from_str-spelled i16 h = refl
from_str-spelled u32 h = refl
from_str-spelled i32 h = refl
from_str-spelled u64 h = refl
from_str-spelled i64 h = refl
from_str-spelled usize h = refl
from_str-spelled isize h = refl
from_str-spelled f32 h = refl
from_str-spelled f64 h = refl
from_str-spelled c_char h = refl
from_str-spelled c_uchar h = refl
from_str-spelled c_schar h = refl
from_str-spelled c_ushort h = refl
from_str-spelled c_short h = refl
from_str-spelled c_uint h = refl
from_str-spelled c_int h = refl
from_str-spelled c_ulong h = refl
from_str-spelled c_long h = refl
from_str-spelled c_ulonglong h = refl
from_str-spelled c_longlong h = refl

-- A string is parsed as a primitive type other than the unit type exactly when it is the text of
-- the tokens that the type is printed as.
pub from_str_iff :
    (s : String) (p : PrimitiveType)
    → is_unit p ≡ false
    → (from_str s ≡ some p) ↔ (s ≡ spelled (primitive_tokens p))
unfolding from_str Spells
from_str_iff s p h = (
  λ e. elim (first_arm-All Spells primitive_names s p primitive_names-Spells e) [
    | inl unit ↦ absurd (ground arith)
    | inr same ↦ sym same
  ],
  λ e. ap from_str e ∙ from_str-spelled p h,
)
