-- ===== src/Features/Pair.antt =====
-- Two Booleans as a set of flags: the laws asked of `flagset` can be met.
use crubit4rust.Base.{Bool, true, false, not, ◌&&◌, ◌||◌, ◌≡◌, ◌↔◌, refl, arith}
use crubit4rust.Features.{FlagSets, CrubitFeature, supported, experimental, feature_eq}

abbrev pub bit : Bool × Bool → CrubitFeature → Bool
bit b supported = b.0
bit b experimental = b.1

abbrev pub is_none : Bool × Bool → Bool
is_none b = not (b.0 || b.1)

pub bit-from :
    (g f : CrubitFeature)
    → bit (feature_eq g supported, feature_eq g experimental) f ≡ feature_eq g f
bit-from supported supported = refl
bit-from supported experimental = refl
bit-from experimental supported = refl
bit-from experimental experimental = refl

pub bit-false : (f : CrubitFeature) → bit (false, false) f ≡ false
bit-false supported = refl
bit-false experimental = refl

pub bit-true : (f : CrubitFeature) → bit (true, true) f ≡ true
bit-true supported = refl
bit-true experimental = refl

pub bit-or :
    (a b : Bool × Bool) (f : CrubitFeature) → bit (a.0 || b.0, a.1 || b.1) f ≡ bit a f || bit b f
bit-or a b supported = refl
bit-or a b experimental = refl

pub bit-and :
    (a b : Bool × Bool) (f : CrubitFeature) → bit (a.0 && b.0, a.1 && b.1) f ≡ bit a f && bit b f
bit-and a b supported = refl
bit-and a b experimental = refl

pub bit-minus :
    (a b : Bool × Bool) (f : CrubitFeature)
    → bit (a.0 && not b.0, a.1 && not b.1) f ≡ bit a f && not (bit b f)
bit-minus a b supported = refl
bit-minus a b experimental = refl

pub is_none_lem : (a : Bool × Bool) → (is_none a ≡ true) ↔ ((f : CrubitFeature) → bit a f ≡ false)
is_none_lem (false, false) = (λ h. bit-false, λ h. refl)
is_none_lem (true, b) = (λ h. absurd (ground arith), λ h. absurd (ground (arith, h supported)))
is_none_lem (false, true) =
    (λ h. absurd (ground arith), λ h. absurd (ground (arith, h experimental)))

abbrev pub pairs : FlagSets
pairs = record {
  FlagSet = Bool × Bool;
  contains = bit;
  default = (false, false);
  full = (true, true);
  from = λ g. (feature_eq g supported, feature_eq g experimental);
  union = λ a b. (a.0 || b.0, a.1 || b.1);
  intersection = λ a b. (a.0 && b.0, a.1 && b.1);
  difference = λ a b. (a.0 && not b.0, a.1 && not b.1);
  is_empty = is_none;
  contains-default = bit-false;
  contains-full = bit-true;
  contains-from = bit-from;
  contains-union = bit-or;
  contains-intersection = bit-and;
  contains-difference = bit-minus;
  is_empty_iff = is_none_lem;
}
