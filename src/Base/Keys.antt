-- ===== src/Base/Keys.antt =====
-- Equality of keys as an interface (Rust's `Eq`), and how often a key occurs in a list.
use Prim.Native.Nat.{ℕ, ◌+◌, ◌<◌}
use Prim.Native.String.{String}
use mathlib.Core.Path.{◌≡◌, refl}
use mathlib.Core.Logic.{◌↔◌, inl, inr}
use mathlib.Core.Bool.{Bool, true, false}
use mathlib.Core.List.{List, [], ◌∷◌, ◌++◌}
use native.Mathlib.Omega.{arith}
use text.Mathlib.Text.{◌==◌ as str_eq}
use text.Mathlib.TextEquality.{eq_iff}
use crubit4rust.Base.Tests.{◌==◌, ==_iff, Bool-cases, if◌then◌else◌}

pub record Eq {ℓ} (A : Type ℓ) : Type ℓ where
  pub beq : A → A → Bool
  pub beq_iff : (a b : A) → (beq a b ≡ true) ↔ (a ≡ b)

instance abbrev pub nat_eq : Eq ℕ
nat_eq = record { beq = ◌==◌; beq_iff = ==_iff }

instance abbrev pub string_eq : Eq String
string_eq = record { beq = str_eq; beq_iff = eq_iff }

module _ {ℓ} {A : Type ℓ} ⦃e : Eq A⦄ where
  pub beq_refl : (a : A) → e.beq a a ≡ true
  beq_refl a = (e.beq_iff a a).1 refl

  abbrev pub contains : List A → A → Bool
  contains [] a = false
  contains (x ∷ xs) a = if e.beq x a then true else contains xs a

  -- The number of times that `a` stands in the list.
  abbrev pub occ : A → List A → ℕ
  occ a [] = 0
  occ a (x ∷ xs) = (if e.beq x a then 1 else 0) + occ a xs

  pub occ-append : (a : A) (xs ys : List A) → occ a (xs ++ ys) ≡ occ a xs + occ a ys
  occ-append a [] ys = omega arith
  occ-append a (x ∷ xs) ys = omega (arith, occ-append a xs ys)

  pub occ-split :
      (a : A) (l : List A) → 0 < occ a l → (xs : List A) × (ys : List A) × (l ≡ xs ++ a ∷ ys)
  occ-split a [] h = elim h [ ]
  occ-split a (x ∷ l) h = elim (Bool-cases (e.beq x a)) [
    | inl eq ↦ ([], l, ground (arith, (e.beq_iff x a).0 eq))
    | inr ne ↦ let (xs, ys, s) = occ-split a l (ground arith) in (x ∷ xs, ys, ground arith)
  ]
