-- ===== src/Base/Maps.antt =====
-- A `HashMap` as an association list in the order of first insertion, and numbers with a sign.
use Prim.Native.Nat.{ℕ}
use mathlib.Core.Path.{◌≡◌, refl, sym, subst, ap, ◌∙◌}
use mathlib.Core.Bool.{Bool, true, false}
use mathlib.Core.Logic.{inl, inr}
use mathlib.Core.List.{List, [], ◌∷◌}
use mathlib.Core.Option.{Option, none, some}
use native.Mathlib.Omega.{arith}
use crubit4rust.Base.Tests.{Bool-cases, if◌then◌else◌, ◌==◌}
use crubit4rust.Base.Keys.{Eq, beq_refl, nat_eq}

-- The integers, for `i32` and `i64` that are only compared.
pub data ℤ : Type 0 where
  pos negsuc : ℕ → ℤ

abbrev pub int_beq : ℤ → ℤ → Bool
int_beq (pos m) (pos n) = m == n
int_beq (negsuc m) (negsuc n) = m == n
int_beq (pos _) (negsuc _) = false
int_beq (negsuc _) (pos _) = false

pub int_beq_sound : (a b : ℤ) → int_beq a b ≡ true → a ≡ b
int_beq_sound (pos m) (pos n) h = ground (arith, nat_eq.beq_iff m n)
int_beq_sound (negsuc m) (negsuc n) h = ground (arith, nat_eq.beq_iff m n)
int_beq_sound (pos m) (negsuc n) h = cc
int_beq_sound (negsuc m) (pos n) h = cc

pub int_beq_self : (a : ℤ) → int_beq a a ≡ true
int_beq_self (pos n) = beq_refl n
int_beq_self (negsuc n) = beq_refl n

instance abbrev pub int_eq : Eq ℤ
int_eq = record {
  beq = int_beq;
  beq_iff = λ a b. (int_beq_sound a b, λ h. subst (λ x. int_beq a x ≡ true) h (int_beq_self a));
}

-- `Option::unwrap_or`, and what `entry(_).or_insert(_)` refers to.
abbrev pub unwrap_or {ℓ} : {A : Type ℓ} → Option A → A → A
unwrap_or none d = d
unwrap_or (some a) d = a

abbrev pub HashMap {ℓ κ} : Type ℓ → Type κ → Type (ℓ ⊔ κ)
HashMap K V = List (K × V)

module _ {ℓ κ} {K : Type ℓ} {V : Type κ} ⦃e : Eq K⦄ where
  -- `HashMap::get`
  unfoldable pub find : K → HashMap K V → Option V
  find k [] = none
  find k ((j, v) ∷ m) = if e.beq j k then some v else find k m

  -- `HashMap::insert`
  unfoldable pub put : K → V → HashMap K V → HashMap K V
  put k v [] = (k, v) ∷ []
  put k v ((j, old) ∷ m) = if e.beq j k then (j, v) ∷ m else (j, old) ∷ put k v m

  pub find-put :
      (k i : K) (v : V) (m : HashMap K V)
      → find k (put i v m) ≡ (if e.beq i k then some v else find k m)
  unfolding find put
  find-put k i v [] = refl
  find-put k i v ((j, old) ∷ m) = elim (Bool-cases (e.beq j i)) [
    | inl eq ↦
        let same = (e.beq_iff j i).0 eq in
        rw (eq) (
          subst (λ t. find k ((t, v) ∷ m) ≡ (if e.beq i k then some v else find k ((t, old) ∷ m)))
            (sym same) (ground arith))
    | inr ne ↦ rw ne (ground (arith, find-put k i v m, e.beq_iff j k, e.beq_iff i k, e.beq_iff j i))
  ]

  pub unwrap_or-put :
      (k i : K) (v d : V) (m : HashMap K V)
      → unwrap_or (find k (put i v m)) d ≡ (if e.beq i k then v else unwrap_or (find k m) d)
  unwrap_or-put k i v d m = elim (Bool-cases (e.beq i k)) [
    | inl eq ↦ ap (λ o. unwrap_or o d) (find-put k i v m) ∙ rw eq refl
    | inr ne ↦ ap (λ o. unwrap_or o d) (find-put k i v m) ∙ rw ne refl
  ]
