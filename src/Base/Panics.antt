-- ===== src/Base/Panics.antt =====
-- Rust's `Result` and panics, as one type of outcomes for each.
use mathlib.Core.Path.{◌≡◌, refl}
use mathlib.Core.Logic.{◌⊎◌, inl, inr}

-- `Result<A, E>`.
pub data Result {ℓ} (E : Type ℓ) (A : Type ℓ) : Type ℓ where
  err : E → Result E A
  ok : A → Result E A

module _ {ℓ} {E : Type ℓ} where
  infixl 5 ◌>>=◌
  -- What `?` does, and a panic on its way up.
  abbrev pub ◌>>=◌ : {A B : Type ℓ} → Result E A → (A → Result E B) → Result E B
  r >>= next = elim r [ err failure ↦ err failure | ok value ↦ next value ]

  -- A chain that succeeds has a first step that succeeds.
  pub >>=-eq-ok :
      {A B : Type ℓ} {result : B} (r : Result E A) (next : A → Result E B)
      → (r >>= next) ≡ ok result
      → (value : A) × (r ≡ ok value) × (next value ≡ ok result)
  >>=-eq-ok (err failure) next h = cc
  >>=-eq-ok (ok value) next h = (value, refl, h)

  pub ok-injective : {A : Type ℓ} {a b : A} → ◌≡◌ {A = Result E A} (ok a) (ok b) → a ≡ b
  ok-injective h = cc

  pub Result-cases :
      {A : Type ℓ} (r : Result E A)
      → ((failure : E) × (r ≡ err failure)) ⊎ ((value : A) × (r ≡ ok value))
  Result-cases (err failure) = inl (failure, refl)
  Result-cases (ok value) = inr (value, refl)
