-- ===== src/Ir/Names.antt =====
-- Equality of the unqualified identifiers of ir.rs.
use crubit4rust.Base.{Bool, true, false, string_eq, Eq, ◌≡◌, refl, subst, ap, beq_refl}
use crubit4rust.Ir.Types.{
  UnqualifiedIdentifier, identifier, operator, constructor_name, destructor_name,
}

abbrev pub name_beq : UnqualifiedIdentifier → UnqualifiedIdentifier → Bool
name_beq (identifier a) (identifier b) = string_eq.beq a.identifier b.identifier
name_beq (operator a) (operator b) = string_eq.beq a.name b.name
name_beq constructor_name constructor_name = true
name_beq destructor_name destructor_name = true
name_beq _ _ = false

pub name_beq_sound : (a b : UnqualifiedIdentifier) → name_beq a b ≡ true → a ≡ b
name_beq_sound (identifier a) (identifier b) h =
    ap (λ s. identifier (record { identifier = s }))
      ((string_eq.beq_iff a.identifier b.identifier).0 h)
name_beq_sound (operator a) (operator b) h =
    ap (λ s. operator (record { name = s })) ((string_eq.beq_iff a.name b.name).0 h)
name_beq_sound constructor_name constructor_name h = refl
name_beq_sound destructor_name destructor_name h = refl
name_beq_sound (identifier a) (operator b) h = cc
name_beq_sound (identifier a) constructor_name h = cc
name_beq_sound (identifier a) destructor_name h = cc
name_beq_sound (operator a) (identifier b) h = cc
name_beq_sound (operator a) constructor_name h = cc
name_beq_sound (operator a) destructor_name h = cc
name_beq_sound constructor_name (identifier b) h = cc
name_beq_sound constructor_name (operator b) h = cc
name_beq_sound constructor_name destructor_name h = cc
name_beq_sound destructor_name (identifier b) h = cc
name_beq_sound destructor_name (operator b) h = cc
name_beq_sound destructor_name constructor_name h = cc

pub name_beq_self : (a : UnqualifiedIdentifier) → name_beq a a ≡ true
name_beq_self (identifier a) = beq_refl a.identifier
name_beq_self (operator a) = beq_refl a.name
name_beq_self constructor_name = refl
name_beq_self destructor_name = refl

instance abbrev pub name_eq : Eq UnqualifiedIdentifier
name_eq = record {
  beq = name_beq;
  beq_iff = λ a b. (name_beq_sound a b, λ h. subst (λ x. name_beq a x ≡ true) h (name_beq_self a));
}
