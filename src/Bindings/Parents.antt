-- ===== src/Bindings/Parents.antt =====
-- What `has_bindings` of lib.rs guarantees when it does not say no.
use crubit4rust.Base.{
  Option-cases, nat_eq, string_eq, ok, Result-cases, int_eq, ℕ, zero, suc, ◌≡◌, refl, sym, ap, ◌∙◌,
  subst, ◌⊎◌, inl, inr, Bool, true, false, some, [], ◌∷◌, arith,
}
use crubit4rust.Features.{FlagSets}
use crubit4rust.Ir.{Ir, ItemId, Item, enclosing_item_id, find_untyped_decl}
use crubit4rust.Bindings.{
  name_of, Generator, HasBindings, yes, maybe, no, missing_bindings, under_parent, has_bindings,
  item_required_features, panicked, failed,
}

abbrev pub not_no : {Features : Type 0} → HasBindings Features → Bool
not_no yes = true
not_no maybe = true
not_no (no _) = false

-- The item stands in the other, directly or further inside.
pub data Within {Features : Type 0} (ir : Ir Features) : Item → Item → Type 0 where
  directly :
      (item parent : Item) (id : ItemId)
      → enclosing_item_id item ≡ some id
      → find_untyped_decl ir id ≡ ok parent
      → Within ir item parent
  further :
      (item parent root : Item) (id : ItemId)
      → enclosing_item_id item ≡ some id
      → find_untyped_decl ir id ≡ ok parent
      → Within ir parent root
      → Within ir item root

-- The item itself, or one around it.
abbrev pub Around : {Features : Type 0} → Ir Features → Item → Item → Type 0
Around ir item root = (root ≡ item) ⊎ Within ir item root

module _ (flags : FlagSets) (db : Generator flags) where
  open flags use {FlagSet}

  -- A result that stops early is a no.
  missing_bindings-not_no :
      (fuel : ℕ) (item : Item) (result : HasBindings FlagSet)
      → missing_bindings flags db fuel item ≡ ok (some result)
      → not_no result ≡ false
  unfolding missing_bindings
  missing_bindings-not_no fuel item result h = elim (Result-cases (name_of flags db fuel item)) [
    | inl (failure, k) ↦ elim (Result-cases (item_required_features flags db fuel item)) [
      | inl (panicked p, q) ↦ ground arith
      | inl (failed e, q) ↦ ground arith
      | inr ([], q) ↦ ground arith
      | inr (r ∷ rs, q) ↦ ground arith
    ]
    | inr (name, k) ↦ elim (Result-cases (item_required_features flags db fuel item)) [
      | inl (panicked p, q) ↦ ground arith
      | inl (failed e, q) ↦ ground arith
      | inr ([], q) ↦ ground arith
      | inr (r ∷ rs, q) ↦ ground arith
    ]
  ]

  under_parent-not_no :
      (fuel : ℕ) (item parent : Item) (of_parent result : HasBindings FlagSet)
      → under_parent flags db fuel item parent of_parent ≡ ok result
      → not_no result ≡ true
      → of_parent ≡ yes
  unfolding under_parent
  under_parent-not_no fuel item parent yes result h n = refl
  under_parent-not_no fuel item parent maybe result h n =
      absurd (elim (Result-cases (name_of flags db fuel item)) [
        | inl (failure, k) ↦ ground arith
        | inr (name, k) ↦ ground arith
      ])
  under_parent-not_no fuel item parent (no reason) result h n =
      absurd (elim (Result-cases (name_of flags db fuel item)) [
        | inl (failure, k) ↦ ground arith
        | inr (name, k) ↦ ground arith
      ])

  has_bindings-step :
      (fuel : ℕ) (item parent : Item) (id : ItemId) (result : HasBindings FlagSet)
      → has_bindings flags db (suc fuel) item ≡ ok result
      → not_no result ≡ true
      → enclosing_item_id item ≡ some id
      → find_untyped_decl db.ir id ≡ ok parent
      → has_bindings flags db fuel parent ≡ ok yes
  unfolding has_bindings
  has_bindings-step fuel item parent id result h n e f =
      elim (Result-cases (missing_bindings flags db fuel item)) [
        | inl (failure, m) ↦ absurd (ground arith)
        | inr (outcome, m) ↦ elim (Option-cases outcome) [
          | inr (r, s) ↦ absurd (ground (arith, missing_bindings-not_no fuel item r (m ∙ ap ok s)))
          | inl s ↦ elim (Result-cases (has_bindings flags db fuel parent)) [
            | inl (failure, p) ↦ absurd (ground arith)
            | inr (of_parent, p) ↦
                p ∙ ap ok (under_parent-not_no fuel item parent of_parent result (ground arith) n)
          ]
        ]
      ]

  -- Something that is found to have bindings misses no feature.
  has_bindings-required :
      (fuel : ℕ) (item : Item) (result : HasBindings FlagSet)
      → has_bindings flags db (suc fuel) item ≡ ok result
      → not_no result ≡ true
      → item_required_features flags db fuel item ≡ ok []
  unfolding has_bindings missing_bindings
  has_bindings-required fuel item result h n =
      elim (Result-cases (item_required_features flags db fuel item)) [
        | inl (panicked p, q) ↦ absurd (ground arith)
        | inl (failed e, q) ↦ absurd (ground (arith, Result-cases (name_of flags db fuel item)))
        | inr ([], q) ↦ q
        | inr (r ∷ rs, q) ↦ absurd (ground (arith, Result-cases (name_of flags db fuel item)))
      ]

  Within-has_bindings :
      (fuel : ℕ) (item root : Item) (result : HasBindings FlagSet)
      → Within db.ir item root
      → has_bindings flags db fuel item ≡ ok result
      → not_no result ≡ true
      → (less : ℕ) × (has_bindings flags db less root ≡ ok yes)
  unfolding has_bindings
  Within-has_bindings zero item root result w h n = absurd (ground arith)
  Within-has_bindings (suc fuel) item root result (directly _ _ id e f) h n =
      (fuel, has_bindings-step fuel item root id result h n e f)
  Within-has_bindings (suc fuel) item root result (further _ parent _ id e f w) h n =
      Within-has_bindings fuel parent root yes w
        (has_bindings-step fuel item parent id result h n e f) refl

  -- Some fuel shows that the item misses no feature.
  abbrev MissesNone : Item → Type 0
  MissesNone item = (fuel : ℕ) × (item_required_features flags db fuel item ≡ ok [])

  has_bindings-MissesNone :
      (fuel : ℕ) (item : Item) (result : HasBindings FlagSet)
      → has_bindings flags db fuel item ≡ ok result
      → not_no result ≡ true
      → MissesNone item
  unfolding has_bindings
  has_bindings-MissesNone zero item result h n = absurd (ground arith)
  has_bindings-MissesNone (suc fuel) item result h n =
      (fuel, has_bindings-required fuel item result h n)

  -- If `has_bindings` says yes or maybe of an item, with whatever fuel, then the item and every
  -- item around it miss no feature, and it says yes of every item around it.
  pub has_bindings-Around :
      (fuel : ℕ) (item root : Item) (result : HasBindings FlagSet)
      → Around db.ir item root
      → has_bindings flags db fuel item ≡ ok result
      → not_no result ≡ true
      → ((less : ℕ) × (item_required_features flags db less root ≡ ok []))
        × ((root ≡ item) ⊎ ((less : ℕ) × (has_bindings flags db less root ≡ ok yes)))
  has_bindings-Around fuel item root result (inl same) h n =
      (subst MissesNone (sym same) (has_bindings-MissesNone fuel item result h n), inl same)
  has_bindings-Around fuel item root result (inr w) h n =
      let (less, of_root) = Within-has_bindings fuel item root result w h n in
      (has_bindings-MissesNone less root yes of_root refl, inr (less, of_root))
