-- ===== src/Ir/Scopes.antt =====
-- The namespaces around an item in ir.rs, as a relation, and the walk that finds them.
use crubit4rust.Base.{
  ℕ, zero, suc, List, [], ◌∷◌, ◌++◌, Option, none, some, String, Result, ok, ◌≡◌, ◌↔◌, sym, subst,
  ap, ◌∙◌, arith, Option-cases, Result-cases, inl, inr, append-nil, append_assoc, >>=-eq-ok,
  ok-injective,
}
use crubit4rust.CodeGen.{NamespaceQualifier}
use crubit4rust.Ir.{
  Item, ItemId, Namespace, Record, Ir, Failure, item_id, as_namespace, as_record, find_untyped_decl,
  enclosing_item_id, reversed, enclosing_namespaces, namespace_qualifier,
}

module _ {Features : Type 0} (ir : Ir Features) where
  -- The names of the namespaces around, the innermost first: a chain of namespaces that ends at the
  -- top level.
  pub data Within : Option ItemId → List String → Type 0 where
    outermost : Within none []
    inside :
        {id : ItemId} {item : Item} {ns : Namespace} {names : List String}
        → find_untyped_decl ir id ≡ ok item
        → as_namespace item ≡ some ns
        → Within ns.enclosing_item_id names
        → Within (some id) (ns.name.identifier ∷ names)

  -- What `namespace_qualifier` accepts: such a chain, or a record directly around the item, whose
  -- own namespaces are left out.
  pub data Scope : Option ItemId → List String → Type 0 where
    of_namespaces : {id : Option ItemId} {names : List String} → Within id names → Scope id names
    of_record :
        {id : ItemId} {item : Item} {r : Record}
        → find_untyped_decl ir id ≡ ok item
        → as_namespace item ≡ none
        → as_record item ≡ some r
        → Scope (some id) []

  walks :
      {id : Option ItemId} {names : List String}
      → Within id names
      → (fuel : ℕ) × ((acc : List String) → enclosing_namespaces fuel ir acc id ≡ ok (acc ++ names))
  unfolding enclosing_namespaces
  walks outermost = (0, λ acc. ap ok (sym (append-nil acc)))
  walks (inside {id} {item} {ns} {names} found is w) =
      let (fuel, rest) = walks w in
      (
        suc fuel,
        λ acc.
            let step : enclosing_namespaces (suc fuel) ir acc (some id)
                ≡ enclosing_namespaces fuel ir (acc ++ ns.name.identifier ∷ [])
                    ns.enclosing_item_id =
              ground arith in
            step
            ∙ rest (acc ++ ns.name.identifier ∷ [])
            ∙ ap ok (append_assoc acc (ns.name.identifier ∷ []) names),
      )

  -- After a first namespace, only namespaces follow.
  walk-Within :
      (fuel : ℕ) (a : String) (acc r : List String) (id : Option ItemId)
      → enclosing_namespaces fuel ir (a ∷ acc) id ≡ ok r
      → (names : List String) × Within id names × (r ≡ (a ∷ acc) ++ names)
  unfolding enclosing_namespaces
  walk-Within zero a acc r none h =
      ([], outermost, sym (ok-injective h) ∙ sym (append-nil (a ∷ acc)))
  walk-Within (suc fuel) a acc r none h =
      ([], outermost, sym (ok-injective h) ∙ sym (append-nil (a ∷ acc)))
  walk-Within zero a acc r (some id) h = cc
  walk-Within (suc fuel) a acc r (some id) h = elim (Result-cases (find_untyped_decl ir id)) [
    | inl (e, failed) ↦ absurd (ground arith)
    | inr (item, found) ↦ elim (Option-cases (as_namespace item)) [
      | inl other ↦ absurd (ground (arith, Option-cases (as_record item)))
      | inr (ns, is) ↦
          let (names, w, split) =
            walk-Within fuel a (acc ++ ns.name.identifier ∷ []) r ns.enclosing_item_id
              (ground arith) in
          (
            ns.name.identifier ∷ names,
            inside found is w,
            split ∙ ap (λ l. a ∷ l) (append_assoc acc (ns.name.identifier ∷ []) names),
          )
    ]
  ]

  walk-Scope :
      (fuel : ℕ) (r : List String) (id : Option ItemId)
      → enclosing_namespaces fuel ir [] id ≡ ok r
      → Scope id r
  unfolding enclosing_namespaces
  walk-Scope zero r none h = subst (Scope none) (ok-injective h) (of_namespaces outermost)
  walk-Scope (suc fuel) r none h = subst (Scope none) (ok-injective h) (of_namespaces outermost)
  walk-Scope zero r (some id) h = cc
  walk-Scope (suc fuel) r (some id) h = elim (Result-cases (find_untyped_decl ir id)) [
    | inl (e, failed) ↦ absurd (ground arith)
    | inr (item, found) ↦ elim (Option-cases (as_namespace item)) [
      | inr (ns, is) ↦
          let (names, w, split) =
            walk-Within fuel ns.name.identifier [] r ns.enclosing_item_id (ground arith) in
          subst (Scope (some id)) (sym split) (of_namespaces (inside found is w))
      | inl other ↦ elim (Option-cases (as_record item)) [
        | inl neither ↦ absurd (ground arith)
        | inr (rec, is) ↦
            let stops : ◌≡◌ {A = Result Failure (List String)} (ok []) (ok r) = ground arith in
            subst (Scope (some id)) (ok-injective stops) (of_record found other is)
      ]
    ]
  ]

  Scope-walks :
      {id : Option ItemId} {names : List String}
      → Scope id names
      → (fuel : ℕ) × (enclosing_namespaces fuel ir [] id ≡ ok names)
  unfolding enclosing_namespaces
  Scope-walks (of_namespaces w) = let (fuel, walk) = walks w in (fuel, walk [])
  Scope-walks (of_record found other is) = (1, ground arith)

  -- With enough fuel, `namespace_qualifier` gives a qualifier exactly when the item is found in the
  -- IR and stands inside a chain of namespaces that reaches the top level (or directly inside a
  -- record), and then it holds the names of these namespaces (none for a record), outermost first.
  -- So it does not return on a cycle of namespaces.
  pub namespace_qualifier_iff :
      (item : Item) (q : NamespaceQualifier)
      → ((fuel : ℕ) × (namespace_qualifier fuel ir item ≡ ok q)) ↔ (
          (found : Item) × (inner : List String) × (find_untyped_decl ir (item_id item) ≡ ok found)
          × (Scope (enclosing_item_id found) inner × (q.names ≡ reversed inner)))
  unfolding namespace_qualifier
  namespace_qualifier_iff item q = (
    λ (fuel, h).
        let (found, there, rest) = >>=-eq-ok (find_untyped_decl ir (item_id item)) _ h in
        let (names, walked, made) =
          >>=-eq-ok (enclosing_namespaces fuel ir [] (enclosing_item_id found)) _ rest in
        (
          found,
          names,
          there,
          (
            walk-Scope fuel names (enclosing_item_id found) walked,
            sym (ap (λ n. n.names) (ok-injective made)),
          ),
        ),
    λ (found, inner, there, (scope, same)).
        let (fuel, walk) = Scope-walks scope in (fuel, ground arith),
  )
