-- ===== src/Ir/Enclosing.antt =====
-- `namespace_qualifier` of ir.rs: the walk through the enclosing namespaces of an item.
use crubit4rust.Base.{
  ℕ, zero, suc, List, [], ◌∷◌, ◌++◌, Option, none, some, String, Result, ok, err, ◌>>=◌,
}
use crubit4rust.CodeGen.{NamespaceQualifier}
use crubit4rust.Ir.Types.{ItemId}
use crubit4rust.Ir.Items.{Item, as_namespace, as_record}
use crubit4rust.Ir.Build.{
  Ir, Failure, namespaces_in_record, expected_namespace, out_of_fuel, item_id,
}
use crubit4rust.Ir.Queries.{find_untyped_decl}
use crubit4rust.Ir.Accessors.{enclosing_item_id}

-- `into_iter().rev()`
unfoldable pub reversed : {A : Type 0} → List A → List A
reversed [] = []
reversed (x ∷ xs) = reversed xs ++ x ∷ []

module _ {Features : Type 0} where
  -- The `while let` loop, with the names pushed so far; each round takes a unit of fuel.
  unfoldable pub enclosing_namespaces :
      ℕ → Ir Features → List String → Option ItemId → Result Failure (List String)
  unfolding find_untyped_decl
  enclosing_namespaces fuel ir names none = ok names
  enclosing_namespaces zero ir names (some parent_id) = err out_of_fuel
  enclosing_namespaces (suc fuel) ir names (some parent_id) =
      elim (find_untyped_decl ir parent_id) [
        | err failure ↦ err failure
        | ok item ↦ elim (as_namespace item) [
          | some ns ↦
              enclosing_namespaces fuel ir (names ++ ns.name.identifier ∷ []) ns.enclosing_item_id
          | none ↦ elim (as_record item) [
            | some _ ↦ elim names [ [] ↦ ok [] | _ ∷ _ ↦ err namespaces_in_record ]
            | none ↦ err expected_namespace
          ]
        ]
      ]

  unfoldable pub namespace_qualifier : ℕ → Ir Features → Item → Result Failure NamespaceQualifier
  unfolding find_untyped_decl item_id enclosing_item_id enclosing_namespaces reversed
  namespace_qualifier fuel ir item = do
    found ← find_untyped_decl ir (item_id item)
    names ← enclosing_namespaces fuel ir [] (enclosing_item_id found)
    ok (record { names = reversed names })
