-- ===== src/MergedNamespaces/Maps.antt =====
-- The ordered maps and sets of merged_namespaces.rs: lookups after writes.
use text.Mathlib.TextEquality.{path_by_compare}
use text.Mathlib.TextPositions.{compare_refl}
use crubit4rust.Base.{
  nat_eq, string_eq, contains, int_eq, String, ◌≡◌, ◌||◌, none, some, List, [], ◌∷◌, arith,
}
use crubit4rust.MergedNamespaces.{
  MergedNamespace, NamespaceMap, namespace, get, insert, insert_label, append_labels, name,
  children, labels, add_child, add_children,
}

pub contains-insert_label :
    (l k : String) (ls : List String)
    → contains (insert_label l ls) k ≡ string_eq.beq l k || contains ls k
unfolding insert_label
contains-insert_label l k [] = ground arith
contains-insert_label l k (m ∷ ms) =
    ground (arith, contains-insert_label l k ms, path_by_compare l m, compare_refl k)

-- A set has what both had.
pub contains-append_labels :
    (k : String) (ls ms : List String)
    → contains (append_labels ls ms) k ≡ contains ls k || contains ms k
unfolding append_labels
contains-append_labels k ls [] = ground arith
contains-append_labels k ls (m ∷ ms) =
    ground (arith, contains-append_labels k (insert_label m ls) ms, contains-insert_label m k ls)

-- The two branches of `add_child`.
module _ (k : String) (cs : NamespaceMap) (ls : List String) (self : MergedNamespace) where
  pub add_child-new :
      get k (children self) ≡ none
      → add_child (namespace k cs ls) self
        ≡ namespace
            (name self)
            (insert k (namespace k cs ls) (children self))
            (append_labels (labels self) ls)
  unfolding add_child
  add_child-new h = ground arith

  pub add_child-old :
      (child : MergedNamespace)
      → get k (children self) ≡ some child
      → add_child (namespace k cs ls) self
        ≡ namespace
            (name self)
            (insert k (add_children cs child) (children self))
            (append_labels (labels self) ls)
  unfolding add_child
  add_child-old child h = ground arith
