-- ===== src/MergedNamespaces/Labels.antt =====
-- The labels of merged namespaces, and whole hierarchies.
use Prim.Native.String.{compare}
use text.Mathlib.TextEquality.{path_by_compare}
use crubit4rust.Base.{
  Bool, false, ◌||◌, List, String, string_eq, ◌≡◌, inl, inr, refl, arith, Option-cases, ok, ◌∙◌,
  sym, contains,
}
use crubit4rust.MergedNamespaces.Maps.{add_child-new, add_child-old, contains-append_labels}
use crubit4rust.MergedNamespaces.Paths.{
  in_map, IsNamed, IsNamedMap, KeysAreNames, Ordering-cases, in_map-merge_all,
}
use crubit4rust.MergedNamespaces.{
  MergedNamespace, NamespaceMap, empty, entry, namespace, name, children, labels, get, insert,
  add_child, add_children, append_labels, merge, JsonNamespace, json_namespace, JsonNamespaces, nil,
  cons, json_name, from_json_namespace, from_json_children, JsonNamespaceHierarchy,
  MergedNamespaceHierarchy, from_json_namespace_hierarchy, merge_hierarchies,
}

-- Does a namespace of the map itself have the label?
unfoldable pub labelled : String → NamespaceMap → Bool
labelled l empty = false
labelled l (entry _ ns m) = contains (labels ns) l || labelled l m

labels-add_child :
    (l : String) (ns self : MergedNamespace)
    → contains (labels (add_child ns self)) l ≡ contains (labels self) l || contains (labels ns) l
labels-add_child l (namespace k cs ls) self = elim (Option-cases (get k (children self))) [
  | inl new ↦ rw (add_child-new k cs ls self new) (contains-append_labels l (labels self) ls)
  | inr (child, old) ↦
      rw (add_child-old k cs ls self child old) (contains-append_labels l (labels self) ls)
]

labels-add_children :
    (l : String) (cs : NamespaceMap) (self : MergedNamespace)
    → contains (labels (add_children cs self)) l ≡ contains (labels self) l || labelled l cs
unfolding add_children labelled
labels-add_children l empty self = ground arith
labels-add_children l (entry _ c cs) self =
    ground (arith, labels-add_children l cs (add_child c self), labels-add_child l c self)

-- The labels of a merged namespace are those of both sides, and those of the other side's direct
-- children.
pub labels-merge :
    (self other r : MergedNamespace)
    → merge self other ≡ ok r
    → (l : String)
    → contains (labels r) l
      ≡ contains (labels self) l || contains (labels other) l || labelled l (children other)
unfolding merge
labels-merge self other r e l =
    let start =
      namespace (name self) (children self) (append_labels (labels self) (labels other)) in
    let result : add_children (children other) start ≡ r = ground arith in
    rw (← result) (
      ground (
        arith,
        labels-add_children l (children other) start,
        contains-append_labels l (labels self) (labels other),
      ))

insert-IsNamedMap :
    (k : String) (new : MergedNamespace) (m : NamespaceMap)
    → k ≡ name new
    → IsNamed new
    → IsNamedMap m
    → IsNamedMap (insert k new m)
unfolding insert IsNamedMap
insert-IsNamedMap k new empty e i h = (e, i, tt)
insert-IsNamedMap k new (entry j old m) e i h = elim (Ordering-cases (compare k j)) [
  | inl lt ↦ rw (lt, insert) (e, i, h)
  | inr (inl eq) ↦ rw (eq, insert) (sym (path_by_compare k j eq) ∙ e, i, h.2)
  | inr (inr gt) ↦ rw (gt, insert) (h.0, h.1, insert-IsNamedMap k new m e i h.2)
]

name-from_json :
    (label : String) (j : JsonNamespace) → json_name j ≡ name (from_json_namespace label j)
unfolding from_json_namespace
name-from_json label (json_namespace n cs) = refl

mutual
  unfolding from_json_namespace IsNamed

  from_json-IsNamed : (j : JsonNamespace) (label : String) → IsNamed (from_json_namespace label j)
  from_json-IsNamed (json_namespace n cs) label = from_json-IsNamedMap cs label empty tt

  from_json-IsNamedMap :
      (cs : JsonNamespaces) (label : String) (m : NamespaceMap)
      → IsNamedMap m
      → IsNamedMap (from_json_children label cs m)
  from_json-IsNamedMap nil label m h = h
  from_json-IsNamedMap (cons c cs) label m h =
      from_json-IsNamedMap cs label (insert (json_name c) (from_json_namespace label c) m) (
        insert-IsNamedMap (json_name c) (from_json_namespace label c) m (name-from_json label c)
          (from_json-IsNamed c label) h)

IsNamedMap-KeysAreNames : (m : NamespaceMap) → IsNamedMap m → KeysAreNames m
unfolding IsNamed KeysAreNames
IsNamedMap-KeysAreNames empty h = tt
IsNamedMap-KeysAreNames (entry k ns m) h = (h.0, IsNamedMap-KeysAreNames m h.2)

-- The hierarchies read from two targets' files merge without a panic, and a namespace path is in
-- the result exactly when it is in one of them.
pub merge_from_json :
    (a b : JsonNamespaceHierarchy)
    → (r : MergedNamespaceHierarchy) × (merge_hierarchies
          (from_json_namespace_hierarchy a)
          (from_json_namespace_hierarchy b)
        ≡ ok r)
      × ((n : String) (q : List String)
          → in_map n q r.top_level_namespaces
            ≡ in_map n q (from_json_namespace_hierarchy a).top_level_namespaces
              || in_map n q (from_json_namespace_hierarchy b).top_level_namespaces)
unfolding merge_hierarchies from_json_namespace_hierarchy IsNamedMap
merge_from_json a b =
    let top = from_json_children a.label a.namespaces empty in
    let others = from_json_children b.label b.namespaces empty in
    let (top', ends, paths) =
      in_map-merge_all others top (from_json-IsNamedMap b.namespaces b.label empty tt)
        (IsNamedMap-KeysAreNames top (from_json-IsNamedMap a.namespaces a.label empty tt)) in
    (record { top_level_namespaces = top' }, rw ends refl, paths)
