-- ===== src/MergedNamespaces/Tests.antt =====
-- The hierarchies of the unit tests of merged_namespaces.rs.
use crubit4rust.Base.{
  nat_eq, string_eq, contains, err, ok, int_eq, String, ◌≡◌, refl, ◌||◌, List, [], ◌∷◌,
}
use crubit4rust.MergedNamespaces.{
  name, MergedNamespace, empty, entry, namespace, children, labels, get, insert, insert_label,
  append_labels, add_child, merge, merge_all, JsonNamespace, json_namespace, nil, cons,
  from_json_namespace, JsonNamespaceHierarchy, MergedNamespaceHierarchy,
  from_json_namespace_hierarchy, merge_hierarchies, different_names,
}
use crubit4rust.MergedNamespaces.Paths.{in_map, IsNamed, in_map-merge}
use crubit4rust.MergedNamespaces.Labels.{labelled, labels-merge, merge_from_json}

program : Unit {0}
unfolding get insert insert_label append_labels add_child merge merge_all from_json_namespace
    from_json_namespace_hierarchy merge_hierarchies in_map IsNamed labelled
program = tt

abbrev leaf : String → JsonNamespace
leaf n = json_namespace n nil

-- `a { b; c }` of the first target and `a { c { d }; d }` of the second.
abbrev one : MergedNamespace
one = from_json_namespace "//:label1" (json_namespace "a" (cons (leaf "b") (cons (leaf "c") nil)))

abbrev two : MergedNamespace
two =
    from_json_namespace "//:label2"
      (json_namespace "a" (cons (json_namespace "c" (cons (leaf "d") nil)) (cons (leaf "d") nil)))

abbrev both : List String
both = "//:label1" ∷ "//:label2" ∷ []

abbrev merged : MergedNamespace
merged =
    namespace "a"
      (entry "b" (namespace "b" empty ("//:label1" ∷ [])) (
        entry "c" (namespace "c" (entry "d" (namespace "d" empty ("//:label2" ∷ [])) empty) both)
          (entry "d" (namespace "d" empty ("//:label2" ∷ [])) empty)))
      both

merge_namespaces : merge one two ≡ ok merged
unfolding program
merge_namespaces = refl

merge_different_namespaces :
    merge (from_json_namespace "//label1" (leaf "a")) (from_json_namespace "//label2" (leaf "b"))
    ≡ err (different_names "a" "b")
unfolding program
merge_different_namespaces = refl

two-IsNamed : IsNamed two
unfolding program
two-IsNamed = (refl, (refl, tt, tt), (refl, tt, tt))

in_map-merge_example :
    (r : MergedNamespace) × (merge one two ≡ ok r)
    × (name r ≡ name one)
    × ((n : String) (q : List String)
        → in_map n q (children r) ≡ in_map n q (children one) || in_map n q (children two))
unfolding program
in_map-merge_example = in_map-merge one two refl two-IsNamed

labels-merge_example :
    contains (labels merged) "//:label2"
    ≡ contains (labels one) "//:label2"
      || contains (labels two) "//:label2"
      || labelled "//:label2" (children two)
labels-merge_example = labels-merge one two merged merge_namespaces "//:label2"

-- `a { b }` of two targets: the second target's label is not recorded at `b`.
abbrev small : String → MergedNamespace
small l = namespace "a" (entry "b" (namespace "b" empty (l ∷ [])) empty) (l ∷ [])

small_merged :
    merge (small "//:label1") (small "//:label2")
    ≡ ok (namespace "a" (entry "b" (namespace "b" empty ("//:label1" ∷ [])) empty) both)
unfolding program
small_merged = refl

abbrev file : String → JsonNamespaceHierarchy
file l = record { label = l; namespaces = cons (leaf "top_level_1") nil }

merge_from_json_example :
    (r : MergedNamespaceHierarchy) × (merge_hierarchies
        (from_json_namespace_hierarchy (file "//foo/bar:baz"))
        (from_json_namespace_hierarchy (file "//foo/bar:xyz"))
      ≡ ok r)
    × ((n : String) (q : List String)
        → in_map n q r.top_level_namespaces
          ≡ in_map n q (from_json_namespace_hierarchy (file "//foo/bar:baz")).top_level_namespaces
            || in_map n q
                (from_json_namespace_hierarchy (file "//foo/bar:xyz")).top_level_namespaces)
merge_from_json_example = merge_from_json (file "//foo/bar:baz") (file "//foo/bar:xyz")
