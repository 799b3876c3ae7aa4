-- ===== src/MergedNamespaces.antt =====
-- support/cc_import/merged_namespaces.rs: the namespaces of all direct dependencies, merged into
-- one trie. A `BTreeMap` or `BTreeSet` is a list in the order of its keys.
pub mod Maps
pub mod Paths
pub mod Labels
mod Tests
use Prim.Native.String.{compare}
use Prim.Native.Nat.{Ordering}
use crubit4rust.Base.{
  Bool, true, false, List, [], ◌∷◌, Option, none, some, String, string_eq, Result, ok, err, ◌>>=◌,
  if◌then◌else◌,
}

mutual
  pub data JsonNamespace : Type 0 where
    json_namespace : String → JsonNamespaces → JsonNamespace

  pub data JsonNamespaces : Type 0 where
    nil : JsonNamespaces
    cons : JsonNamespace → JsonNamespaces → JsonNamespaces

pub record JsonNamespaceHierarchy : Type 0 where
  pub label : String
  pub namespaces : JsonNamespaces

mutual
  -- the name, the children and the labels
  pub data MergedNamespace : Type 0 where
    namespace : String → NamespaceMap → List String → MergedNamespace

  -- `BTreeMap<Rc<str>, MergedNamespace>`
  pub data NamespaceMap : Type 0 where
    empty : NamespaceMap
    entry : String → MergedNamespace → NamespaceMap → NamespaceMap

pub record MergedNamespaceHierarchy : Type 0 where
  pub top_level_namespaces : NamespaceMap

-- The failed `assert!` of `merge`, with both names.
pub data Panic : Type 0 where
  different_names : String → String → Panic

abbrev pub json_name : JsonNamespace → String
json_name (json_namespace n _) = n

abbrev pub name : MergedNamespace → String
name (namespace n _ _) = n

abbrev pub children : MergedNamespace → NamespaceMap
children (namespace _ cs _) = cs

abbrev pub labels : MergedNamespace → List String
labels (namespace _ _ ls) = ls

-- `BTreeSet::insert`
pub insert_label : String → List String → List String
insert_label l [] = l ∷ []
insert_label l (m ∷ ms) = elim (compare l m) [
  | Ordering.lt ↦ l ∷ m ∷ ms
  | Ordering.eq ↦ m ∷ ms
  | Ordering.gt ↦ m ∷ insert_label l ms
]

-- `self.labels.append(&mut labels)`
pub append_labels : List String → List String → List String
append_labels ls [] = ls
append_labels ls (m ∷ ms) = append_labels (insert_label m ls) ms

-- `BTreeMap::get`
pub get : String → NamespaceMap → Option MergedNamespace
get k empty = none
get k (entry j ns m) = elim (compare k j) [
  | Ordering.lt ↦ none
  | Ordering.eq ↦ some ns
  | Ordering.gt ↦ get k m
]

-- `BTreeMap::insert`
pub insert : String → MergedNamespace → NamespaceMap → NamespaceMap
insert k new empty = entry k new empty
insert k new (entry j ns m) = elim (compare k j) [
  | Ordering.lt ↦ entry k new (entry j ns m)
  | Ordering.eq ↦ entry j new m
  | Ordering.gt ↦ entry j ns (insert k new m)
]

mutual
  -- `MergedNamespace::from_json_namespace`
  pub from_json_namespace : String → JsonNamespace → MergedNamespace
  from_json_namespace label (json_namespace n cs) =
      namespace n (from_json_children label cs empty) (label ∷ [])

  -- its loop over the children, from `merged_children` on
  pub from_json_children : String → JsonNamespaces → NamespaceMap → NamespaceMap
  from_json_children label nil merged = merged
  from_json_children label (cons c cs) merged =
      from_json_children label cs (insert (json_name c) (from_json_namespace label c) merged)

mutual
  unfolding append_labels get insert

  -- `self.add_child(namespace)`, with `namespace` first.
  pub add_child : MergedNamespace → MergedNamespace → MergedNamespace
  add_child (namespace n cs ls) self = elim (get n (children self)) [
    | some child ↦
        namespace (name self) (insert n (add_children cs child) (children self))
          (append_labels (labels self) ls)
    | none ↦
        namespace (name self) (insert n (namespace n cs ls) (children self))
          (append_labels (labels self) ls)
  ]

  -- `for child in children.into_values() { self.add_child(child); }`
  pub add_children : NamespaceMap → MergedNamespace → MergedNamespace
  add_children empty self = self
  add_children (entry _ c cs) self = add_children cs (add_child c self)

-- `self.merge(other)`
pub merge : MergedNamespace → MergedNamespace → Result Panic MergedNamespace
merge self other =
    if string_eq.beq (name self) (name other)
    then ok (
        add_children (children other)
          (namespace (name self) (children self) (append_labels (labels self) (labels other))))
    else err (different_names (name self) (name other))

-- `MergedNamespaceHierarchy::from_json_namespace_hierarchy`
pub from_json_namespace_hierarchy : JsonNamespaceHierarchy → MergedNamespaceHierarchy
from_json_namespace_hierarchy jnh = record {
  top_level_namespaces = from_json_children jnh.label jnh.namespaces empty;
}

-- The loop of `MergedNamespaceHierarchy::merge`, over the namespaces of the other hierarchy.
pub merge_all : NamespaceMap → NamespaceMap → Result Panic NamespaceMap
merge_all top empty = ok top
merge_all top (entry n ns others) = elim (get n top) [
  | some child ↦ do merged ← merge child ns; merge_all (insert n merged top) others
  | none ↦ merge_all (insert n ns top) others
]

-- `MergedNamespaceHierarchy::merge`
pub merge_hierarchies :
    MergedNamespaceHierarchy → MergedNamespaceHierarchy → Result Panic MergedNamespaceHierarchy
merge_hierarchies self other = do
  top ← merge_all self.top_level_namespaces other.top_level_namespaces
  ok (record { top_level_namespaces = top })
