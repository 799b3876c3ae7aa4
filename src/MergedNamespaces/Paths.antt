-- ===== src/MergedNamespaces/Paths.antt =====
-- The namespace paths of a merged trie are those of its parts.
use Prim.Native.String.{compare}
use Prim.Native.Nat.{Ordering}
use text.Mathlib.TextEquality.{path_by_compare, eq_iff}
use crubit4rust.Base.{
  Option-cases, nat_eq, string_eq, ok, int_eq, String, ◌≡◌, refl, sym, ◌∙◌, ◌⊎◌, inl, inr, Bool,
  true, false, ◌&&◌, ◌||◌, none, some, List, [], ◌∷◌, arith,
}
use crubit4rust.MergedNamespaces.Maps.{add_child-new, add_child-old}
use crubit4rust.MergedNamespaces.{
  MergedNamespace, NamespaceMap, empty, entry, namespace, name, children, labels, get, insert,
  add_child, add_children, append_labels, merge, merge_all,
}

-- Is there a namespace at this path below the given one?
unfoldable mutual
  pub reaches : List String → MergedNamespace → Bool
  reaches p (namespace _ cs _) = elim p [ [] ↦ true | n ∷ q ↦ in_map n q cs ]

  -- Is there one at the path `n ∷ q` in the map?
  pub in_map : String → List String → NamespaceMap → Bool
  in_map n q empty = false
  in_map n q (entry j ns m) = (string_eq.beq j n && reaches q ns) || in_map n q m

-- Every namespace is stored under its own name.
unfoldable mutual
  pub IsNamed : MergedNamespace → Type 0
  IsNamed (namespace _ cs _) = IsNamedMap cs

  pub IsNamedMap : NamespaceMap → Type 0
  IsNamedMap empty = Unit
  IsNamedMap (entry k ns m) = (k ≡ name ns) × IsNamed ns × IsNamedMap m

in_map-insert_new :
    (n k : String) (q : List String) (ns : MergedNamespace) (m : NamespaceMap)
    → get k m ≡ none
    → in_map n q (insert k ns m) ≡ in_map n q m || (string_eq.beq k n && reaches q ns)
unfolding in_map get insert
in_map-insert_new n k q ns empty h = ground arith
in_map-insert_new n k q ns (entry j old m) h = ground (arith, in_map-insert_new n k q ns m)

in_map-insert_old :
    (n k : String) (q : List String) (new old : MergedNamespace) (m : NamespaceMap) (extra : Bool)
    → get k m ≡ some old
    → reaches q new ≡ reaches q old || extra
    → in_map n q (insert k new m) ≡ in_map n q m || (string_eq.beq k n && extra)
unfolding in_map get insert
in_map-insert_old n k q new old empty extra h e = cc
in_map-insert_old n k q new old (entry j first m) extra h e =
    ground (arith, in_map-insert_old n k q new old m extra, path_by_compare k j)

reaches-nil : (ns : MergedNamespace) → reaches [] ns ≡ true
unfolding reaches
reaches-nil (namespace k cs ls) = refl

reaches-cons :
    (m : String) (r : List String) (ns : MergedNamespace)
    → reaches (m ∷ r) ns ≡ in_map m r (children ns)
unfolding reaches
reaches-cons m r (namespace k cs ls) = refl

in_map-add_child_step :
    (k : String) (cs : NamespaceMap) (ls : List String) (self : MergedNamespace) (n : String)
    (q : List String)
    → ((child : MergedNamespace)
        → reaches q (add_children cs child) ≡ reaches q child || reaches q (namespace k cs ls))
    → in_map n q (children (add_child (namespace k cs ls) self))
      ≡ in_map n q (children self) || (string_eq.beq k n && reaches q (namespace k cs ls))
in_map-add_child_step k cs ls self n q merges = elim (Option-cases (get k (children self))) [
  | inl new ↦
      rw (add_child-new k cs ls self new)
        (in_map-insert_new n k q (namespace k cs ls) (children self) new)
  | inr (child, old) ↦ rw (add_child-old k cs ls self child old) (
      in_map-insert_old n k q (add_children cs child) child (children self)
        (reaches q (namespace k cs ls)) old (merges child))
]

mutual
  unfolding add_child add_children in_map reaches IsNamed IsNamedMap

  in_map-add_child :
      (ns : MergedNamespace) (n : String) (q : List String) (self : MergedNamespace)
      → IsNamed ns
      → in_map n q (children (add_child ns self))
        ≡ in_map n q (children self) || (string_eq.beq (name ns) n && reaches q ns)
  in_map-add_child (namespace k cs ls) n [] self h =
      in_map-add_child_step k cs ls self n []
        λ child. rw (reaches-nil (add_children cs child), reaches-nil child) refl
  in_map-add_child (namespace k cs ls) n (m ∷ r) self h =
      in_map-add_child_step k cs ls self n (m ∷ r) λ child. ground (
        arith,
        reaches-cons m r (add_children cs child),
        reaches-cons m r child,
        in_map-add_children cs m r child h,
      )

  in_map-add_children :
      (cs : NamespaceMap) (n : String) (q : List String) (self : MergedNamespace)
      → IsNamedMap cs
      → in_map n q (children (add_children cs self)) ≡ in_map n q (children self) || in_map n q cs
  in_map-add_children empty n q self h = ground arith
  in_map-add_children (entry k c cs) n q self h =
      ground
        (arith, in_map-add_children cs n q (add_child c self) h.2, in_map-add_child c n q self h.1)

mutual
  unfolding add_child add_children

  name-add_child : (ns self : MergedNamespace) → name (add_child ns self) ≡ name self
  name-add_child (namespace k cs ls) self = ground arith

  name-add_children :
      (cs : NamespaceMap) (self : MergedNamespace) → name (add_children cs self) ≡ name self
  name-add_children empty self = refl
  name-add_children (entry k c cs) self =
      name-add_children cs (add_child c self) ∙ name-add_child c self

merge-same :
    (self other : MergedNamespace)
    → name self ≡ name other
    → (r : MergedNamespace) × (merge self other ≡ ok r) × (name r ≡ name self)
unfolding merge
merge-same self other e =
    let start =
      namespace (name self) (children self) (append_labels (labels self) (labels other)) in
    (
      add_children (children other) start,
      ground (arith, eq_iff (name self) (name other)),
      name-add_children (children other) start,
    )

in_map-merge_ok :
    (self other r : MergedNamespace)
    → IsNamed other
    → merge self other ≡ ok r
    → (n : String) (q : List String)
    → in_map n q (children r) ≡ in_map n q (children self) || in_map n q (children other)
unfolding merge IsNamed
in_map-merge_ok self (namespace k cs ls) r h e n q =
    let start = namespace (name self) (children self) (append_labels (labels self) ls) in
    let result : add_children cs start ≡ r = ground arith in
    rw (← result) (in_map-add_children cs n q start h)

-- If both sides have the same name and the namespaces in `other` are stored under their names,
-- `merge` succeeds and keeps the name, and the paths below the result are those below either side.
pub in_map-merge :
    (self other : MergedNamespace)
    → name self ≡ name other
    → IsNamed other
    → (r : MergedNamespace) × (merge self other ≡ ok r)
      × (name r ≡ name self)
      × ((n : String) (q : List String)
          → in_map n q (children r) ≡ in_map n q (children self) || in_map n q (children other))
in_map-merge self other same h =
    let (r, merged, kept) = merge-same self other same in
    (r, merged, kept, in_map-merge_ok self other r h merged)

reaches-merge :
    (self other r : MergedNamespace)
    → IsNamed other
    → merge self other ≡ ok r
    → (q : List String) → reaches q r ≡ reaches q self || reaches q other
reaches-merge self other r h e [] = ground (arith, reaches-nil r, reaches-nil self)
reaches-merge self other r h e (n ∷ q) = ground (
  arith,
  reaches-cons n q r,
  reaches-cons n q self,
  reaches-cons n q other,
  in_map-merge_ok self other r h e n q,
)

pub Ordering-cases : (o : Ordering) → (o ≡ Ordering.lt) ⊎ ((o ≡ Ordering.eq) ⊎ (o ≡ Ordering.gt))
Ordering-cases o = ground arith

-- The namespaces of the map are stored under their own names; nothing is said of their children.
unfoldable pub KeysAreNames : NamespaceMap → Type 0
KeysAreNames empty = Unit
KeysAreNames (entry k ns m) = (k ≡ name ns) × KeysAreNames m

name-get :
    (k : String) (m : NamespaceMap) (ns : MergedNamespace)
    → KeysAreNames m
    → get k m ≡ some ns
    → name ns ≡ k
unfolding get KeysAreNames
name-get k empty ns h e = cc
name-get k (entry j first m) ns h e = ground (arith, name-get k m ns h.1, path_by_compare k j, h.0)

insert-KeysAreNames :
    (k : String) (new : MergedNamespace) (m : NamespaceMap)
    → k ≡ name new
    → KeysAreNames m
    → KeysAreNames (insert k new m)
unfolding insert KeysAreNames
insert-KeysAreNames k new empty e h = (e, tt)
insert-KeysAreNames k new (entry j old m) e h = elim (Ordering-cases (compare k j)) [
  | inl lt ↦ rw (lt, insert) (e, h)
  | inr (inl eq) ↦ rw (eq, insert) (sym (path_by_compare k j eq) ∙ e, h.1)
  | inr (inr gt) ↦ rw (gt, insert) (h.0, insert-KeysAreNames k new m e h.1)
]

-- `merge_all` does not panic on maps whose keys are names, and the paths of its result are those
-- of both maps.
pub in_map-merge_all :
    (others top : NamespaceMap)
    → IsNamedMap others
    → KeysAreNames top
    → (top' : NamespaceMap) × (merge_all top others ≡ ok top')
      × ((n : String) (q : List String) → in_map n q top' ≡ in_map n q top || in_map n q others)
unfolding merge_all in_map IsNamedMap
in_map-merge_all empty top h t = (top, refl, λ n q. ground arith)
in_map-merge_all (entry k ns others) top h t = elim (Option-cases (get k top)) [
  | inl new ↦
      let (top', ends, paths) =
        in_map-merge_all others (insert k ns top) h.2 (insert-KeysAreNames k ns top h.0 t) in
      (
        top',
        rw (new, merge_all) ends,
        λ n q. ground (arith, paths n q, in_map-insert_new n k q ns top new),
      )
  | inr (child, old) ↦
      let named : name child ≡ name ns = name-get k top child t old ∙ h.0 in
      let (merged, ok_merge, same) = merge-same child ns named in
      let (top', ends, paths) =
        in_map-merge_all others (insert k merged top) h.2
          (insert-KeysAreNames k merged top (ground (arith, name-get k top child t old)) t) in
      (
        top',
        rw (old, merge_all, ok_merge) ends,
        λ n q. ground (
          arith,
          paths n q,
          in_map-insert_old n k q merged child top (reaches q ns) old
              (reaches-merge child ns merged h.1 ok_merge q),
        ),
      )
]
