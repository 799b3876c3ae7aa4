-- ===== src/Ir/Overloads.antt =====
-- Functions by name in ir.rs: the groups hold all overloads, in the order of the items.
use crubit4rust.Base.{
  List, [], ◌∷◌, ◌++◌, if◌then◌else◌, HashMap, find, put, filter_map, unwrap_or, unwrap_or-put, sym,
  ◌≡◌, refl, ap, ◌∙◌, ok, Bool-cases, inl, inr, append-nil, append_assoc,
}
use crubit4rust.Ir.{
  Func, UnqualifiedIdentifier, name_eq, FlatIr, Ir, make_ir, group_functions, get_functions_by_name,
  functions, as_func,
}
use crubit4rust.Ir.Lookup.{make_ir-Made}

-- The functions of the name `n`, in order.
abbrev pub named : UnqualifiedIdentifier → List Func → List Func
named n [] = []
named n (f ∷ fs) = if name_eq.beq f.name n then f ∷ named n fs else named n fs

group_functions-named :
    (n : UnqualifiedIdentifier) (groups : HashMap UnqualifiedIdentifier (List Func))
    (fs : List Func)
    → unwrap_or (find n (group_functions groups fs)) [] ≡ unwrap_or (find n groups) [] ++ named n fs
unfolding group_functions
group_functions-named n groups [] = sym (append-nil (unwrap_or (find n groups) []))
group_functions-named n groups (f ∷ fs) =
    let group = unwrap_or (find f.name groups) [] in
    let written = unwrap_or-put n f.name (group ++ f ∷ []) [] groups in
    group_functions-named n (put f.name (group ++ f ∷ []) groups) fs
    ∙ elim (Bool-cases (name_eq.beq f.name n)) [
      | inl eq ↦
          let same = (name_eq.beq_iff f.name n).0 eq in
          let grown : unwrap_or (find n (put f.name (group ++ f ∷ []) groups)) []
              ≡ group ++ f ∷ [] =
            written ∙ rw eq refl in
          ap (λ l. l ++ named n fs) grown
          ∙ append_assoc group (f ∷ []) (named n fs)
          ∙ ap (λ m. unwrap_or (find m groups) [] ++ f ∷ named n fs) same
          ∙ rw eq refl
      | inr ne ↦
          let same : unwrap_or (find n (put f.name (group ++ f ∷ []) groups)) []
              ≡ unwrap_or (find n groups) [] =
            written ∙ rw ne refl in
          ap (λ l. l ++ named n fs) same ∙ rw ne refl
    ]

-- In an IR that `make_ir` returns, the functions found by a name are all its functions with that
-- name, in the order of the items.
pub get_functions_by_name-named :
    {Features : Type 0} (flat : FlatIr Features) (ir : Ir Features) (n : UnqualifiedIdentifier)
    → make_ir flat ≡ ok ir
    → get_functions_by_name ir n ≡ named n (functions ir)
unfolding get_functions_by_name functions find
get_functions_by_name-named flat ir n h =
    ap (λ m. unwrap_or (find n m) []) (make_ir-Made flat ir h).groups
    ∙ group_functions-named n [] (filter_map as_func flat.items)
    ∙ ap (λ f. named n (filter_map as_func f.items)) (sym (make_ir-Made flat ir h).same)
