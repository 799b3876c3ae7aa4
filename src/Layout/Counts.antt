-- ===== src/Layout/Counts.antt =====
-- generate_record.rs: `func_counter`, which counts functions by their names.
use crubit4rust.Base.{
  ◌==◌, if◌then◌else◌, Bool-cases, Option-cases, nat_eq, string_eq, occ, int_eq, find, put,
  find-put, ℕ, ◌+◌, ◌%◌, ◌^◌, ◌≡◌, refl, sym, ◌∙◌, subst, inl, inr, true, false, none, some, [],
  ◌∷◌, arith,
}
use crubit4rust.Ir.{Func, UnqualifiedIdentifier, name_eq}
use crubit4rust.Layout.{function_names, FuncCounter, count_function, counted_once}

-- How often a name was counted.
unfoldable pub count_of : UnqualifiedIdentifier → FuncCounter → ℕ
count_of k counter = elim (find k counter) [ none ↦ 0 | some (_, n) ↦ n ]

-- Each name stands in the counter once, with a function of that name.
unfoldable pub IsCounter : FuncCounter → Type 0
IsCounter [] = Unit
IsCounter ((j, (f, _)) ∷ counter) = (f.name ≡ j) × (find j counter ≡ none) × IsCounter counter

IsCounter-put :
    (k : UnqualifiedIdentifier) (g : Func) (n : ℕ) (counter : FuncCounter)
    → g.name ≡ k
    → IsCounter counter
    → IsCounter (put k (g, n) counter)
unfolding IsCounter put find
IsCounter-put k g n [] same h = (same, refl, tt)
IsCounter-put k g n ((j, (first, m)) ∷ counter) same h = elim (Bool-cases (name_eq.beq j k)) [
  | inl eq ↦ rw (put, eq) (same ∙ sym ((name_eq.beq_iff j k).0 eq), h.1, h.2)
  | inr ne ↦
      rw (put, ne)
        (
          h.0,
          find-put j k (g, n) counter
              ∙ ground (arith, name_eq.beq_iff j k, name_eq.beq_iff k j, h.1),
          IsCounter-put k g n counter same h.2,
        )
]

-- What is found under a name is a function of that name.
find-name :
    (k : UnqualifiedIdentifier) (first : Func) (n : ℕ) (counter : FuncCounter)
    → IsCounter counter
    → find k counter ≡ some (first, n)
    → first.name ≡ k
unfolding IsCounter find
find-name k first n [] h e = cc
find-name k first n ((j, (f, m)) ∷ counter) h e = elim (Bool-cases (name_eq.beq j k)) [
  | inl eq ↦ ground (arith, (name_eq.beq_iff j k).0 eq, h.0)
  | inr ne ↦ find-name k first n counter h.2 (ground arith)
]

pub count_function-IsCounter :
    (f : Func) (counter : FuncCounter) → IsCounter counter → IsCounter (count_function f counter)
unfolding count_function
count_function-IsCounter f counter h = elim (Option-cases (find f.name counter)) [
  | inl new ↦ rw (count_function, new) (IsCounter-put f.name f 1 counter refl h)
  | inr ((first, n), old) ↦
      rw (count_function, old)
        (IsCounter-put f.name first ((n + 1) % 2 ^ 32) counter
          (find-name f.name first n counter h old) h)
]

pub count_of-count_function :
    (f : Func) (k : UnqualifiedIdentifier) (counter : FuncCounter)
    → count_of k (count_function f counter)
      ≡ (if name_eq.beq f.name k then (count_of k counter + 1) % 2 ^ 32 else count_of k counter)
unfolding count_of count_function
count_of-count_function f k counter = elim (Option-cases (find f.name counter)) [
  | inl new ↦ ground (arith, find-put k f.name (f, 1) counter, name_eq.beq_iff f.name k)
  | inr ((first, n), old) ↦
      ground (arith, find-put k f.name (first, (n + 1) % 2 ^ 32) counter, name_eq.beq_iff f.name k)
]

-- A name that is not in the counter is not the name of a function in it.
occ-counted_once_absent :
    (k : UnqualifiedIdentifier) (counter : FuncCounter)
    → IsCounter counter
    → find k counter ≡ none
    → occ k (function_names (counted_once counter)) ≡ 0
unfolding IsCounter find counted_once
occ-counted_once_absent k [] h e = refl
occ-counted_once_absent k ((j, (f, n)) ∷ counter) h e =
    let other : name_eq.beq f.name k ≡ false = elim (Bool-cases (name_eq.beq j k)) [
      | inl eq ↦ absurd (ground (arith, e))
      | inr ne ↦ subst (λ i. name_eq.beq i k ≡ false) (sym h.0) ne
    ] in
    let rest = occ-counted_once_absent k counter h.2 (ground arith) in ground (arith, rest)

-- The function that is kept for a name was counted once.
pub occ-counted_once :
    (k : UnqualifiedIdentifier) (counter : FuncCounter)
    → IsCounter counter
    → occ k (function_names (counted_once counter)) ≡ (if count_of k counter == 1 then 1 else 0)
unfolding IsCounter find counted_once count_of
occ-counted_once k [] h = refl
occ-counted_once k ((j, (f, n)) ∷ counter) h = elim (Bool-cases (name_eq.beq j k)) [
  | inl eq ↦
      let fresh : find k counter ≡ none =
        subst (λ i. find i counter ≡ none) ((name_eq.beq_iff j k).0 eq) h.1 in
      let rest = occ-counted_once_absent k counter h.2 fresh in
      let same : name_eq.beq f.name k ≡ true = subst (λ i. name_eq.beq i k ≡ true) (sym h.0) eq in
      ground (arith, rest)
  | inr ne ↦
      let other : name_eq.beq f.name k ≡ false =
        subst (λ i. name_eq.beq i k ≡ false) (sym h.0) ne in
      ground (arith, occ-counted_once k counter h.2)
]
