-- ===== src/Layout/Kept.antt =====
-- generate_record.rs: what stays true of functions while they are counted, kept and sorted.
use crubit4rust.Base.{
  ◌==◌, if◌then◌else◌, Bool-cases, Option-cases, All, nat_eq, string_eq, contains, int_eq, find,
  put, ℕ, ◌+◌, ◌%◌, ◌^◌, String, ◌≡◌, subst, inl, inr, Bool, not, ◌&&◌, some, List, [], ◌∷◌, arith,
}
use crubit4rust.Ir.{Func, UnqualifiedIdentifier, name_eq}
use crubit4rust.Layout.{
  identifier_text, FuncCounter, count_function, counted_once, is_inherited, count_functions,
  insert_by_name, sorted_by_name,
}

-- The functions that are counted.
unfoldable pub inherited : (Func → Bool) → List UnqualifiedIdentifier → List Func → List Func
unfolding is_inherited
inherited generated derived [] = []
inherited generated derived (f ∷ fs) =
    let rest = inherited generated derived fs in
    if generated f && not (contains derived f.name) then f ∷ rest else rest

pub inherited-All :
    (P : Func → Type 0) (generated : Func → Bool) (derived : List UnqualifiedIdentifier)
    (fs : List Func)
    → All P fs
    → All P (inherited generated derived fs)
unfolding inherited
inherited-All P generated derived [] h = tt
inherited-All P generated derived (f ∷ fs) h =
    elim (Bool-cases (generated f && not (contains derived f.name))) [
      | inl e ↦ rw e (h.0, inherited-All P generated derived fs h.1)
      | inr e ↦ rw e (inherited-All P generated derived fs h.1)
    ]

module _ (generated : Func → Bool) (less : String → String → Bool) where
  -- What holds of every function that is counted holds of every function that is kept.
  module _ (P : Func → Type 0) where
    unfoldable pub OfCounted : FuncCounter → Type 0
    OfCounted counter = All (λ e. P (e.1.0)) counter

    put-OfCounted :
        (k : UnqualifiedIdentifier) (f : Func) (n : ℕ) (counter : FuncCounter)
        → P f
        → OfCounted counter
        → OfCounted (put k (f, n) counter)
    unfolding put OfCounted
    put-OfCounted k f n [] p h = (p, tt)
    put-OfCounted k f n ((j, _) ∷ counter) p h = elim (Bool-cases (name_eq.beq j k)) [
      | inl eq ↦ rw (put, eq) (p, h.1)
      | inr ne ↦ rw (put, ne) (h.0, put-OfCounted k f n counter p h.1)
    ]

    find-OfCounted :
        (k : UnqualifiedIdentifier) (f : Func) (n : ℕ) (counter : FuncCounter)
        → OfCounted counter
        → find k counter ≡ some (f, n)
        → P f
    unfolding find OfCounted
    find-OfCounted k f n [] h e = absurd (ground arith)
    find-OfCounted k f n ((j, (g, m)) ∷ counter) h e = elim (Bool-cases (name_eq.beq j k)) [
      | inl eq ↦ subst P (ground arith) h.0
      | inr ne ↦ find-OfCounted k f n counter h.1 (ground arith)
    ]

    count_function-OfCounted :
        (f : Func) (counter : FuncCounter)
        → P f
        → OfCounted counter
        → OfCounted (count_function f counter)
    unfolding count_function
    count_function-OfCounted f counter p h = elim (Option-cases (find f.name counter)) [
      | inl new ↦ rw (count_function, new) (put-OfCounted f.name f 1 counter p h)
      | inr ((first, n), old) ↦
          rw (count_function, old)
            (put-OfCounted f.name first ((n + 1) % 2 ^ 32) counter
              (find-OfCounted f.name first n counter h old) h)
    ]

    pub count_functions-OfCounted :
        (derived : List UnqualifiedIdentifier) (counter : FuncCounter) (fs : List Func)
        → All P (inherited generated derived fs)
        → OfCounted counter
        → OfCounted (count_functions generated less derived counter fs)
    unfolding count_functions inherited is_inherited
    count_functions-OfCounted derived counter [] p h = h
    count_functions-OfCounted derived counter (f ∷ fs) p h =
        elim (Bool-cases (generated f && not (contains derived f.name))) [
          | inl e ↦
              let q =
                subst
                  (λ b. All P (
                    if b
                    then f ∷ inherited generated derived fs
                    else inherited generated derived fs))
                  e p in
              rw e (
                count_functions-OfCounted derived (count_function f counter) fs q.1
                  (count_function-OfCounted f counter q.0 h))
          | inr e ↦
              let q =
                subst
                  (λ b. All P (
                    if b
                    then f ∷ inherited generated derived fs
                    else inherited generated derived fs))
                  e p in
              rw e (count_functions-OfCounted derived counter fs q h)
        ]

    pub counted_once-All :
        (counter : FuncCounter) → OfCounted counter → All P (counted_once counter)
    unfolding counted_once OfCounted
    counted_once-All [] h = tt
    counted_once-All ((_, (f, n)) ∷ counter) h = elim (Bool-cases (n == 1)) [
      | inl e ↦ rw e (h.0, counted_once-All counter h.1)
      | inr e ↦ rw e (counted_once-All counter h.1)
    ]

    insert_by_name-All :
        (f : Func) (fs : List Func) → P f → All P fs → All P (insert_by_name generated less f fs)
    unfolding insert_by_name
    insert_by_name-All f [] p h = (p, tt)
    insert_by_name-All f (g ∷ gs) p h =
        elim (Bool-cases (less (identifier_text g.name) (identifier_text f.name))) [
          | inl e ↦ rw e (h.0, insert_by_name-All f gs p h.1)
          | inr e ↦ rw e (p, h)
        ]

    pub sorted_by_name-All : (fs : List Func) → All P fs → All P (sorted_by_name generated less fs)
    unfolding sorted_by_name
    sorted_by_name-All [] h = tt
    sorted_by_name-All (f ∷ fs) h =
        insert_by_name-All f (sorted_by_name generated less fs) h.0 (sorted_by_name-All fs h.1)
