-- ===== src/Memo/Values.antt =====
-- What a memoized call returns, and what it leaves in the table.
use crubit4rust.Base.{
  true, false, List, [], ◌∷◌, none, some, Eq, Result, ok, err, ◌>>=◌, if◌then◌else◌, find, put,
  find-put, contains, ◌≡◌, refl, sym, subst, ap, ◌∙◌, arith, Bool-cases, Option-cases, inl, inr,
  beq_refl, >>=-eq-ok, ok-injective,
}
use crubit4rust.Memo.{
  MemoizationTable, CycleDetected, cycle_detected, remove, internal_memoized_call,
}

module _ {Args : Type 0} ⦃e : Eq Args⦄ where
  contains-remove :
      (a k : Args) (xs : List Args)
      → contains (remove a xs) k ≡ (if e.beq a k then false else contains xs k)
  unfolding remove
  contains-remove a k [] = ground arith
  contains-remove a k (x ∷ xs) =
      ground (arith, contains-remove a k xs, e.beq_iff x a, e.beq_iff a k, e.beq_iff x k)

abbrev pub Body : Type 0 → Type 0 → Type 0
Body Args Return =
    Args
    → MemoizationTable Args Return
    → Result (CycleDetected Args) (Return × MemoizationTable Args Return)

module _ {Args Return : Type 0} ⦃e : Eq Args⦄ where
  abbrev started : Args → MemoizationTable Args Return → MemoizationTable Args Return
  started k t = record t { active = k ∷ t.active }

  abbrev ended : Args → Return → MemoizationTable Args Return → MemoizationTable Args Return
  ended k r t = record { memoized = put k r t.memoized; active = remove k t.active }

  call_known :
      (f : Body Args Return) (k : Args) (v : Return) (t : MemoizationTable Args Return)
      → find k t.memoized ≡ some v
      → internal_memoized_call f k t ≡ ok (v, t)
  unfolding internal_memoized_call
  call_known f k v t known = rw (internal_memoized_call, known) refl

  call_new :
      (f : Body Args Return) (k : Args) (t : MemoizationTable Args Return)
      → find k t.memoized ≡ none
      → contains t.active k ≡ false
      → internal_memoized_call f k t ≡ (f k (started k t) >>= λ p. ok (p.0, ended k p.0 p.1))
  unfolding internal_memoized_call
  call_new f k t new inactive = rw (internal_memoized_call, new, inactive) refl

  -- A call that is active already, and has no value yet, panics.
  pub internal_memoized_call_cycle :
      (f : Body Args Return) (k : Args) (t : MemoizationTable Args Return)
      → find k t.memoized ≡ none
      → contains t.active k ≡ true
      → internal_memoized_call f k t ≡ err (cycle_detected k)
  unfolding internal_memoized_call
  internal_memoized_call_cycle f k t new active = rw (internal_memoized_call, new, active) refl

  -- A call that returns a new value has run the function, once.
  call_inversion :
      (f : Body Args Return) (k : Args) (r : Return) (t t' : MemoizationTable Args Return)
      → internal_memoized_call f k t ≡ ok (r, t')
      → find k t.memoized ≡ none
      → (contains t.active k ≡ false)
        × ((s : MemoizationTable Args Return) × (f k (started k t) ≡ ok (r, s))
            × (t' ≡ ended k r s))
  call_inversion f k r t t' h new = elim (Bool-cases (contains t.active k)) [
    | inl active ↦ let panics = internal_memoized_call_cycle f k t new active in cc
    | inr inactive ↦
        let (p, ran, made) =
          >>=-eq-ok (f k (started k t)) (λ p. ok (p.0, ended k p.0 p.1))
            (sym (call_new f k t new inactive) ∙ h) in
        let same : ◌≡◌ {A = Return × MemoizationTable Args Return} (p.0, ended k p.0 p.1) (r, t') =
          ok-injective made in
        let value : p.0 ≡ r = ap (λ x. x.0) same in
        (
          inactive,
          (
            p.1,
            ran ∙ ap (λ v. ok (v, p.1)) value,
            sym (ap (λ x. x.1) same) ∙ ap (λ v. ended k v p.1) value,
          ),
        )
  ]

  -- All that the table holds are values of the function.
  abbrev pub IsConsistent : (Args → Return) → MemoizationTable Args Return → Type 0
  IsConsistent value t = (k : Args) (r : Return) → find k t.memoized ≡ some r → r ≡ value k

  -- The two tables have the same calls active.
  abbrev pub SameActive : MemoizationTable Args Return → MemoizationTable Args Return → Type 0
  SameActive t t' = (k : Args) → contains t'.active k ≡ contains t.active k

  -- A function that computes `value`, with the help of any consistent table.
  abbrev pub Computes : (Args → Return) → Body Args Return → Type 0
  Computes value f =
      (k : Args) (r : Return) (t t' : MemoizationTable Args Return)
      → IsConsistent value t
      → f k t ≡ ok (r, t')
      → (r ≡ value k) × (IsConsistent value t' × SameActive t t')

  -- If a memoized call of a function that computes `value` returns, from a table that holds only
  -- values of it, then it returns `value` of its arguments, and leaves such a table with the same
  -- calls active.
  pub internal_memoized_call_value :
      (value : Args → Return) (f : Body Args Return)
      → Computes value f
      → (k : Args) (r : Return) (t t' : MemoizationTable Args Return) → IsConsistent value t
      → internal_memoized_call f k t ≡ ok (r, t')
      → (r ≡ value k) × (IsConsistent value t' × SameActive t t')
  internal_memoized_call_value value f correct k r t t' consistent h =
      elim (Option-cases (find k t.memoized)) [
        | inr (v, known) ↦
            let same : ◌≡◌ {A = Return × MemoizationTable Args Return} (v, t) (r, t') =
              ok-injective (sym (call_known f k v t known) ∙ h) in
            let kept : t ≡ t' = ap (λ x. x.1) same in
            (
              sym (ap (λ x. x.0) same) ∙ consistent k v known,
              (subst (IsConsistent value) kept consistent, subst (SameActive t) kept (λ j. refl)),
            )
        | inl new ↦
            let (inactive, (s, ran, made)) = call_inversion f k r t t' h new in
            let (right, (holds, active)) = correct k r (started k t) s consistent ran in
            let consistent_end : IsConsistent value (ended k r s) = λ j v found.
              ground (arith, find-put j k r s.memoized, e.beq_iff k j, holds j v, right) in
            let active_end : SameActive t (ended k r s) = λ j.
              ground (arith, contains-remove k j s.active, active j, inactive, e.beq_iff k j) in
            (
              right,
              (
                subst (IsConsistent value) (sym made) consistent_end,
                subst (SameActive t) (sym made) active_end,
              ),
            )
      ]

  -- After a call that returns, the same call returns the same value, whatever the function, and
  -- leaves the table as it is.
  pub internal_memoized_call_again :
      (f g : Body Args Return) (k : Args) (r : Return) (t t' : MemoizationTable Args Return)
      → internal_memoized_call f k t ≡ ok (r, t')
      → internal_memoized_call g k t' ≡ ok (r, t')
  internal_memoized_call_again f g k r t t' h = elim (Option-cases (find k t.memoized)) [
    | inr (v, known) ↦
        let same : ◌≡◌ {A = Return × MemoizationTable Args Return} (v, t) (r, t') =
          ok-injective (sym (call_known f k v t known) ∙ h) in
        subst (λ x. internal_memoized_call g k x.1 ≡ ok x) same (call_known g k v t known)
    | inl new ↦
        let (inactive, (s, ran, made)) = call_inversion f k r t t' h new in
        let stored : find k (put k r s.memoized) ≡ some r =
          find-put k k r s.memoized ∙ rw (beq_refl k) refl in
        subst (λ x. internal_memoized_call g k x ≡ ok (r, x)) (sym made)
          (call_known g k r (ended k r s) stored)
  ]
