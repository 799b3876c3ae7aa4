-- ===== src/Memo/Tests.antt =====
-- A memoized function of one argument.
use crubit4rust.Base.{
  ℕ, ◌+◌, [], ◌∷◌, nat_eq, ok, err, find, put, ◌≡◌, refl, ok-injective, ap, sym, subst,
}
use crubit4rust.Memo.{
  MemoizationTable, cycle_detected, default_table, remove, internal_memoized_call,
}
use crubit4rust.Memo.Values.{
  Body, Computes, IsConsistent, SameActive, internal_memoized_call_value,
  internal_memoized_call_cycle, internal_memoized_call_again,
}

program : Unit {0}
unfolding find put remove internal_memoized_call
program = tt

-- `add_one(x) = x + 1`, without a look at the table.
abbrev add_one : Body ℕ ℕ
add_one k t = ok (k + 1, t)

add_one-Computes : Computes (λ k. k + 1) add_one
add_one-Computes k r t t' consistent h =
    let same = ok-injective {A = ℕ × MemoizationTable ℕ ℕ} h in
    (
      sym (ap (λ x. x.0) same),
      (
        subst (IsConsistent (λ k. k + 1)) (ap (λ x. x.1) same) consistent,
        subst (SameActive t) (ap (λ x. x.1) same) (λ j. refl),
      ),
    )

abbrev called : MemoizationTable ℕ ℕ
called = record { memoized = (4, 5) ∷ []; active = [] }

first_call : internal_memoized_call add_one 4 (default_table ℕ ℕ) ≡ ok (5, called)
unfolding program
first_call = refl

internal_memoized_call_value_example :
    (5 ≡ 4 + 1) × (IsConsistent (λ k. k + 1) called × SameActive (default_table ℕ ℕ) called)
unfolding find
internal_memoized_call_value_example =
    internal_memoized_call_value (λ k. k + 1) add_one add_one-Computes 4 5 (default_table ℕ ℕ)
      called (λ k r h. cc) first_call

internal_memoized_call_again_example :
    internal_memoized_call (λ k t. err (cycle_detected k)) 4 called ≡ ok (5, called)
internal_memoized_call_again_example =
    internal_memoized_call_again add_one (λ k t. err (cycle_detected k)) 4 5 (default_table ℕ ℕ)
      called first_call

abbrev busy : MemoizationTable ℕ ℕ
busy = record { memoized = []; active = 4 ∷ [] }

internal_memoized_call_cycle_example :
    internal_memoized_call add_one 4 busy ≡ err (cycle_detected 4)
unfolding program
internal_memoized_call_cycle_example = internal_memoized_call_cycle add_one 4 busy refl refl
