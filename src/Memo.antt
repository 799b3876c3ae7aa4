-- ===== src/Memo.antt =====
-- common/memoized.rs: the table behind a memoized function. The function that fills the table is a
-- parameter: it may call back into the table, so it takes the table's state and returns a new one.
-- Its panics are those of the table: a cycle. A `HashSet` is a list without order.
pub mod Values
mod Tests
use crubit4rust.Base.{
  Bool, List, [], ◌∷◌, Option, none, some, Eq, Result, ok, err, ◌>>=◌, if◌then◌else◌, HashMap, find,
  put, contains,
}

module _ (Args Return : Type 0) where
  -- `MemoizationTable`
  pub record MemoizationTable : Type 0 where
    pub memoized : HashMap Args Return
    pub active : List Args

  -- `MemoizationTable::default()`
  abbrev pub default_table : MemoizationTable
  default_table = record { memoized = []; active = [] }

-- The panic: a memoized function depends on its own return value.
pub data CycleDetected (Args : Type 0) : Type 0 where
  cycle_detected : Args → CycleDetected Args

module _ {Args : Type 0} ⦃e : Eq Args⦄ where
  -- `HashSet::remove`
  pub remove : Args → List Args → List Args
  remove a [] = []
  remove a (x ∷ xs) = if e.beq x a then remove a xs else x ∷ remove a xs

module _ {Args Return : Type 0} ⦃e : Eq Args⦄ where
  -- `internal_memoized_call`, with the arguments after the function.
  pub internal_memoized_call :
      (Args
        → MemoizationTable Args Return
        → Result (CycleDetected Args) (Return × MemoizationTable Args Return))
      → Args
      → MemoizationTable Args Return
      → Result (CycleDetected Args) (Return × MemoizationTable Args Return)
  internal_memoized_call f args t = elim (find args t.memoized) [
    | some return_value ↦ ok (return_value, t)
    | none ↦ if contains t.active args then err (cycle_detected args) else (do
      (return_value, t') ← f args (record t { active = args ∷ t.active })
      ok (
        return_value,
        record { memoized = put args return_value t'.memoized; active = remove args t'.active },
      ))
  ]
