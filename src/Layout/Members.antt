-- ===== src/Layout/Members.antt =====
-- generate_record.rs: the member functions that a record inherits. `generated` says whether the
-- query `db.generate_func` gives a function for its argument, and `less` is the order of texts.
use crubit4rust.Base.{
  ◌==◌, if◌then◌else◌, nat_eq, string_eq, contains, Result, err, ok, ◌>>=◌, int_eq, HashMap, find,
  put, ℕ, ◌+◌, ◌%◌, ◌^◌, String, Bool, true, false, not, ◌&&◌, none, some, List, [], ◌∷◌, ◌++◌,
}
use crubit4rust.Ir.{
  no_identifier, Ir, Failure, ItemId, Item, func_item, record_item, Func, Record, BaseClass,
  UnqualifiedIdentifier, identifier, operator, constructor_name, destructor_name, name_eq,
  find_untyped_decl,
}

abbrev pub has_identifier : UnqualifiedIdentifier → Bool
has_identifier (identifier _) = true
has_identifier (operator _) = false
has_identifier constructor_name = false
has_identifier destructor_name = false

-- The function that an item is, if its name is an identifier.
unfoldable pub unqualified_function : Item → List Func
unqualified_function (func_item f) = if has_identifier f.name then f ∷ [] else []
unqualified_function _ = []

module _ {Features : Type 0} (ir : Ir Features) where
  unfoldable pub member_functions_from : List ItemId → Result Failure (List Func)
  unfolding find_untyped_decl unqualified_function
  member_functions_from [] = ok []
  member_functions_from (id ∷ ids) = do
    item ← find_untyped_decl ir id
    rest ← member_functions_from ids
    ok (unqualified_function item ++ rest)

  unfoldable pub collect_unqualified_member_functions : Record → Result Failure (List Func)
  unfolding member_functions_from
  collect_unqualified_member_functions r = member_functions_from r.child_item_ids

  -- The functions of a base that is a record.
  unfoldable pub functions_of_base : Item → Result Failure (List Func)
  unfolding collect_unqualified_member_functions
  functions_of_base (record_item r) = collect_unqualified_member_functions r
  functions_of_base _ = ok []

  unfoldable pub functions_of_bases : List BaseClass → Result Failure (List Func)
  unfolding find_untyped_decl functions_of_base
  functions_of_bases [] = ok []
  functions_of_bases (base ∷ bases) = do
    item ← find_untyped_decl ir base.base_record_id
    functions ← functions_of_base item
    rest ← functions_of_bases bases
    ok (functions ++ rest)

  unfoldable pub collect_unqualified_member_functions_from_all_bases :
      Record → Result Failure (List Func)
  unfolding functions_of_bases
  collect_unqualified_member_functions_from_all_bases r =
      functions_of_bases r.unambiguous_public_bases

abbrev pub function_names : List Func → List UnqualifiedIdentifier
function_names [] = []
function_names (f ∷ fs) = f.name ∷ function_names fs

-- `func_counter`; the count wraps around where overflow is not checked.
abbrev pub FuncCounter : Type 0
FuncCounter = HashMap UnqualifiedIdentifier (Func × ℕ)

-- `entry(..).and_modify(..).or_insert(..)`
unfoldable pub count_function : Func → FuncCounter → FuncCounter
unfolding find put
count_function f counter = elim (find f.name counter) [
  | none ↦ put f.name (f, 1) counter
  | some (first, n) ↦ put f.name (first, (n + 1) % 2 ^ 32) counter
]

-- `filter_map(|(func, count)| ..)` on the values.
unfoldable pub counted_once : FuncCounter → List Func
counted_once [] = []
counted_once ((_, (f, n)) ∷ counter) =
    if n == 1 then f ∷ counted_once counter else counted_once counter

-- The key of the sort, for a function with an identifier.
abbrev pub identifier_text : UnqualifiedIdentifier → String
identifier_text (identifier id) = id.identifier
identifier_text _ = ""

abbrev pub all_identifiers : List Func → Bool
all_identifiers [] = true
all_identifiers (f ∷ fs) = has_identifier f.name && all_identifiers fs

module _ (generated : Func → Bool) (less : String → String → Bool) where
  -- Is the function counted?
  unfoldable pub is_inherited : List UnqualifiedIdentifier → Func → Bool
  is_inherited derived f = generated f && not (contains derived f.name)

  -- The loop over the inherited functions.
  unfoldable pub count_functions :
      List UnqualifiedIdentifier → FuncCounter → List Func → FuncCounter
  unfolding is_inherited count_function
  count_functions derived counter [] = counter
  count_functions derived counter (f ∷ fs) =
      count_functions derived (if is_inherited derived f then count_function f counter else counter)
        fs

  -- The sort by keys.
  unfoldable pub insert_by_name : Func → List Func → List Func
  insert_by_name f [] = f ∷ []
  insert_by_name f (g ∷ gs) =
      if less (identifier_text g.name) (identifier_text f.name)
      then g ∷ insert_by_name f gs
      else f ∷ g ∷ gs

  unfoldable pub sorted_by_name : List Func → List Func
  unfolding insert_by_name
  sorted_by_name [] = []
  sorted_by_name (f ∷ fs) = insert_by_name f (sorted_by_name fs)

  -- The sort with its `unwrap`; a list of fewer than two functions is not sorted.
  unfoldable pub sorted_by_key : List Func → Result Failure (List Func)
  unfolding sorted_by_name
  sorted_by_key [] = ok []
  sorted_by_key (f ∷ []) = ok (f ∷ [])
  sorted_by_key (f ∷ g ∷ fs) =
      if all_identifiers (f ∷ g ∷ fs) then ok (sorted_by_name (f ∷ g ∷ fs)) else err no_identifier

  unfoldable pub filter_out_ambiguous_member_functions :
      {Features : Type 0} → Ir Features → Record → List Func → Result Failure (List Func)
  unfolding collect_unqualified_member_functions count_functions counted_once sorted_by_key
  filter_out_ambiguous_member_functions ir derived_record inherited_functions = do
    derived ← collect_unqualified_member_functions ir derived_record
    sorted_by_key (counted_once (count_functions (function_names derived) [] inherited_functions))
