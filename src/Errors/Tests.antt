-- ===== src/Errors/Tests.antt =====
-- Reports of a few errors.
use crubit4rust.Base.{◌%◌, ◌^◌, List, [], ◌∷◌, some, String, ◌≡◌, refl, arith, find, put}
use crubit4rust.Errors.{
  Error, formatted, other, context, insert, insert_all, hide_unstable_details, add, add_at,
  root_cause, fmt_of, sample_of,
}
use crubit4rust.Errors.Counts.{count_of, sample_at, tally, insert_all-tally, insert_all-sample}

program : Unit {0}
unfolding insert insert_all hide_unstable_details add add_at root_cause fmt_of sample_of count_of
    sample_at find put
program = tt

-- A `replace_all` that finds nothing.
abbrev no_match : String → String → String → String
no_match pattern text replacement = text

abbrev abc : String → Error
abc message = context "while reading" (formatted (record { fmt = "abc{}"; message = message }))

abbrev three : List Error
three = other "broken pipe" ∷ abc "abc1" ∷ abc "abc2" ∷ []

two_of_three : count_of "abc{}" (insert_all no_match three []) ≡ 2
unfolding program
two_of_three = refl

insert_all-tally_example :
    count_of "abc{}" (insert_all no_match three []) ≡ tally "abc{}" three % 2 ^ 64
insert_all-tally_example = insert_all-tally no_match "abc{}" three

insert_all-sample_example : sample_at "abc{}" (insert_all no_match three []) ≡ some "abc1"
unfolding program
insert_all-sample_example =
    insert_all-sample no_match (other "broken pipe" ∷ []) (abc "abc2" ∷ []) (abc "abc1") refl
      (omega arith)
