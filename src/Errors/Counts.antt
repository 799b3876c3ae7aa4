-- ===== src/Errors/Counts.antt =====
-- What a report holds after a run of errors: how many of each kind, and an example.
use crubit4rust.Base.{
  ℕ, ◌+◌, ◌%◌, ◌^◌, ◌<◌, ◌==◌, List, [], ◌∷◌, ◌++◌, Option, none, some, String, string_eq,
  if◌then◌else◌, find, find-put, ◌≡◌, refl, arith, Option-cases, Bool-cases, inl, inr, beq_refl,
  ◌∙◌,
}
use crubit4rust.Errors.{
  Error, ErrorReport, default_entry, add, add_at, fmt_of, sample_of, root_cause, insert, insert_all,
  hide_unstable_details,
}

-- The count of a kind of errors, 0 without an entry.
unfoldable pub count_of : String → ErrorReport → ℕ
count_of k report = elim (find k report) [ none ↦ 0 | some entry ↦ entry.count ]

-- The example of a kind of errors.
unfoldable pub sample_at : String → ErrorReport → Option String
sample_at k report = elim (find k report) [ none ↦ none | some entry ↦ some entry.sample_message ]

-- How many of the errors are of the kind `k`.
abbrev pub tally : String → List Error → ℕ
tally k [] = 0
tally k (e ∷ es) = (if string_eq.beq (fmt_of e) k then 1 else 0) + tally k es

count_of-add_at :
    (j k message : String) (report : ErrorReport)
    → count_of k (add_at j message report)
      ≡ (if string_eq.beq j k then (count_of k report + 1) % 2 ^ 64 else count_of k report)
unfolding add_at add count_of sample_at
count_of-add_at j k message report = elim (Option-cases (find j report)) [
  | inl new ↦ ground (arith, find-put k j (add message default_entry) report, string_eq.beq_iff j k)
  | inr (entry, old) ↦
      ground (arith, find-put k j (add message entry) report, string_eq.beq_iff j k)
]

sample_at-add_at :
    (j k message : String) (report : ErrorReport)
    → sample_at k (add_at j message report) ≡ (
        if string_eq.beq j k
        then (if count_of k report == 0 then some message else sample_at k report)
        else sample_at k report)
unfolding add_at add count_of sample_at
sample_at-add_at j k message report = elim (Option-cases (find j report)) [
  | inl new ↦ ground (arith, find-put k j (add message default_entry) report, string_eq.beq_iff j k)
  | inr (entry, old) ↦
      ground (arith, find-put k j (add message entry) report, string_eq.beq_iff j k)
]

module _ (replace_all : String → String → String → String) where
  -- What is kept as the example of an error.
  abbrev pub hidden : Error → String
  hidden e = hide_unstable_details replace_all (sample_of e)

  insert-add_at :
      (e : Error) (report : ErrorReport)
      → insert replace_all e report ≡ add_at (fmt_of e) (hidden e) report
  unfolding insert fmt_of sample_of
  insert-add_at e report = ground (arith, Option-cases (root_cause e))

  count_of-insert :
      (e : Error) (k : String) (report : ErrorReport)
      → count_of k (insert replace_all e report) ≡ (
          if string_eq.beq (fmt_of e) k
          then (count_of k report + 1) % 2 ^ 64
          else count_of k report)
  count_of-insert e k report =
      rw (insert-add_at e report) (count_of-add_at (fmt_of e) k (hidden e) report)

  sample_at-insert :
      (e : Error) (k : String) (report : ErrorReport)
      → sample_at k (insert replace_all e report) ≡ (
          if string_eq.beq (fmt_of e) k
          then (if count_of k report == 0 then some (hidden e) else sample_at k report)
          else sample_at k report)
  sample_at-insert e k report =
      rw (insert-add_at e report) (sample_at-add_at (fmt_of e) k (hidden e) report)

  count_of-insert_all :
      (k : String) (es : List Error) (report : ErrorReport)
      → count_of k report < 2 ^ 64
      → count_of k (insert_all replace_all es report) ≡ (count_of k report + tally k es) % 2 ^ 64
  unfolding insert_all
  count_of-insert_all k [] report small = omega arith
  count_of-insert_all k (e ∷ es) report small = elim (Bool-cases (string_eq.beq (fmt_of e) k)) [
    | inl eq ↦
        let next : count_of k (insert replace_all e report) ≡ (count_of k report + 1) % 2 ^ 64 =
          count_of-insert e k report ∙ rw eq refl in
        let later = count_of-insert_all k es (insert replace_all e report) (omega (arith, next)) in
        rw eq (omega (arith, next, later))
    | inr ne ↦
        let next : count_of k (insert replace_all e report) ≡ count_of k report =
          count_of-insert e k report ∙ rw ne refl in
        let later = count_of-insert_all k es (insert replace_all e report) (omega (arith, next)) in
        rw ne (omega (arith, next, later))
  ]

  -- From an empty report on, the count of a format is the number of errors, in the order they were
  -- inserted, whose root cause has that format (`{}` where the cause has none), modulo `2 ^ 64`.
  pub insert_all-tally :
      (k : String) (es : List Error)
      → count_of k (insert_all replace_all es []) ≡ tally k es % 2 ^ 64
  unfolding count_of find
  insert_all-tally k es = omega (arith, count_of-insert_all k es [] (omega arith))

  sample_stays :
      (k : String) (es : List Error) (report : ErrorReport)
      → 0 < count_of k report
      → count_of k report + tally k es < 2 ^ 64
      → sample_at k (insert_all replace_all es report) ≡ sample_at k report
  unfolding insert_all
  sample_stays k [] report some_in small = refl
  sample_stays k (e ∷ es) report some_in small = elim (Bool-cases (string_eq.beq (fmt_of e) k)) [
    | inl eq ↦
        let counted : count_of k (insert replace_all e report) ≡ count_of k report + 1 =
          ground (arith, count_of-insert e k report) in
        let kept : sample_at k (insert replace_all e report) ≡ sample_at k report =
          ground (arith, sample_at-insert e k report) in
        sample_stays k es (insert replace_all e report) (omega (arith, counted))
          (ground (arith, counted))
        ∙ kept
    | inr ne ↦
        let counted : count_of k (insert replace_all e report) ≡ count_of k report =
          count_of-insert e k report ∙ rw ne refl in
        let kept : sample_at k (insert replace_all e report) ≡ sample_at k report =
          sample_at-insert e k report ∙ rw ne refl in
        sample_stays k es (insert replace_all e report) (omega (arith, counted))
          (ground (arith, counted))
        ∙ kept
  ]

  sample_waits :
      (k : String) (es : List Error) (report : ErrorReport)
      → tally k es ≡ 0
      → count_of k (insert_all replace_all es report) ≡ count_of k report
  unfolding insert_all
  sample_waits k [] report h = refl
  sample_waits k (e ∷ es) report h = elim (Bool-cases (string_eq.beq (fmt_of e) k)) [
    | inl eq ↦ absurd (ground arith)
    | inr ne ↦
        sample_waits k es (insert replace_all e report) (ground arith)
        ∙ count_of-insert e k report
        ∙ rw ne refl
  ]

  insert_all-append :
      (xs ys : List Error) (report : ErrorReport)
      → insert_all replace_all (xs ++ ys) report
        ≡ insert_all replace_all ys (insert_all replace_all xs report)
  unfolding insert_all
  insert_all-append [] ys report = refl
  insert_all-append (x ∷ xs) ys report = insert_all-append xs ys (insert replace_all x report)

  -- The example of a format is what is kept of the first error with it, with unstable details
  -- hidden, as long as fewer than `2 ^ 64` errors have it. What is kept of an error is the message
  -- of its root cause, the empty text where that message is the format itself, and the displayed
  -- text of the error where the cause has no format.
  pub insert_all-sample :
      (xs ys : List Error) (e : Error)
      → tally (fmt_of e) xs ≡ 0
      → tally (fmt_of e) ys + 1 < 2 ^ 64
      → sample_at (fmt_of e) (insert_all replace_all (xs ++ e ∷ ys) []) ≡ some (hidden e)
  unfolding insert_all count_of find
  insert_all-sample xs ys e first small =
      let k = fmt_of e in
      let before = insert_all replace_all xs [] in
      let none_in : count_of k before ≡ 0 = sample_waits k xs [] first in
      let here : count_of k (insert replace_all e before) ≡ 1 =
        ground (arith, count_of-insert e k before, beq_refl k) in
      let shown : sample_at k (insert replace_all e before) ≡ some (hidden e) =
        ground (arith, sample_at-insert e k before, beq_refl k) in
      rw (insert_all-append xs (e ∷ ys) []) (
        sample_stays k ys (insert replace_all e before) (omega (arith, here)) (omega (arith, here))
        ∙ shown)
