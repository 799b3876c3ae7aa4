-- ===== src/Errors.antt =====
-- common/error_report.rs and common/arc_anyhow.rs: errors with their causes, and the report that
-- aggregates them. An `Error` is known by what the code reads of it: its root cause (a
-- `FormattedError`, or another error with its text) and the contexts around it. The
-- `BTreeMap` is modelled as the map that it is: the order of its keys shows only when it is
-- serialized. `Regex::replace_all` is a parameter.
pub mod Counts
mod Tests
use crubit4rust.Base.{
  ℕ, ◌+◌, ◌%◌, ◌^◌, ◌==◌, Bool, true, false, List, [], ◌∷◌, Option, none, some, String, string_eq,
  if◌then◌else◌, HashMap, find, put,
}

-- `FormattedError`, here and in ir.rs
pub record FormattedError : Type 0 where
  pub fmt : String
  pub message : String

pub data Error : Type 0 where
  formatted : FormattedError → Error
  other : String → Error
  context : String → Error → Error

-- `Display` of an error: its outermost message.
abbrev pub display : Error → String
display (formatted e) = e.message
display (other s) = s
display (context c _) = c

-- `Error::root_cause`, and its `downcast_ref::<FormattedError>()`
pub root_cause : Error → Option FormattedError
root_cause (formatted e) = some e
root_cause (other s) = none
root_cause (context c e) = root_cause e

-- `ErrorReportEntry`
pub record ErrorReportEntry : Type 0 where
  pub count : ℕ
  pub sample_message : String

abbrev pub default_entry : ErrorReportEntry
default_entry = record { count = 0; sample_message = "" }

-- `ErrorReportEntry::add`; the sum wraps around where overflow is not checked.
pub add : String → ErrorReportEntry → ErrorReportEntry
add message entry = record {
  count = (entry.count + 1) % 2 ^ 64;
  sample_message = if entry.count == 0 then message else entry.sample_message;
}

-- `ErrorReport`
abbrev pub ErrorReport : Type 0
ErrorReport = HashMap String ErrorReportEntry

-- `map.entry(k).or_default().add(message)`
pub add_at : String → String → ErrorReport → ErrorReport
unfolding add
add_at k message report = elim (find k report) [
  | none ↦ put k (add message default_entry) report
  | some entry ↦ put k (add message entry) report
]

-- The key under which an error is counted.
pub fmt_of : Error → String
fmt_of error = elim (root_cause error) [ none ↦ "{}" | some e ↦ e.fmt ]

-- The text that is kept of an error, before details are hidden.
pub sample_of : Error → String
sample_of error = elim (root_cause error) [
  | none ↦ display error
  | some e ↦ if string_eq.beq e.message e.fmt then "" else e.message
]

-- `Regex::replace_all`: the pattern, the text and the replacement.
module _ (replace_all : String → String → String → String) where
  pub hide_unstable_details : String → String
  hide_unstable_details input =
      replace_all "\\[[0-9a-fA-F]{4}\\]" (replace_all "DefId\\(\\d+:\\d+ ~ " input "DefId(") ""

  -- `ErrorReport::insert`
  pub insert : Error → ErrorReport → ErrorReport
  insert error report = elim (root_cause error) [
    | some e ↦
        let sample_message = if string_eq.beq e.message e.fmt then "" else e.message in
        add_at e.fmt (hide_unstable_details sample_message) report
    | none ↦ add_at "{}" (hide_unstable_details (display error)) report
  ]

  -- A report after a run of errors.
  pub insert_all : List Error → ErrorReport → ErrorReport
  insert_all [] report = report
  insert_all (e ∷ es) report = insert_all es (insert e report)
