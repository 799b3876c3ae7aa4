-- ===== src/Layout/Inherited.antt =====
-- generate_record.rs: which of the functions of the bases are inherited.
use crubit4rust.Base.{nat_eq, string_eq, int_eq, ◌≡◌, true, List}
use crubit4rust.Ir.{Ir, Func}
use crubit4rust.Layout.{has_identifier}

abbrev IsNamed : Func → Type 0
IsNamed f = has_identifier f.name ≡ true
