-- ===== src/Functions/Printed.antt =====
-- generate_func.rs: the tokens of traits in which the record is not mentioned.
use crubit4rust.Base.{◌==◌, nat_eq, string_eq, int_eq, String, ◌≡◌, Bool, false, Option}
use crubit4rust.CodeGen.{TokenStream, Syntax}
use crubit4rust.Ir.{Record}

module _ (syntax : Syntax) (lifetime_tokens : String → Option TokenStream)
    (same_record : Record → Record → Bool) where
  -- Records with the same id are the same.
  abbrev pub IdsDiffer : Type 0
  IdsDiffer = (a b : Record) → same_record a b ≡ false → (b.id == a.id) ≡ false
