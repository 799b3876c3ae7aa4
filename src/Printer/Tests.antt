-- ===== src/Printer/Tests.antt =====
-- Printed streams, from the tests of token_stream_printer.rs.
use crubit4rust.Base.{true, List, [], ◌∷◌, String, ok, err, ◌≡◌, ◌↔◌, refl}
use crubit4rust.Printer.{
  TokenStream, group, ident, literal, punct, finished, followed, joint, alone, brace, gap,
  ident_kind, tokens_require_whitespace, comment_without_literal, write_from, write_comment,
  write_unformatted_tokens,
}
use crubit4rust.Printer.Pieces.{comments_complete, write_unformatted_tokens_iff}

program : Unit {0}
unfolding gap ident_kind tokens_require_whitespace write_from write_comment write_unformatted_tokens
program = tt

-- `struct S { a: ::T } __NEWLINE__ __COMMENT__ "x"`
abbrev stream : TokenStream
stream = followed (ident "struct") (
    followed (ident "S") (
      followed
        (group brace (
          followed (ident "a") (
            followed (punct ":" alone) (
              followed (punct ":" joint)
                (followed (punct ":" alone) (followed (ident "T") finished))))))
        (followed (ident "__NEWLINE__")
          (followed (ident "__COMMENT__") (followed (literal "x") finished)))))

printed :
    write_unformatted_tokens (λ s. s) stream
    ≡ ok (
        "struct" ∷ " " ∷ "S" ∷ "{ " ∷ "a" ∷ ":" ∷ " " ∷ ":" ∷ ":" ∷ "T" ∷ " }" ∷ "\n" ∷ "// x\n"
        ∷ [])
unfolding program
printed = refl

bare_comment :
    write_unformatted_tokens (λ s. s) (followed (ident "__COMMENT__") finished)
    ≡ err comment_without_literal
unfolding program
bare_comment = refl

write_unformatted_tokens_iff_example :
    ((r : List String) × (write_unformatted_tokens (λ s. s) stream ≡ ok r))
    ↔ (comments_complete stream ≡ true)
write_unformatted_tokens_iff_example = write_unformatted_tokens_iff (λ s. s) stream
