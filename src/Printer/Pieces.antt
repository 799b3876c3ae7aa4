-- ===== src/Printer/Pieces.antt =====
-- When the printer fails.
use crubit4rust.Base.{
  Bool, true, false, ◌&&◌, List, [], ◌∷◌, ◌++◌, Option, none, some, String, string_eq, ok, ◌>>=◌,
  ◌≡◌, ◌↔◌, refl, sym, ◌∙◌, arith, inl, inr, >>=-eq-ok, ◌⊎◌,
}
use crubit4rust.Printer.{
  TokenTree, TokenStream, group, ident, literal, punct, finished, followed, IdentKind, newline,
  space, hash, comment, plain, ident_kind, gap, open_delimiter, closed_delimiter, comment_line,
  write_from, write_comment, write_unformatted_tokens,
}

mutual
  -- A literal follows each `__COMMENT__`, in the stream and in its groups.
  pub comments_complete : TokenStream → Bool
  comments_complete finished = true
  comments_complete (followed (group _ ts) it) = comments_complete ts && comments_complete it
  comments_complete (followed (literal _) it) = comments_complete it
  comments_complete (followed (punct _ _) it) = comments_complete it
  comments_complete (followed (ident s) it) = elim (ident_kind s) [
    | comment ↦ starts_with_literal it
    | _ ↦ comments_complete it
  ]

  -- A literal comes first, and the rest is complete.
  pub starts_with_literal : TokenStream → Bool
  starts_with_literal finished = false
  starts_with_literal (followed (literal _) it) = comments_complete it
  starts_with_literal (followed (ident _) it) = false
  starts_with_literal (followed (punct _ _) it) = false
  starts_with_literal (followed (group _ _) it) = false

abbrev is_comment : IdentKind → Bool
is_comment comment = true
is_comment newline = false
is_comment space = false
is_comment hash = false
is_comment plain = false

-- What is written for an identifier that does not begin a comment.
abbrev pieces : IdentKind → Option TokenTree → String → TokenStream → List String
pieces newline prev s it = "\n" ∷ []
pieces space prev s it = " " ∷ []
pieces hash prev s it = "#" ∷ []
pieces comment prev s it = []
pieces plain prev s it = s ∷ gap prev (ident s) it

module _ (comment_text : String → String) where
  comment_step :
      (prev : Option TokenTree) (s : String) (it : TokenStream)
      → ident_kind s ≡ comment
      → (write_from comment_text prev (followed (ident s) it) ≡ write_comment comment_text s it)
        × (comments_complete (followed (ident s) it) ≡ starts_with_literal it)
  unfolding write_from comments_complete
  comment_step prev s it e = (rw (write_from, e) refl, rw (comments_complete, e) refl)

  ident_step :
      (prev : Option TokenTree) (s : String) (it : TokenStream) (k : IdentKind)
      → ident_kind s ≡ k
      → is_comment k ≡ false
      → (write_from comment_text prev (followed (ident s) it) ≡ (
          write_from comment_text (some (ident s)) it >>= λ rest. ok (pieces k prev s it ++ rest)))
        × (comments_complete (followed (ident s) it) ≡ comments_complete it)
  unfolding write_from comments_complete
  ident_step prev s it newline e h = (rw (write_from, e) refl, rw (comments_complete, e) refl)
  ident_step prev s it space e h = (rw (write_from, e) refl, rw (comments_complete, e) refl)
  ident_step prev s it hash e h = (rw (write_from, e) refl, rw (comments_complete, e) refl)
  ident_step prev s it plain e h = (rw (write_from, e) refl, rw (comments_complete, e) refl)
  ident_step prev s it comment e h = cc

  comment_cases : (k : IdentKind) → (k ≡ comment) ⊎ (is_comment k ≡ false)
  comment_cases newline = inr refl
  comment_cases space = inr refl
  comment_cases hash = inr refl
  comment_cases comment = inl refl
  comment_cases plain = inr refl

  mutual
    unfolding write_from write_comment comments_complete starts_with_literal

    writes :
        (prev : Option TokenTree) (ts : TokenStream)
        → comments_complete ts ≡ true
        → (r : List String) × (write_from comment_text prev ts ≡ ok r)
    writes prev finished h = ([], refl)
    writes prev (followed (group d ts) it) h =
        let (inner, w) = writes none ts (ground arith) in
        let (rest, v) = writes (some (group d ts)) it (ground arith) in
        (open_delimiter d ∷ inner ++ closed_delimiter d ∷ rest, rw w (rw v refl))
    writes prev (followed (literal l) it) h =
        let (rest, v) = writes (some (literal l)) it h in
        (l ∷ gap prev (literal l) it ++ rest, rw v refl)
    writes prev (followed (punct p s) it) h =
        let (rest, v) = writes (some (punct p s)) it h in
        (p ∷ gap prev (punct p s) it ++ rest, rw v refl)
    writes prev (followed (ident s) it) h = elim (comment_cases (ident_kind s)) [
      | inl e ↦
          let step = comment_step prev s it e in
          let (r, w) = writes_comment s it (sym step.1 ∙ h) in (r, step.0 ∙ w)
      | inr other ↦
          let step = ident_step prev s it (ident_kind s) refl other in
          let (r, w) = writes (some (ident s)) it (sym step.1 ∙ h) in
          (pieces (ident_kind s) prev s it ++ r, step.0 ∙ rw w refl)
    ]

    writes_comment :
        (s : String) (ts : TokenStream)
        → starts_with_literal ts ≡ true
        → (r : List String) × (write_comment comment_text s ts ≡ ok r)
    writes_comment s (followed (literal l) it) h =
        let (rest, v) = writes (some (ident s)) it h in
        (comment_line comment_text l ∷ rest, rw v refl)
    writes_comment s finished h = cc
    writes_comment s (followed (ident _) it) h = cc
    writes_comment s (followed (punct _ _) it) h = cc
    writes_comment s (followed (group _ _) it) h = cc

  mutual
    unfolding write_from write_comment comments_complete starts_with_literal

    written :
        (prev : Option TokenTree) (ts : TokenStream) (r : List String)
        → write_from comment_text prev ts ≡ ok r
        → comments_complete ts ≡ true
    written prev finished r h = refl
    written prev (followed (group d ts) it) r h =
        let (inner, w, rest) = >>=-eq-ok (write_from comment_text none ts) _ h in
        let (out, v, _) = >>=-eq-ok (write_from comment_text (some (group d ts)) it) _ rest in
        let first = written none ts inner w in
        let second = written (some (group d ts)) it out v in ground arith
    written prev (followed (literal l) it) r h =
        let (out, v, _) = >>=-eq-ok (write_from comment_text (some (literal l)) it) _ h in
        written (some (literal l)) it out v
    written prev (followed (punct p s) it) r h =
        let (out, v, _) = >>=-eq-ok (write_from comment_text (some (punct p s)) it) _ h in
        written (some (punct p s)) it out v
    written prev (followed (ident s) it) r h = elim (comment_cases (ident_kind s)) [
      | inl e ↦
          let step = comment_step prev s it e in step.1 ∙ written_comment s it r (sym step.0 ∙ h)
      | inr other ↦
          let step = ident_step prev s it (ident_kind s) refl other in
          let (out, v, _) =
            >>=-eq-ok (write_from comment_text (some (ident s)) it) _ (sym step.0 ∙ h) in
          step.1 ∙ written (some (ident s)) it out v
    ]

    written_comment :
        (s : String) (ts : TokenStream) (r : List String)
        → write_comment comment_text s ts ≡ ok r
        → starts_with_literal ts ≡ true
    written_comment s (followed (literal l) it) r h =
        let (out, v, _) = >>=-eq-ok (write_from comment_text (some (ident s)) it) _ h in
        written (some (ident s)) it out v
    written_comment s finished r h = cc
    written_comment s (followed (ident _) it) r h = cc
    written_comment s (followed (punct _ _) it) r h = cc
    written_comment s (followed (group _ _) it) r h = cc

  -- A token stream is printed exactly when a literal follows each `__COMMENT__`, in the stream and
  -- in all its groups; otherwise printing fails.
  pub write_unformatted_tokens_iff :
      (ts : TokenStream)
      → ((r : List String) × (write_unformatted_tokens comment_text ts ≡ ok r))
        ↔ (comments_complete ts ≡ true)
  unfolding write_unformatted_tokens
  write_unformatted_tokens_iff ts = (λ (r, h). written none ts r h, writes none ts)
