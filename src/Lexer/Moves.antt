-- ===== src/Lexer/Moves.antt =====
-- What one round of the lexer's loop does, whichever case of the switch it takes.
use millie.Prelude.{
  ℕ, ◌<◌, ◌≡◌, ◌≢◌, refl, subst, sym, ◌∙◌, inl, inr, Bool, true, false, List, [], ◌∷◌, ◌++◌, Option,
  none, some, arith, ◌==◌, if◌then◌else◌, ◌>>=◌, length, drop, take, append_assoc, Bool-cases,
  >>=-eq-some, All, ==_iff,
}
use millie.Errors.{Errors}
use millie.Lexer.Round.{
  Plain, Plain-span, span-All, span-length, spelling, Spells, Moves, Moves-advance, Moves-token,
}
use millie.Token.{TokenType, tok_id, tok_int_literal, tok_equals, tok_arrow}
use millie.Lexer.{
  Bytes, KeywordToken, LexState, peek, advance, add_token, is_digit, is_identifier_character,
  is_identifier_start, span, add_integer_literal, add_identifier_token, try_add_keywords,
  keyword_or_identifier, keywords_of, starts_keyword, comment_length, punctuation, is_blank,
  scan_equals, scan_other, scan, track_error, step,
}
use millie.Lexer.Keywords.{IsWord, Found, try_add_keywords-Found}
use millie.Lexer.Cases.{
  Goes, Goes-if, is_blank-ne-newline, starts_keyword-character, start-character,
  punctuation-ne-newline, punctuation-Spells, keywords_of-IsWord, further-Plain,
  comment_length-Plain,
}

module _ (s : LexState) (c : ℕ) (cs : Bytes) (here : s.rest ≡ c ∷ cs) where
  span-token :
      (p : ℕ → Bool) (t : TokenType)
      → p c ≡ true
      → p b'\n' ≡ false
      → Spells t (take (span p s.rest) s.rest)
      → Moves s (advance (span p s.rest) (add_token s t s.pos (span p s.rest)))
  unfolding span
  span-token p t h k spells =
      Moves-token (span p s.rest) s (rw (here, h) (omega arith)) (Plain-span p s.rest k) t spells

  span-spells :
      (p : ℕ → Bool)
      → p c ≡ true
      → (0 < length (take (span p s.rest) s.rest))
        × All (λ d. p d ≡ true) (take (span p s.rest) s.rest)
  unfolding span
  span-spells p h = (rw span-length (rw (here, h) (omega arith)), span-All p s.rest)

  identifier-Moves : is_identifier_character c ≡ true → Moves s (add_identifier_token s)
  unfolding add_identifier_token is_identifier_character
  identifier-Moves h =
      span-token is_identifier_character tok_id h refl (span-spells is_identifier_character h)

  integer-Moves : is_digit c ≡ true → Moves s (add_integer_literal s)
  unfolding add_integer_literal is_digit
  integer-Moves h = span-token is_digit tok_int_literal h refl (span-spells is_digit h)

  keyword_or_identifier-Goes :
      (kws : List KeywordToken)
      → All IsWord kws
      → is_identifier_character c ≡ true
      → Goes s (keyword_or_identifier kws s >>= λ s'. some (false, s'))
  unfolding keyword_or_identifier
  keyword_or_identifier-Goes kws w h =
      choose (try_add_keywords kws s) (try_add_keywords-Found kws s w)
    where
      choose :
          (r : Option (Bool × LexState))
          → Found s r
          → Goes s (
              r >>= (λ r'. some (if r'.0 then r'.1 else add_identifier_token r'.1)) >>= λ s'.
              some (false, s'))
      choose none f = tt
      choose (some (true, s')) f = f
      choose (some (false, s')) f = rw f (identifier-Moves h)

  one : c ≢ b'\n' → Plain 1 s.rest
  one h = rw here (h, tt)

  comment-Goes : c ≡ b'#' → Goes s (comment_length s.rest >>= λ n. some (false, advance n s))
  unfolding comment_length
  comment-Goes h =
      go (comment_length s.rest) (comment_length-Plain s.rest) (λ n e. started n (rw here at e))
    where
      started : (n : ℕ) → comment_length (c ∷ cs) ≡ some n → 0 < n
      started n e =
          (further-Plain c n cs (comment_length cs) (λ m. comment_length-Plain cs m) e).1
            (omega arith)

      go :
          (r : Option ℕ)
          → ((n : ℕ) → r ≡ some n → Plain n s.rest)
          → ((n : ℕ) → r ≡ some n → 0 < n)
          → Goes s (r >>= λ n. some (false, advance n s))
      go none f g = tt
      go (some n) f g = Moves-advance n s (g n refl) (f n refl)

  newline-Moves :
      c ≡ b'\n' → Moves s (advance 1 (record s { line_array = s.line_array ++ s.pos ∷ [] }))
  newline-Moves h = record {
    count = 1;
    count_pos = omega arith;
    fits = rw here (omega arith);
    rest_is = refl;
    pos_is = refl;
    lines_are = rw (append_assoc, here, h);
    tokens_are = inl refl;
  }

  equals-Moves : c ≡ b'=' → Moves s (scan_equals s)
  unfolding scan_equals spelling
  equals-Moves h = elim (Bool-cases (peek (drop 1 s.rest) == b'>')) [
    | inl e ↦
        rw e (Moves-token 2 s (omega arith) (two s.rest here e) tok_arrow (arrow s.rest here h e))
    | inr e ↦ rw e (Moves-token 1 s (omega arith) (one (omega arith)) tok_equals (rw (here, h)))
  ]
    where
      arrow :
          (r : Bytes)
          → r ≡ c ∷ cs
          → c ≡ b'='
          → (peek (drop 1 r) == b'>') ≡ true
          → take 2 r ≡ b'=' ∷ b'>' ∷ []
      arrow [] e q g = ground arith
      arrow (d ∷ []) e q g = ground arith
      arrow (d ∷ d' ∷ r) e q g = ground arith

      two : (r : Bytes) → r ≡ c ∷ cs → (peek (drop 1 r) == b'>') ≡ true → Plain 2 r
      two [] e g = ground arith
      two (d ∷ []) e g = ground arith
      two (d ∷ d' ∷ r) e g = ground arith

  scan_other-Goes : Goes s (scan_other c s)
  unfolding scan_other
  scan_other-Goes =
      Goes-if (c == b'=') s _ _ (λ e. equals-Moves ((==_iff c _).0 e))
        λ _.
          Goes-if (is_blank c) s _ _
            (λ e. Moves-advance 1 s (omega arith) (one (is_blank-ne-newline c e)))
            λ _.
              Goes-if (c == b'\n') s _ _ (λ e. newline-Moves ((==_iff c _).0 e))
                λ nl.
                  Goes-if (c == b'#') s _ _ (λ e. comment-Goes ((==_iff c _).0 e))
                    λ _.
                      Goes-if (starts_keyword c) s _ _
                        (λ e.
                          keyword_or_identifier-Goes (keywords_of c) (keywords_of-IsWord c)
                            (starts_keyword-character c e))
                        λ _. Goes-if (is_digit c) s _ _ integer-Moves λ _.
                          Goes-if (is_identifier_start c) s _ _
                            (λ e. identifier-Moves (start-character c e))
                            λ _. Moves-advance 1 s (omega arith) (one (ground (arith, nl)))

  scan-Goes : Goes s (scan c s)
  unfolding scan
  scan-Goes = dispatch (punctuation c) (punctuation-ne-newline c) (punctuation-Spells c)
    where
      dispatch :
          (r : Option TokenType)
          → ((t : TokenType) → r ≡ some t → c ≢ b'\n')
          → ((t : TokenType) → r ≡ some t → Spells t (c ∷ []))
          → Goes s (elim r [
            | some type ↦ some (false, advance 1 (add_token s type s.pos 1))
            | none ↦ scan_other c s
          ])
      dispatch none f g = scan_other-Goes
      dispatch (some t) f g = Moves-token 1 s (omega arith) (one (f t refl)) t (rw here (g t refl))

track_error_keeps :
    (pos : ℕ) (b : Bool) (s : LexState)
    → track_error pos b s ≡ record s {
      errors = (track_error pos b s).errors;
      error_start = (track_error pos b s).error_start;
    }
unfolding track_error
track_error_keeps pos b s = ground arith

Moves-errors :
    (s a : LexState) (errors : Errors) (error_start : ℕ)
    → Moves s a
    → Moves s (record a { errors = errors; error_start = error_start })
Moves-errors s a errors error_start m = record {
  count = m.count;
  count_pos = m.count_pos;
  fits = m.fits;
  rest_is = m.rest_is;
  pos_is = m.pos_is;
  lines_are = m.lines_are;
  tokens_are = m.tokens_are;
}

-- Every round of the loop is a move, and the error state machine does not touch the rest.
pub step-Moves :
    (s : LexState) {s' : LexState} (c : ℕ) (cs : Bytes)
    → s.rest ≡ c ∷ cs
    → step c s ≡ some s'
    → Moves s s'
unfolding step
step-Moves s {s'} c cs here h =
    let (r, e, f) = >>=-eq-some (scan c s) (λ r. some (track_error s.pos r.0 r.1)) h in
    let moved : Moves s r.1 = rw e at (scan-Goes s c cs here) in
    let same : track_error s.pos r.0 r.1 ≡ s' = cc in
    subst (Moves s) (sym (track_error_keeps s.pos r.0 r.1) ∙ same) (Moves-errors s r.1 _ _ moved)
