-- ===== src/Lexer/Faults.antt =====
-- Two ways in which `LexBuffer` goes wrong: a comment that no newline ends, and unexpected bytes
-- at the end of the text.
use millie.Prelude.{
  ℕ, zero, suc, ◌≡◌, ◌≢◌, refl, ◌∙◌, inl, inr, Bool, true, false, ◌||◌, ◌&&◌, [], ◌∷◌, Option, none,
  arith, ◌==◌, leb, ◌>>=◌, All,
}
use millie.Lexer.{Bytes, LexState, comment_length, scan_other, scan, step, ended, round, run}
use millie.Lexer.Total.{HasNewline}

comment_length-open : (cs : Bytes) → ¬ HasNewline cs → comment_length cs ≡ none
unfolding comment_length
comment_length-open [] h = refl
comment_length-open (c ∷ cs) h =
    let ne : c ≢ b'\n' = λ q. h (inl q) in
    let e : (c == b'\n') ≡ false = ground arith in rw (e, comment_length-open cs (λ n. h (inr n)))

step-open_comment :
    (s : LexState) (body : Bytes) → s.rest ≡ b'#' ∷ body → ¬ HasNewline body → step b'#' s ≡ none
unfolding step scan scan_other comment_length
step-open_comment s body e h = rw (e, comment_length-open body h)

round-step :
    (r : Bytes) (s : LexState) {c : ℕ} {cs : Bytes} (go_on : LexState → Option LexState)
    → r ≡ c ∷ cs
    → round r s go_on ≡ (step c s >>= go_on)
round-step [] s go_on e = cc
round-step (d ∷ r) s {c} go_on e = let same : d ≡ c = cc in rw same

ended-open_comment : (r : Bytes) (s : LexState) (body : Bytes) → r ≡ b'#' ∷ body → ended r s ≡ none
ended-open_comment [] s body e = cc
ended-open_comment (c ∷ r) s body e = refl

-- Where the lexer meets a `#` that no newline follows, it reads past the end of the buffer.
pub run-open_comment :
    (fuel : ℕ) (s : LexState) (body : Bytes)
    → s.rest ≡ b'#' ∷ body
    → ¬ HasNewline body
    → run fuel s ≡ none
unfolding run
run-open_comment zero s body e h = ended-open_comment s.rest s body e
run-open_comment (suc fuel) s body e h =
    round-step s.rest s (run fuel) e ∙ rw (step-open_comment s body e h)

-- The bytes that begin no token, no comment and no blank: control characters, the punctuation that
-- Millie does not use, and what is beyond ASCII.
abbrev pub is_junk : ℕ → Bool
is_junk c =
    leb c 8
    || (leb 11 c && leb c 12)
    || (leb 14 c && leb c 31)
    || c == b'!'
    || c == 34
    || (leb b'$' c && leb c 39)
    || c == b'.'
    || (leb b':' c && leb c b'<')
    || (leb b'>' c && leb c b'@')
    || (leb b'[' c && leb c b'^')
    || c == b'`'
    || leb b'{' c

abbrev pub AreJunk : Bytes → Type 0
AreJunk = All (λ c. is_junk c ≡ true)

-- What is left of the state when only unexpected bytes were read: no error and no token is added.
pub record Silent (s s' : LexState) : Type 0 where
  pub errors_are : s'.errors ≡ s.errors
  pub tokens_are : s'.token_array ≡ s.token_array
  pub rest_is : s'.rest ≡ []
