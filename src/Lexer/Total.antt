-- ===== src/Lexer/Total.antt =====
-- When `LexBuffer` returns, and when it reads outside of the buffer.
use millie.Prelude.{
  ℕ, zero, suc, ◌≤◌, ◌≡◌, ◌≢◌, refl, ◌⊎◌, inl, inr, Bool, true, false, List, [], ◌∷◌, ◌++◌, Option,
  none, some, arith, ◌==◌, if◌then◌else◌, ◌>>=◌, length, drop,
}
use millie.Errors.{Errors}
use millie.Token.{TokenType, tok_eof, MillieTokens}
use millie.Lexer.{
  Bytes, KeywordToken, LexState, one_more, whole_word, advance, add_token, match_keyword,
  try_add_keyword, try_add_keywords, keyword_or_identifier, keywords_of, starts_keyword, further,
  comment_length, punctuation, is_blank, is_digit, is_identifier_start, scan_other, scan, step,
  ended, round, run, initial, lex_buffer,
}
use millie.Lexer.Moves.{step-Moves}

abbrev pub HasNewline : Bytes → Type 0
HasNewline [] = ⊥
HasNewline (c ∷ cs) = (c ≡ b'\n') ⊎ HasNewline cs

-- No byte is NUL, and a newline stands somewhere behind each `#`.
abbrev pub IsReadable : Bytes → Type 0
IsReadable [] = Unit
IsReadable (c ∷ cs) = (c ≢ 0) × (c ≡ b'#' → HasNewline cs) × IsReadable cs

-- The operation does not fault.
data Runs {ℓ} {A : Type ℓ} : Option A → Type ℓ where
  ran : {a : A} → Runs (some a)

Runs-bind {ℓ κ} :
    {A : Type ℓ} {B : Type κ} {m : Option A} (f : A → Option B)
    → Runs m
    → ((a : A) → Runs (f a))
    → Runs (m >>= f)
Runs-bind f (ran {a}) k = k a

Runs-if {ℓ} :
    {A : Type ℓ} (b : Bool) {x y : Option A}
    → (b ≡ true → Runs x)
    → (b ≡ false → Runs y)
    → Runs (if b then x else y)
Runs-if true h k = h refl
Runs-if false h k = k refl

Runs-some {ℓ} : {A : Type ℓ} {m : Option A} → Runs m → (a : A) × (m ≡ some a)
Runs-some (ran {a}) = (a, refl)

Runs-one_more : {r : Option (Bytes × ℕ)} → Runs r → Runs (one_more r)
Runs-one_more (ran {a}) = ran

Runs-further : {r : Option ℕ} → Runs r → Runs (further r)
Runs-further (ran {a}) = ran

Runs-match_keyword : (kw cs : Bytes) → IsReadable cs → Runs (match_keyword kw cs)
unfolding match_keyword
Runs-match_keyword kw [] h = ran
Runs-match_keyword [] (c ∷ cs) h = Runs-if (c == 0) (λ e. ground arith) (λ _. ran)
Runs-match_keyword (k ∷ kw) (c ∷ cs) h =
    Runs-if (c == k) (λ _. Runs-one_more (Runs-match_keyword kw cs h.2)) (λ _. ran)

Runs-try_add_keyword :
    (kw : KeywordToken) (s : LexState) → IsReadable s.rest → Runs (try_add_keyword kw s)
unfolding try_add_keyword
Runs-try_add_keyword kw s h =
    Runs-bind _ (Runs-match_keyword kw.str s.rest h)
      λ m. Runs-if (whole_word m.0 (drop m.1 s.rest)) (λ _. ran) (λ _. ran)

Runs-try_add_keywords :
    (kws : List KeywordToken) (s : LexState) → IsReadable s.rest → Runs (try_add_keywords kws s)
unfolding try_add_keywords
Runs-try_add_keywords [] s h = ran
Runs-try_add_keywords (kw ∷ kws) s h =
    Runs-bind _ (Runs-try_add_keyword kw s h) (later (Runs-try_add_keywords kws s h))
  where
    later :
        Runs (try_add_keywords kws s)
        → (r : Bool × LexState) → Runs (elim r.0 [ true ↦ some r | false ↦ try_add_keywords kws s ])
    later ih (true, s') = ran
    later ih (false, s') = ih

Runs-comment_length : (cs : Bytes) → HasNewline cs → Runs (comment_length cs)
unfolding comment_length
Runs-comment_length [] h = absurd h
Runs-comment_length (c ∷ cs) (inl e) =
    Runs-if (c == b'\n') (λ _. ran) (λ other. absurd (ground arith))
Runs-comment_length (c ∷ cs) (inr h) =
    Runs-if (c == b'\n') (λ _. ran) (λ _. Runs-further (Runs-comment_length cs h))

Runs-scan :
    (s : LexState) (c : ℕ) (cs : Bytes) → s.rest ≡ c ∷ cs → IsReadable s.rest → Runs (scan c s)
unfolding scan scan_other keyword_or_identifier
Runs-scan s c cs here h = dispatch (punctuation c)
  where
    comment : c ≡ b'#' → HasNewline s.rest
    comment e = rw here (inr ((rw here at h).1 e))

    other : Runs (scan_other c s)
    other =
        Runs-if (c == b'=') (λ _. ran)
          λ _.
            Runs-if (is_blank c) (λ _. ran)
              λ _.
                Runs-if (c == b'\n') (λ _. ran)
                  λ _.
                    Runs-if (c == b'#')
                      (λ e.
                        Runs-bind _ (Runs-comment_length s.rest (comment (ground arith)))
                          (λ _. ran))
                      λ _.
                        Runs-if (starts_keyword c)
                          (λ _.
                            Runs-bind _
                              (Runs-bind _ (Runs-try_add_keywords (keywords_of c) s h) (λ _. ran))
                              (λ _. ran))
                          λ _.
                            Runs-if (is_digit c) (λ _. ran)
                              λ _. Runs-if (is_identifier_start c) (λ _. ran) (λ _. ran)

    dispatch :
        (r : Option TokenType)
        → Runs (elim r [
          | some type ↦ some (false, advance 1 (add_token s type s.pos 1))
          | none ↦ scan_other c s
        ])
    dispatch none = other
    dispatch (some t) = ran

Runs-step :
    (s : LexState) (c : ℕ) (cs : Bytes) → s.rest ≡ c ∷ cs → IsReadable s.rest → Runs (step c s)
unfolding step
Runs-step s c cs here h = Runs-bind _ (Runs-scan s c cs here h) (λ _. ran)

IsReadable-drop : (n : ℕ) (cs : Bytes) → IsReadable cs → IsReadable (drop n cs)
IsReadable-drop zero cs h = h
IsReadable-drop (suc n) [] h = tt
IsReadable-drop (suc n) (c ∷ cs) h = IsReadable-drop n cs h.2

Runs-ended : (r : Bytes) (s : LexState) → length r ≤ 0 → Runs (ended r s)
Runs-ended [] s h = ran
Runs-ended (c ∷ r) s h = absurd (omega arith)

Runs-round :
    (r : Bytes) (s : LexState) (fuel : ℕ)
    → s.rest ≡ r
    → IsReadable s.rest
    → length s.rest ≤ suc fuel
    → ((s' : LexState) → IsReadable s'.rest → length s'.rest ≤ fuel → Runs (run fuel s'))
    → Runs (round r s (run fuel))
Runs-round [] s fuel e h le ih = ran
Runs-round (c ∷ r) s fuel e h le ih =
    let (s', f) = Runs-some (Runs-step s c r e h) in
    let m = step-Moves s c r e f in
    rw f
      (ih s' (rw m.rest_is (IsReadable-drop m.count s.rest h)) (omega (arith, m.fits, m.count_pos)))

-- Each round takes a byte at least: as many rounds as there are bytes left are enough.
Runs-run : (fuel : ℕ) (s : LexState) → IsReadable s.rest → length s.rest ≤ fuel → Runs (run fuel s)
unfolding run
Runs-run zero s h le = Runs-ended s.rest s le
Runs-run (suc fuel) s h le = Runs-round s.rest s fuel refl h le (Runs-run fuel)

-- On a text with no NUL byte in which a newline stands behind every `#`, `LexBuffer` returns.
pub lex_buffer-total :
    (text : Bytes)
    → IsReadable text
    → (tokens : MillieTokens) × (errors : Errors) × (lex_buffer text ≡ some (tokens, errors))
unfolding lex_buffer
lex_buffer-total text h =
    let (s, e) = Runs-some (Runs-run (length text) (initial text) h (omega arith)) in
    (
      record {
        token_array =
            s.token_array ++ (record { type = tok_eof; start = length text; length = 0 } ∷ []);
        line_array = s.line_array;
        buffer = text;
      },
      s.errors,
      rw e,
    )
