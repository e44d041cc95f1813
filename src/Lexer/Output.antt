-- ===== src/Lexer/Output.antt =====
-- What `LexBuffer` returns: the line array, and tokens that lie in order in the text and are
-- spelled as their types say.
use millie.Prelude.{
  ℕ, zero, suc, ◌+◌, ◌≤◌, ◌<◌, ◌≡◌, refl, sym, ap, subst, ◌∙◌, ◌⊎◌, inl, inr, List, [], ◌∷◌, ◌++◌,
  Option, some, arith, length, drop, take, append-nil, >>=-eq-some,
}
use mathlib.Core.Option.{some-injective}
use millie.Errors.{Errors}
use millie.Token.{TokenType, tok_eof, MillieToken, MillieTokens}
use millie.Lexer.{Bytes, LexState, add_token, ended, round, step, run, initial, lex_buffer}
use millie.Lexer.Round.{newlines, Spells, Moves}
use millie.Lexer.Moves.{step-Moves}

-- The `length` bytes of the text from `start` on.
abbrev pub slice : Bytes → ℕ → ℕ → Bytes
slice text start length = take length (drop start text)

-- Tokens that follow one another in the text from `lo` to `hi`, each of them not empty and spelled
-- as its type says. Between them may stand blanks, comments and bytes that are no token.
pub data Reads (text : Bytes) (lo : ℕ) : List MillieToken → ℕ → Type 0 where
  start : {hi : ℕ} → lo ≤ hi → Reads text lo [] hi
  token :
      {ts : List MillieToken} {mid : ℕ}
      → Reads text lo ts mid
      → (t : TokenType) (pos length hi : ℕ) → mid ≤ pos
      → 0 < length
      → pos + length ≤ hi
      → Spells t (slice text pos length)
      → Reads text lo (ts ++ (record { type = t; start = pos; length = length } ∷ [])) hi

module _ (P : LexState → Type 0) (keep : (s s' : LexState) → Moves s s' → P s → P s') where
  ended-keeps :
      (r : Bytes) (s : LexState) {s' : LexState}
      → s.rest ≡ r
      → ended r s ≡ some s'
      → P s
      → P s' × (s'.rest ≡ [])
  ended-keeps [] s {s'} e q p =
      let same : s ≡ s' = cc in (subst P same p, ap (λ (x : LexState). x.rest) (sym same) ∙ e)
  ended-keeps (c ∷ r) s e q p = cc

  round-keeps :
      (r : Bytes) (s : LexState) {s' : LexState} (go_on : LexState → Option LexState)
      → s.rest ≡ r
      → round r s go_on ≡ some s'
      → P s
      → ((s₁ : LexState) → go_on s₁ ≡ some s' → P s₁ → P s' × (s'.rest ≡ []))
      → P s' × (s'.rest ≡ [])
  round-keeps [] s {s'} go_on e q p ih =
      let same : s ≡ s' = cc in (subst P same p, ap (λ (x : LexState). x.rest) (sym same) ∙ e)
  round-keeps (c ∷ r) s go_on e q p ih =
      let (s₁, f, g) = >>=-eq-some (step c s) go_on q in
      ih s₁ g (keep s s₁ (step-Moves s c r e f) p)

  -- An invariant of the loop, carried from its start to its end.
  run-keeps :
      (fuel : ℕ) (s : LexState) {s' : LexState} → run fuel s ≡ some s' → P s → P s' × (s'.rest ≡ [])
  unfolding run
  run-keeps zero s h p = ended-keeps s.rest s refl h p
  run-keeps (suc fuel) s h p =
      round-keeps s.rest s (run fuel) refl h p λ s₁ g p₁. run-keeps fuel s₁ g p₁

-- What the loop keeps, for the text that it reads.
record Inv (text : Bytes) (s : LexState) : Type 0 where
  ahead : s.rest ≡ drop s.pos text
  within : s.pos + length s.rest ≡ length text
  lines : s.line_array ++ newlines s.pos s.rest ≡ newlines 0 text
  tokens : Reads text 0 s.token_array s.pos

drop-nil : (n : ℕ) → drop n [] ≡ (let none_left : Bytes = [] in none_left)
drop-nil zero = refl
drop-nil (suc n) = refl

drop-drop : (n m : ℕ) (cs : Bytes) → drop m (drop n cs) ≡ drop (n + m) cs
drop-drop zero m cs = let e : 0 + m ≡ m = omega arith in rw e
drop-drop (suc n) m [] = let e : suc n + m ≡ suc (n + m) = omega arith in rw e (drop-nil m)
drop-drop (suc n) m (c ∷ cs) =
    let e : suc n + m ≡ suc (n + m) = omega arith in rw e (drop-drop n m cs)

Reads-later :
    {text : Bytes} {lo : ℕ} {ts : List MillieToken} {mid : ℕ} (hi : ℕ)
    → Reads text lo ts mid
    → mid ≤ hi
    → Reads text lo ts hi
Reads-later hi (start h) k = start (omega arith)
Reads-later hi (token r t pos length hi' a b c d) k = token r t pos length hi a b (omega arith) d

Moves-Inv : (text : Bytes) (s s' : LexState) → Moves s s' → Inv text s → Inv text s'
Moves-Inv text s s' m v = record {
  ahead = m.rest_is ∙ ap (drop m.count) v.ahead ∙ drop-drop s.pos m.count text ∙ rw m.pos_is;
  within = omega (arith, m.fits, m.pos_is, v.within);
  lines = m.lines_are ∙ v.lines;
  tokens = read m.tokens_are;
}
  where
    read :
        (s'.token_array ≡ s.token_array)
          ⊎ ((t : TokenType) × (s'.token_array ≡ (add_token s t s.pos m.count).token_array)
              × Spells t (take m.count s.rest))
        → Reads text 0 s'.token_array s'.pos
    read (inl e) = rw e (Reads-later s'.pos v.tokens (omega (arith, m.pos_is)))
    read (inr (t, e, spells)) = rw e (
        token v.tokens t s.pos m.count s'.pos (omega arith) m.count_pos (omega (arith, m.pos_is))
          (subst (λ r. Spells t (take m.count r)) v.ahead spells))

initial-Inv : (text : Bytes) → Inv text (initial text)
initial-Inv text = record {
  ahead = refl;
  within = omega arith;
  lines = refl;
  tokens = start (omega arith);
}

-- The state in which the loop ends, and what `LexBuffer` makes of it.
lex_buffer-Inv :
    (text : Bytes) {tokens : MillieTokens} {errors : Errors}
    → lex_buffer text ≡ some (tokens, errors)
    → (s : LexState) × Inv text s
      × (s.rest ≡ [])
      × (tokens ≡ record {
        token_array =
            s.token_array ++ (record { type = tok_eof; start = length text; length = 0 } ∷ []);
        line_array = s.line_array;
        buffer = text;
      })
unfolding lex_buffer
lex_buffer-Inv text h =
    let (s, e, f) = >>=-eq-some (run (length text) (initial text)) _ h in
    let (v, r) = run-keeps (Inv text) (Moves-Inv text) _ _ e (initial-Inv text) in (s, v, r, cc)

pub lex_buffer-buffer :
    (text : Bytes) {tokens : MillieTokens} {errors : Errors}
    → lex_buffer text ≡ some (tokens, errors)
    → tokens.buffer ≡ text
unfolding lex_buffer
lex_buffer-buffer text h =
    let (s, e, f) = >>=-eq-some (run (length text) (initial text)) _ h in
    ap (λ (r : MillieTokens × Errors). r.0.buffer) (sym (some-injective _ _ f))

-- When `LexBuffer` returns, its line array holds the positions of all newlines of the buffer, in
-- order, those in comments and among unexpected characters included.
pub lex_buffer-lines :
    (text : Bytes) {tokens : MillieTokens} {errors : Errors}
    → lex_buffer text ≡ some (tokens, errors)
    → tokens.line_array ≡ newlines 0 text
lex_buffer-lines text h =
    let (s, v, r, e) = lex_buffer-Inv text h in
    rw e (sym (append-nil s.line_array) ∙ rw r at v.lines)

-- When `LexBuffer` returns, its tokens are some that lie in the text one behind the other, none of
-- them empty and each spelled as its type says, and then an empty `TOK_EOF` at the text's end.
pub lex_buffer-Reads :
    (text : Bytes) {tokens : MillieTokens} {errors : Errors}
    → lex_buffer text ≡ some (tokens, errors)
    → (ts : List MillieToken) × (tokens.token_array
        ≡ ts ++ (record { type = tok_eof; start = length text; length = 0 } ∷ []))
      × Reads text 0 ts (length text)
lex_buffer-Reads text h =
    let (s, v, r, e) = lex_buffer-Inv text h in
    (s.token_array, rw e, Reads-later (length text) v.tokens (omega (arith, v.within)))
