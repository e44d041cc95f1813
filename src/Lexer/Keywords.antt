-- ===== src/Lexer/Keywords.antt =====
-- Keywords of lexer.c against the text that they match.
use millie.Prelude.{
  ℕ, zero, suc, ◌<◌, ◌≡◌, ◌≢◌, refl, subst, sym, ◌∙◌, inl, inr, Bool, true, false, List, [], ◌∷◌,
  ◌++◌, Option, none, some, arith, ◌==◌, if◌then◌else◌, ◌>>=◌, length, take, append-nil,
  Option-cases, All,
}
use millie.Lexer.Round.{Plain, Spells, Moves, Moves-token}
use millie.Lexer.{
  Bytes, KeywordToken, LexState, one_more, match_keyword, try_add_keyword, try_add_keywords,
}

-- A keyword: some bytes, none of them a newline, as its token is spelled.
abbrev pub IsWord : KeywordToken → Type 0
IsWord kw = (0 < length kw.str) × Plain (length kw.str) kw.str × Spells kw.token kw.str

-- One more byte of the keyword, before what `r` says of the others.
extend-Plain :
    (k c : ℕ) (kw cs : Bytes) (r : Option (Bytes × ℕ)) {left : Bytes} {n : ℕ}
    → k ≢ b'\n'
    → ((l : Bytes) (m : ℕ) → r ≡ some (l, m) → Plain m cs × (take m cs ++ l ≡ kw))
    → (if c == k then one_more r else some (k ∷ kw, 0)) ≡ some (left, n)
    → Plain n (c ∷ cs) × (take n (c ∷ cs) ++ left ≡ k ∷ kw)
extend-Plain k c kw cs none w ih h = ground arith
extend-Plain k c kw cs (some (l, m)) w ih h = ground (arith, ih l m refl)

match_keyword-Plain :
    (kw cs : Bytes) {left : Bytes} {n : ℕ}
    → Plain (length kw) kw
    → match_keyword kw cs ≡ some (left, n)
    → Plain n cs × (take n cs ++ left ≡ kw)
unfolding match_keyword
match_keyword-Plain kw [] w h = ground arith
match_keyword-Plain [] (c ∷ cs) w h = ground arith
match_keyword-Plain (k ∷ kw) (c ∷ cs) w h =
    extend-Plain k c kw cs (match_keyword kw cs) w.0 (λ l m e. match_keyword-Plain kw cs w.1 e) h

abbrev pub Found : LexState → Option (Bool × LexState) → Type 0
Found s none = Unit
Found s (some (false, s')) = s' ≡ s
Found s (some (true, s')) = Moves s s'

pos-of-word : (n : ℕ) (cs kw : Bytes) → 0 < length kw → take n cs ≡ kw → 0 < n
pos-of-word zero cs [] w e = absurd (omega arith)
pos-of-word zero cs (k ∷ kw) w e = cc
pos-of-word (suc n) cs kw w e = omega arith

Found-if :
    (b : Bool) {s s' : LexState}
    → (b ≡ true → Moves s s')
    → Found s (if b then some (true, s') else some (false, s))
Found-if true h = h refl
Found-if false h = refl

try_add_keyword-Found :
    (kw : KeywordToken) (s : LexState) → IsWord kw → Found s (try_add_keyword kw s)
unfolding try_add_keyword
try_add_keyword-Found kw s w = elim (Option-cases (match_keyword kw.str s.rest)) [
  | inl e ↦ rw e tt
  | inr (([], n), e) ↦
      let (plain, same) = match_keyword-Plain kw.str s.rest w.1 e in
      let text : take n s.rest ≡ kw.str = sym (append-nil _) ∙ same in
      rw e (
        Found-if _ (λ _.
          Moves-token n s (pos-of-word n s.rest kw.str w.0 text) plain kw.token
            (subst (Spells kw.token) (sym text) w.2)))
  | inr ((k ∷ kw', n), e) ↦ rw e refl
]

pub try_add_keywords-Found :
    (kws : List KeywordToken) (s : LexState) → All IsWord kws → Found s (try_add_keywords kws s)
unfolding try_add_keywords
try_add_keywords-Found [] s w = refl
try_add_keywords-Found (kw ∷ kws) s w =
    first (try_add_keyword kw s) (try_add_keyword-Found kw s w.0) (try_add_keywords-Found kws s w.1)
  where
    first :
        (r : Option (Bool × LexState))
        → Found s r
        → Found s (try_add_keywords kws s)
        → Found s (r >>= λ r'. elim r'.0 [ true ↦ some r' | false ↦ try_add_keywords kws s ])
    first none h ih = tt
    first (some (true, s')) h ih = h
    first (some (false, s')) h ih = ih
