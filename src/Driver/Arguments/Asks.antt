-- ===== src/Driver/Arguments/Asks.antt =====
-- What arguments ask for, apart from `main`, and what they make of the settings.
use millie.Prelude.{
  ℕ, ◌≡◌, refl, sym, ap, subst, ◌∙◌, inl, inr, Bool, Bool-cases, true, false, ◌||◌, List, [], ◌∷◌,
  ◌++◌, Option, none, some, append_assoc, append-nil, ◌==◌, ==_iff, if◌then◌else◌,
}
use mathlib.Core.Path.{ap₂}
use millie.Lexer.{Bytes}
use millie.Driver.Arguments.{Settings, go_on, same, starts_with_dash}

abbrev pub has : ℕ → Bytes → Bool
has letter [] = false
has letter (c ∷ cs) = (c == letter) || has letter cs

-- Whether an argument asks for what a letter and a long switch stand for.
abbrev pub asks : ℕ → Bytes → Bytes → Bool
asks letter long [] = false
asks letter long (c ∷ rest) =
    if c == b'-'
    then (if starts_with_dash rest then same (c ∷ rest) long else has letter rest)
    else false

abbrev pub any_asks : ℕ → Bytes → List Bytes → Bool
any_asks letter long [] = false
any_asks letter long (arg ∷ args) = asks letter long arg || any_asks letter long args

-- The arguments that begin with no dash.
abbrev pub file_names : List Bytes → List Bytes
file_names [] = []
file_names (arg ∷ args) = if starts_with_dash arg then file_names args else arg ∷ file_names args

abbrev pub names_of : Option Bytes → List Bytes
names_of none = []
names_of (some name) = name ∷ []

-- What the arguments make of the settings: the names, the wish for the type, and that for more.
pub record Makes (names : List Bytes) (type more : Bool) (s s' : Settings) : Type 0 where
  pub named : names_of s'.fname ≡ names_of s.fname ++ names
  pub typed : s'.print_type ≡ (s.print_type || type)
  pub spoken : s'.verbose ≡ (s.verbose || more)

pub or_false : (b : Bool) → b ≡ (b || false)
or_false true = refl
or_false false = refl

or_true : (b : Bool) → true ≡ (b || true)
or_true true = refl
or_true false = refl

or_assoc : (a b c : Bool) → ((a || b) || c) ≡ (a || (b || c))
or_assoc true b c = refl
or_assoc false b c = refl

pub go_on-injective : {a b : Settings} → go_on a ≡ go_on b → a ≡ b
go_on-injective h = cc

pub Makes-trans :
    {xs ys : List Bytes} {t t' v v' : Bool} {s s' s'' : Settings}
    → Makes xs t v s s'
    → Makes ys t' v' s' s''
    → Makes (xs ++ ys) (t || t') (v || v') s s''
Makes-trans {xs} {ys} {t} {t'} {v} {v'} {s} {s'} {s''} a b = record {
  named = b.named ∙ ap (λ l. l ++ ys) a.named ∙ append_assoc (names_of s.fname) xs ys;
  typed = b.typed ∙ ap (λ x. x || t') a.typed ∙ or_assoc s.print_type t t';
  spoken = b.spoken ∙ ap (λ x. x || v') a.spoken ∙ or_assoc s.verbose v v';
}

pub Makes-refl : (s : Settings) → Makes [] false false s s
Makes-refl s = record {
  named = sym (append-nil (names_of s.fname));
  typed = or_false s.print_type;
  spoken = or_false s.verbose;
}

pub Makes-type : (s : Settings) → Makes [] true false s (record s { print_type = true })
Makes-type s = record {
  named = sym (append-nil (names_of s.fname));
  typed = or_true s.print_type;
  spoken = or_false s.verbose;
}

pub Makes-verbose : (s : Settings) → Makes [] false true s (record s { verbose = true })
Makes-verbose s = record {
  named = sym (append-nil (names_of s.fname));
  typed = or_false s.print_type;
  spoken = or_true s.verbose;
}

-- What is made of the settings that a reading goes on with.
pub Makes-go_on :
    {names : List Bytes} {type more : Bool} {s a b : Settings}
    → Makes names type more s a
    → go_on a ≡ go_on b
    → Makes names type more s b
Makes-go_on {names} {type} {more} {s} m h = subst (Makes names type more s) (go_on-injective h) m

pub same_eq : (xs ys : Bytes) → same xs ys ≡ true → xs ≡ ys
same_eq [] [] h = refl
same_eq [] (y ∷ ys) h = cc
same_eq (x ∷ xs) [] h = cc
same_eq (x ∷ xs) (y ∷ ys) h = elim (Bool-cases (x == y)) [
  | inl q ↦ ap₂ (λ a b. a ∷ b) ((==_iff x y).0 q) (same_eq xs ys (rw q at h))
  | inr q ↦ let no : false ≡ true = rw q at h in cc
]
