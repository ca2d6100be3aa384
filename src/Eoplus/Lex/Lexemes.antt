-- ===== src/Eoplus/Lex/Lexemes.antt =====
-- src/eoplus/lex.cpp: what a script is made of, and how the loops go through it.
use etheos.Base.{
  ℕ, ◌+◌, ◌-◌, ◌*◌, ◌^◌, ◌≤◌, ◌<◌, ◌≡◌, refl, ap, Bool, true, false, List, [], ◌∷◌, ◌++◌, arith,
  ◌==◌, ◌||◌, if◌then◌else◌, All,
}
use etheos.Eoplus.Lex.{
  Token, identifier, text, symbol, integer, Lexer, got, get_while, add_digit, add_digits, to_lower,
  same_text, text_true, text_false, ctype_digit, ctype_ident_start, ctype_ident, ctype_symbol,
}

-- What a script is made of, but for operators.
pub data Lexeme : Type 0 where
  name digits quoted : List ℕ → Lexeme
  sign : ℕ → Lexeme

-- Quotes and backslashes are written behind a backslash.
abbrev pub escaped : List ℕ → List ℕ
escaped [] = b'"' ∷ []
escaped (c ∷ s) =
    let rest = escaped s in if c == b'"' || c == b'\\' then b'\\' ∷ c ∷ rest else c ∷ rest

abbrev pub spelled : Lexeme → List ℕ
spelled (name s) = s
spelled (digits ds) = ds
spelled (quoted s) = b'"' ∷ escaped s
spelled (sign c) = c ∷ []

-- The number that decimal digits stand for.
abbrev pub decimal : ℕ → List ℕ → ℕ
decimal n [] = n
decimal n (c ∷ cs) = decimal (n * 10 + (c - b'0')) cs

abbrev pub meaning : Lexeme → Token
meaning (name s) = identifier s
meaning (digits ds) = integer (decimal 0 ds)
meaning (quoted s) = text s
meaning (sign c) = symbol (c ∷ [])

-- A lower-case name that is not `true` or `false`, a number below 2 ^ 31, a text on one line or a
-- symbol of `ctype_symbol`.
abbrev pub IsLexeme : Lexeme → Type 0
IsLexeme (name []) = ⊥
IsLexeme (name (c ∷ s)) =
    (ctype_ident_start c ≡ true)
    × All (λ d. ctype_ident d ≡ true) s
    × All (λ d. to_lower d ≡ d) (c ∷ s)
    × ((same_text (c ∷ s) text_true || same_text (c ∷ s) text_false) ≡ false)
IsLexeme (digits []) = ⊥
IsLexeme (digits (c ∷ ds)) =
    All (λ d. ctype_digit d ≡ true) (c ∷ ds) × (decimal 0 (c ∷ ds) < 2 ^ 31)
IsLexeme (quoted s) = All (λ d. (d == b'\n') ≡ false) s
IsLexeme (sign c) = ctype_symbol c ≡ true

-- What comes next, with no token buffered.
abbrev pub Faces : Lexer → List ℕ → Type 0
Faces lx is = (lx.is ≡ is) × (lx.token_buffer ≡ [])

pub got-Faces :
    (c : ℕ) (rest : List ℕ) (lx : Lexer)
    → (c == b'\n') ≡ false
    → Faces lx (c ∷ rest)
    → Faces (got c rest lx) rest
unfolding got
got-Faces c rest lx h f = let b = f.1 in rw h (refl, b)

-- A loop gets all the characters that it accepts.
pub get_while-Faces :
    (f : ℕ → Bool) (cs : List ℕ) (d : ℕ) (rest : List ℕ) (lx : Lexer)
    → All (λ c. f c ≡ true) cs
    → ((c : ℕ) → f c ≡ true → (c == b'\n') ≡ false)
    → f d ≡ false
    → Faces lx (cs ++ d ∷ rest)
    → ((get_while f (cs ++ d ∷ rest) lx).0 ≡ cs)
      × Faces (get_while f (cs ++ d ∷ rest) lx).1 (d ∷ rest)
unfolding get_while
get_while-Faces f [] d rest lx a inner h faces = rw (get_while, h) (refl, faces)
get_while-Faces f (c ∷ cs) d rest lx a inner h faces =
    let (gotten, next) =
      get_while-Faces f cs d rest (got c (cs ++ d ∷ rest) lx) a.1 inner h
        (got-Faces c (cs ++ d ∷ rest) lx (inner c a.0) faces) in
    rw (get_while, a.0) (ap (◌∷◌ c) gotten, next)

decimal_le : (n : ℕ) (ds : List ℕ) → n ≤ decimal n ds
decimal_le n [] = omega arith
decimal_le n (c ∷ ds) = omega (arith, decimal_le (n * 10 + (c - b'0')) ds)

-- The cap of `ReadNumber` is no matter below 2 ^ 31.
pub add_digits-decimal :
    (n : ℕ) (ds : List ℕ)
    → All (λ d. ctype_digit d ≡ true) ds
    → decimal n ds < 2 ^ 31
    → add_digits n ds ≡ decimal n ds
unfolding add_digits add_digit
add_digits-decimal n [] a h = refl
add_digits-decimal n (c ∷ ds) a h =
    let small = decimal_le (n * 10 + (c - b'0')) ds in
    let one : add_digit n c ≡ n * 10 + (c - b'0') = ground (arith, small, h, a.0) in
    rw one (add_digits-decimal (n * 10 + (c - b'0')) ds a.1 h)
