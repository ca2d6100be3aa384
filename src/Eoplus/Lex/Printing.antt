-- ===== src/Eoplus/Lex/Printing.antt =====
-- src/eoplus/lex.cpp: a printed list of lexemes is read back.
use etheos.Base.{
  ℕ, zero, suc, ◌<◌, ◌≡◌, refl, sym, ap, ◌∙◌, List, [], ◌∷◌, ◌++◌, arith, length, All, map,
}
use etheos.Eoplus.Lex.{
  Token, end_of_file, Lexer, new_lexer, Outcome, ok, ◌>>=◌, got, get_while, peek_char, read_token,
  read_unspaced, lex, ctype_whitespace,
}
use etheos.Eoplus.Lex.Steps.{got_is, read_unspaced_at, get_while_refused}
use etheos.Eoplus.Lex.Lexemes.{
  Lexeme, name, digits, quoted, sign, spelled, meaning, IsLexeme, Faces, got-Faces,
}
use etheos.Eoplus.Lex.Reading.{read_visible-Reads}

-- The lexemes with a space behind each.
abbrev pub printed : List Lexeme → List ℕ
printed [] = []
printed (t ∷ ts) = spelled t ++ 32 ∷ printed ts

unspaced_here :
    (ts : List Lexeme) (lx : Lexer)
    → All IsLexeme ts
    → Faces lx (printed ts)
    → (get_while ctype_whitespace lx.is lx).1 ≡ lx
unfolding get_while
unspaced_here [] lx a faces = ap (λ is. (get_while ctype_whitespace is lx).1) faces.0
unspaced_here (t ∷ ts) lx a faces =
    let (c, tail, next, visible, _, _) = read_visible-Reads t (printed ts) lx a.0 faces in
    ap (λ r. r.1) (get_while_refused ctype_whitespace c tail lx next visible)

unspaced_behind :
    (ts : List Lexeme) (lx : Lexer)
    → All IsLexeme ts
    → Faces lx (32 ∷ printed ts)
    → (get_while ctype_whitespace lx.is lx).1 ≡ got 32 (printed ts) lx
unfolding get_while
unspaced_behind ts lx a faces =
    let l = got 32 (printed ts) lx in
    ap (λ is. (get_while ctype_whitespace is lx).1) faces.0
    ∙ ap (λ is. (get_while ctype_whitespace is l).1) (sym (got_is 32 (printed ts) lx))
    ∙ unspaced_here ts l a (got-Faces 32 (printed ts) lx refl faces)

lex_step :
    (fuel : ℕ) (lx : Lexer) (t : Lexeme) (l : Lexer)
    → read_token (suc fuel) lx ≡ ok (meaning t, l)
    → lex (suc fuel) lx ≡ (lex fuel l >>= λ tokens. ok (meaning t ∷ tokens))
unfolding lex
lex_step fuel lx (name s) l e = rw e
lex_step fuel lx (digits ds) l e = rw e
lex_step fuel lx (quoted s) l e = rw e
lex_step fuel lx (sign c) l e = rw e

read_unspaced_end :
    (again : Lexer → Outcome (Token × Lexer)) (fuel : ℕ) (lx : Lexer)
    → Faces lx []
    → read_unspaced again fuel lx ≡ ok (end_of_file, lx)
unfolding read_unspaced peek_char
read_unspaced_end again fuel lx faces = let (is, buffer) = faces in cc

read_token_lem :
    (fuel : ℕ) (lx l : Lexer)
    → (get_while ctype_whitespace lx.is lx).1 ≡ l
    → read_token (suc fuel) lx ≡ read_unspaced (λ k. read_token fuel k) fuel l
unfolding read_token
read_token_lem fuel lx l e = ap (read_unspaced (λ k. read_token fuel k) fuel) e

lex_end :
    (fuel : ℕ) (lx l : Lexer)
    → read_token (suc fuel) lx ≡ ok (end_of_file, l)
    → lex (suc fuel) lx ≡ ok (end_of_file ∷ [])
unfolding lex
lex_end fuel lx l e = rw e

lex-unspaced :
    (ts : List Lexeme) (fuel : ℕ) (lx l : Lexer)
    → All IsLexeme ts
    → (get_while ctype_whitespace lx.is lx).1 ≡ l
    → Faces l (printed ts)
    → length ts < fuel
    → lex fuel lx ≡ ok (map meaning ts ++ end_of_file ∷ [])
lex-unspaced ts zero lx l a e faces h = absurd (omega arith)
lex-unspaced [] (suc fuel) lx l a e faces h =
    lex_end fuel lx l
      (read_token_lem fuel lx l e ∙ read_unspaced_end (λ k. read_token fuel k) fuel l faces)
lex-unspaced (t ∷ ts) (suc fuel) lx l a e faces h =
    let (c, tail, next, _, plain, (l2, read, behind)) =
      read_visible-Reads t (printed ts) l a.0 faces in
    let token : read_token (suc fuel) lx ≡ ok (meaning t, l2) =
      read_token_lem fuel lx l e
      ∙ read_unspaced_at (λ k. read_token fuel k) fuel c tail l next faces.1
      ∙ rw plain read in
    lex_step fuel lx t l2 token
    ∙ ap (λ r. r >>= λ tokens. ok (meaning t ∷ tokens))
        (lex-unspaced ts fuel l2 (got 32 (printed ts) l2) a.1 (unspaced_behind ts l2 a.1 behind)
          (got-Faces 32 (printed ts) l2 refl behind) (omega arith))

-- The names, numbers, texts and symbols of a script that has a space behind each of them are the
-- tokens that `Lex` gives, with the end of the file behind them; a round for each is enough, and
-- one for the end.
pub lex-printed :
    (ts : List Lexeme) (fuel : ℕ)
    → All IsLexeme ts
    → length ts < fuel
    → lex fuel (new_lexer (printed ts)) ≡ ok (map meaning ts ++ end_of_file ∷ [])
unfolding new_lexer
lex-printed ts fuel a h =
    let lx = new_lexer (printed ts) in
    lex-unspaced ts fuel lx lx a (unspaced_here ts lx a (refl, refl)) (refl, refl) h
