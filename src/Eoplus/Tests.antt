-- ===== src/Eoplus/Tests.antt =====
-- The lexer on a script.
use etheos.Base.{ℕ, ◌≡◌, ◌≢◌, refl, true, List, [], ◌∷◌, ◌++◌, map, All, arith}
use etheos.Eoplus.Lex
use etheos.Eoplus.Lex.{ok}
use etheos.Eoplus.Lex.Ends.{lex_total}
use etheos.Eoplus.Lex.Comments.{read_token_endless}
use etheos.Eoplus.Lex.Lexemes.{Lexeme, name, digits, quoted, sign, meaning, IsLexeme}
use etheos.Eoplus.Lex.Printing.{printed, lex-printed}

-- `If (a_1<=20) // x`, a line's end, and `"p\"q"; TRUE`.
abbrev script : List ℕ
script =
    b'I' ∷ b'f' ∷ b' ' ∷ b'(' ∷ b'a' ∷ b'_' ∷ b'1' ∷ b'<' ∷ b'=' ∷ b'2' ∷ b'0' ∷ b')' ∷ b' ' ∷ b'/'
    ∷ b'/' ∷ b' ' ∷ b'x' ∷ b'\n' ∷ b'"' ∷ b'p' ∷ b'\\' ∷ b'"' ∷ b'q' ∷ b'"' ∷ b';' ∷ b'T' ∷ b'R'
    ∷ b'U' ∷ b'E' ∷ []

tokens :
    Lex.lex 40 (Lex.new_lexer script)
    ≡ ok (
        Lex.identifier (b'i' ∷ b'f' ∷ [])
        ∷ Lex.operator 8
        ∷ Lex.identifier (b'a' ∷ b'_' ∷ b'1' ∷ [])
        ∷ Lex.operator 16
        ∷ Lex.integer 20
        ∷ Lex.operator 9
        ∷ Lex.new_line
        ∷ Lex.text (b'p' ∷ b'"' ∷ b'q' ∷ [])
        ∷ Lex.symbol (b';' ∷ [])
        ∷ Lex.boolean true
        ∷ Lex.end_of_file
        ∷ [])
unfolding Lex.lex Lex.read_token Lex.new_lexer Lex.add_digit
tokens = refl

lex_total_example : Lex.lex 37 (Lex.new_lexer (b'/' ∷ b'/' ∷ b'x' ∷ b'\n' ∷ [])) ≢ Lex.running
lex_total_example = lex_total (b'/' ∷ b'/' ∷ b'x' ∷ b'\n' ∷ []) 37 refl (omega arith)

-- A script that is a comment only.
abbrev unended : Lex.Lexer
unended = record { row = 1; col = 0; is = b'/' ∷ b'/' ∷ b'x' ∷ []; token_buffer = [] }

read_token_endless_example : Lex.read_token 50 unended ≡ Lex.running
read_token_endless_example = read_token_endless 50 (b'x' ∷ []) unended refl refl (refl, tt)

-- `ab 20 "q"` and a semicolon.
abbrev lexemes : List Lexeme
lexemes =
    name (b'a' ∷ b'b' ∷ []) ∷ digits (b'2' ∷ b'0' ∷ []) ∷ quoted (b'"' ∷ b'q' ∷ []) ∷ sign b';' ∷ []

lexemes_valid : All IsLexeme lexemes
unfolding Lex.same_text Lex.to_lower Lex.ctype_symbol
lexemes_valid = (
  (refl, (refl, tt), (refl, (refl, tt)), refl),
  (((refl, (refl, tt)), omega arith), ((refl, (refl, tt)), (refl, tt))),
)

lex-printed_example :
    Lex.lex 9 (Lex.new_lexer (printed lexemes)) ≡ ok (map meaning lexemes ++ Lex.end_of_file ∷ [])
lex-printed_example = lex-printed lexemes 9 lexemes_valid (omega arith)
