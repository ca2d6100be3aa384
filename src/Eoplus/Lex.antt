-- ===== src/Eoplus/Lex.antt =====
-- src/eoplus/lex.cpp, with `Lex` of src/eoplus/lex.hpp and `UOP2` of src/fwd/eoplus.hpp. The
-- characters are bytes, as in the C locale; `row` and `col` of a script stay in an `int`.
pub mod Operators
pub mod Steps
pub mod Ends
pub mod Comments
pub mod Lexemes
pub mod Reading
pub mod Printing
use mathlib.Core.Option.{map}
use etheos.Base.{
  ℕ, zero, suc, ◌+◌, ◌-◌, ◌*◌, ◌/◌, ◌%◌, ◌^◌, Bool, true, false, Option, none, some, List, [], ◌∷◌,
  ◌++◌, ◌||◌, ◌&&◌, not, ◌==◌, ltb, leb, if◌then◌else◌,
}
use etheos.Base.Word.{add32, lt32}

-- `Token` with its type and its value.
pub data Token : Type 0 where
  invalid new_line end_of_file : Token
  identifier text symbol : List ℕ → Token
  integer operator : ℕ → Token
  boolean : Bool → Token

-- The stream `is` holds the bytes that have not been read.
pub record Lexer : Type 0 where
  pub row : ℕ
  pub col : ℕ
  pub is : List ℕ
  pub token_buffer : List Token

unfoldable pub new_lexer : List ℕ → Lexer
new_lexer is = record { row = 1; col = 0; is = is; token_buffer = [] }

-- A result, a `Lexer_Error`, or a loop that has not ended when the fuel is spent.
pub data Outcome {ℓ} (A : Type ℓ) : Type ℓ where
  ok : A → Outcome A
  error : ℕ → ℕ → Outcome A
  running : Outcome A

infixl 5 ◌>>=◌
abbrev pub ◌>>=◌ {ℓ κ} : {A : Type ℓ} {B : Type κ} → Outcome A → (A → Outcome B) → Outcome B
ok a >>= f = f a
error row col >>= f = error row col
running >>= f = running

unfoldable pub ctype : List ℕ → ℕ → Bool
ctype [] c = false
ctype (p ∷ chars) c = p == c || ctype chars c

-- `()&|=!<>+-*/%&|!`.
abbrev pub op_chars : List ℕ
op_chars =
    b'(' ∷ b')' ∷ b'&' ∷ b'|' ∷ b'=' ∷ b'!' ∷ b'<' ∷ b'>' ∷ b'+' ∷ b'-' ∷ b'*' ∷ b'/' ∷ b'%' ∷ []

unfoldable pub ctype_op : ℕ → Bool
unfolding ctype
ctype_op c = ctype op_chars c

unfoldable pub ctype_symbol : ℕ → Bool
unfolding ctype
ctype_symbol c = ctype (b';' ∷ b'{' ∷ b'}' ∷ b'.' ∷ b',' ∷ []) c

abbrev pub ctype_whitespace : ℕ → Bool
ctype_whitespace c = c == 32 || (leb 9 c && leb c 13)

abbrev pub ctype_alpha : ℕ → Bool
ctype_alpha c = (leb b'A' c && leb c b'Z') || (leb b'a' c && leb c b'z')

abbrev pub ctype_digit : ℕ → Bool
ctype_digit c = leb b'0' c && leb c b'9'

abbrev pub ctype_ident_start : ℕ → Bool
ctype_ident_start c = ctype_alpha c || c == b'_' || c == b'$'

abbrev pub ctype_ident : ℕ → Bool
ctype_ident c = not (c == b'$') && (ctype_ident_start c || ctype_digit c)

-- `UOP_ALT`.
abbrev pub uop_alt : ℕ
uop_alt = 2

unfoldable pub uop2 : ℕ → ℕ → ℕ
uop2 a b = (a + 256 - 32 + b * 4) % 256

unfoldable pub check_op : ℕ → ℕ → Bool
check_op a b =
    if a == b'(' || a == b')' || a == b'+'
    then b == 0
    else if a == b'&'
    then b == 0 || b == b'&'
    else if a == b'|'
    then b == 0 || b == b'|'
    else if a == b'-'
    then b == 0 || b == uop_alt
    else if a == b'*' || a == b'/' || a == b'%'
    then b == 0
    else if a == b'<' || a == b'>' || a == b'!'
    then b == 0 || b == b'='
    else if a == b'='
    then b == b'='
    else false

-- What `GetChar` leaves when it has got `c` and `rest` stands behind it.
unfoldable pub got : ℕ → List ℕ → Lexer → Lexer
got c rest lx =
    if c == b'\n'
    then record lx {
      is = rest;
      token_buffer = lx.token_buffer ++ new_line ∷ [];
      row = lx.row + 1;
      col = 0;
    }
    else record lx { is = rest; col = lx.col + 1 }

-- `PeekChar`, `GetChar` and `GetCharIf`.
unfoldable pub peek_char : Lexer → Option ℕ
peek_char lx = elim lx.is [ [] ↦ none | c ∷ rest ↦ some c ]

unfoldable pub get_char : Lexer → Option (ℕ × Lexer)
unfolding got
get_char lx = elim lx.is [ [] ↦ none | c ∷ rest ↦ some (c, got c rest lx) ]

unfoldable pub get_char_if : (ℕ → Bool) → Lexer → Option (ℕ × Lexer)
unfolding got
get_char_if f lx = elim lx.is [
  | [] ↦ none
  | c ∷ rest ↦ if f c then some (c, got c rest lx) else none
]

-- The characters that a loop `while (GetCharIf(c, f))` gets from the stream.
unfoldable pub get_while : (ℕ → Bool) → List ℕ → Lexer → List ℕ × Lexer
get_while f [] lx = ([], lx)
get_while f (c ∷ rest) lx =
    let more = get_while f rest (got c rest lx) in if f c then (c ∷ more.0, more.1) else ([], lx)

-- One round of the loop of `ReadNumber`. The product and the sum wrap round.
unfoldable pub add_digit : ℕ → ℕ → ℕ
add_digit n c =
    let capped : ℕ = if lt32 ((2 ^ 31 - 1) / 10) n then 2 ^ 31 - 1 else n in
    add32 ((capped * 10) % 2 ^ 32) (c - b'0')

unfoldable pub add_digits : ℕ → List ℕ → ℕ
add_digits n [] = n
add_digits n (c ∷ cs) = add_digits (add_digit n c) cs

unfoldable pub read_number : Lexer → Token × Lexer
unfolding get_char_if get_while add_digits
read_number lx = elim (get_char_if ctype_digit lx) [
  | none ↦ (invalid, lx)
  | some (c, lx1) ↦
      let (cs, lx2) = get_while ctype_digit lx1.is lx1 in (integer (add_digits (c - b'0') cs), lx2)
]

-- The loop of `ReadString`.
unfoldable pub string_loop : List ℕ → Bool → List ℕ → Lexer → Outcome (Token × Lexer)
string_loop [] escape s lx = ok (text s, lx)
string_loop (c ∷ rest) escape s lx =
    let lx' = got c rest lx in
    let escaping = not escape && c == b'\\' in
    let more = string_loop rest escaping (if escaping then s else s ++ c ∷ []) lx' in
    if not escape && c == b'"'
    then ok (text s, lx')
    else if not escape && c == b'\n'
    then error lx'.row lx'.col
    else more

unfoldable pub read_string : Lexer → Outcome (Token × Lexer)
unfolding get_char_if string_loop
read_string lx = elim (get_char_if (λ c. c == b'"') lx) [
  | none ↦ ok (invalid, lx)
  | some (c, lx1) ↦ string_loop lx1.is false [] lx1
]

-- `util::lowercase`.
unfoldable pub to_lower : ℕ → ℕ
to_lower c = if leb b'A' c && leb c b'Z' then c + 32 else c

unfoldable pub lowercase : List ℕ → List ℕ
lowercase [] = []
lowercase (c ∷ s) = to_lower c ∷ lowercase s

unfoldable pub same_text : List ℕ → List ℕ → Bool
same_text [] [] = true
same_text (c ∷ s) (d ∷ t) = c == d && same_text s t
same_text s t = false

abbrev pub text_true : List ℕ
text_true = b't' ∷ b'r' ∷ b'u' ∷ b'e' ∷ []

abbrev pub text_false : List ℕ
text_false = b'f' ∷ b'a' ∷ b'l' ∷ b's' ∷ b'e' ∷ []

unfoldable pub word : List ℕ → Token
unfolding same_text
word s =
    if same_text s text_true || same_text s text_false
    then boolean (if same_text s text_true then true else false)
    else identifier s

unfoldable pub read_identifier : Lexer → Token × Lexer
unfolding get_char_if get_while lowercase to_lower word
read_identifier lx = elim (get_char_if ctype_ident_start lx) [
  | none ↦ (invalid, lx)
  | some (c, lx1) ↦
      let (cs, lx2) = get_while ctype_ident lx1.is lx1 in (word (lowercase (c ∷ cs)), lx2)
]

unfoldable pub read_symbol : Lexer → Token × Lexer
unfolding get_char_if ctype_symbol
read_symbol lx = elim (get_char_if ctype_symbol lx) [
  | none ↦ (invalid, lx)
  | some (c, lx1) ↦ (symbol (c ∷ []), lx1)
]

-- `ReadOperator` behind its first character `c`; `cc` stays 0 where nothing is left to peek at.
unfoldable pub operator_from : ℕ → Lexer → Token × Lexer
unfolding peek_char get_char_if ctype_op check_op uop2
operator_from c lx =
    let cc : ℕ = elim (peek_char lx) [ none ↦ 0 | some cc ↦ cc ] in
    if check_op c cc
    then (operator (uop2 c cc), elim (get_char_if ctype_op lx) [ none ↦ lx | some (_, lx') ↦ lx' ])
    else if check_op c 0
    then (operator (uop2 c 0), lx)
    else (invalid, lx)

unfoldable pub read_operator : Lexer → Token × Lexer
unfolding get_char_if ctype_op operator_from
read_operator lx = elim (get_char_if ctype_op lx) [
  | none ↦ (invalid, lx)
  | some (c, lx1) ↦ operator_from c lx1
]

-- `while (c != '\n') GetChar(c)`, where a `GetChar` that fails leaves `c` and the stream.
unfoldable pub comment_loop : ℕ → ℕ → Lexer → Outcome Lexer
unfolding get_char
comment_loop zero c lx = running
comment_loop (suc fuel) c lx = elim (c == b'\n') [
  | true ↦ ok lx
  | false ↦ elim (get_char lx) [
    | none ↦ comment_loop fuel c lx
    | some (c', lx') ↦ comment_loop fuel c' lx'
  ]
]

abbrev pub is_comment : Token → Lexer → Bool
is_comment (operator op) lx =
    op == uop2 b'/' 0 && elim (peek_char lx) [ none ↦ false | some cc ↦ cc == b'/' ]
is_comment token lx = false

-- `if (token.type == Token::Invalid) throw`.
unfoldable pub checked : Token × Lexer → Outcome (Token × Lexer)
checked (invalid, lx) = error lx.row lx.col
checked (token, lx) = ok (token, lx)

-- `ReadToken` where neither white space nor a comment comes next.
unfoldable pub read_visible : ℕ → Lexer → Outcome (Token × Lexer)
unfolding ctype_symbol read_number read_identifier read_symbol read_string checked
read_visible c lx =
    if ctype_digit c
    then checked (read_number lx)
    else if ctype_ident_start c
    then checked (read_identifier lx)
    else if ctype_symbol c
    then checked (read_symbol lx)
    else if c == b'"'
    then read_string lx >>= checked
    else checked (invalid, lx)

-- `ReadToken` behind the white space, where `again` is `ReadToken` for what follows a comment.
unfoldable pub read_unspaced :
    (Lexer → Outcome (Token × Lexer)) → ℕ → Lexer → Outcome (Token × Lexer)
unfolding peek_char ctype_symbol ctype_op read_operator comment_loop checked read_visible
read_unspaced again fuel lx = elim lx.token_buffer [
  | t ∷ buffered ↦ ok (t, record lx { token_buffer = buffered })
  | [] ↦ elim (peek_char lx) [
    | none ↦ ok (end_of_file, lx)
    | some c ↦
        let (token, lx') = read_operator lx in
        let skipped = comment_loop fuel c lx' >>= again in
        if ctype_digit c || ctype_ident_start c || ctype_symbol c || not (ctype_op c)
        then read_visible c lx
        else if is_comment token lx'
        then skipped
        else checked (token, lx')
  ]
]

-- `Lexer::ReadToken`.
unfoldable pub read_token : ℕ → Lexer → Outcome (Token × Lexer)
unfolding get_while read_unspaced
read_token zero lx = running
read_token (suc fuel) lx =
    read_unspaced (λ l. read_token fuel l) fuel (get_while ctype_whitespace lx.is lx).1

-- `Lexer::Lex`: the tokens up to the end of the stream.
unfoldable pub lex : ℕ → Lexer → Outcome (List Token)
unfolding read_token
lex zero lx = running
lex (suc fuel) lx = read_token (suc fuel) lx >>= λ read. elim read.0 [
  | end_of_file ↦ ok (end_of_file ∷ [])
  | token ↦ lex fuel read.1 >>= λ tokens. ok (token ∷ tokens)
]
