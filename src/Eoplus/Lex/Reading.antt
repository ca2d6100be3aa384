-- ===== src/Eoplus/Lex/Reading.antt =====
-- src/eoplus/lex.cpp: each reader in front of a lexeme that is printed.
use mathlib.Core.List.{append_assoc, append-nil}
use mathlib.Core.Path.{ap₂}
use etheos.Base.{
  ℕ, ◌+◌, ◌-◌, ◌*◌, ◌≡◌, refl, sym, ap, subst, ◌∙◌, Bool, true, false, List, [], ◌∷◌, ◌++◌, arith,
  inl, inr, Bool-cases, ◌==◌, ◌||◌, All,
}
use etheos.Eoplus.Lex.{
  Token, identifier, text, integer, Lexer, Outcome, ok, ◌>>=◌, got, get_while, add_digits,
  read_number, string_loop, read_string, to_lower, lowercase, same_text, text_true, text_false,
  word, read_identifier, read_symbol, read_visible, checked, ctype_digit, ctype_ident_start,
  ctype_ident, ctype_symbol, ctype_op, ctype_whitespace,
}
use etheos.Eoplus.Lex.Steps.{got_is, get_char_if-some, is_plain}
use etheos.Eoplus.Lex.Lexemes.{
  Lexeme, name, digits, quoted, sign, escaped, spelled, meaning, IsLexeme, Faces, got-Faces,
  get_while-Faces, add_digits-decimal,
}

loop-Faces :
    (f : ℕ → Bool) (cs : List ℕ) (d : ℕ) (rest : List ℕ) (lx : Lexer)
    → All (λ c. f c ≡ true) cs
    → ((c : ℕ) → f c ≡ true → (c == b'\n') ≡ false)
    → f d ≡ false
    → Faces lx (cs ++ d ∷ rest)
    → ((get_while f lx.is lx).0 ≡ cs) × Faces (get_while f lx.is lx).1 (d ∷ rest)
loop-Faces f cs d rest lx a inner h faces =
    subst (λ is. ((get_while f is lx).0 ≡ cs) × Faces (get_while f is lx).1 (d ∷ rest))
      (sym faces.0) (get_while-Faces f cs d rest lx a inner h faces)

-- A token with the lexer behind it.
abbrev pub Reads : Outcome (Token × Lexer) → Token → List ℕ → Type 0
Reads r t is = (lx' : Lexer) × (r ≡ ok (t, lx')) × Faces lx' is

read_number-Reads :
    (c : ℕ) (ds rest : List ℕ) (lx : Lexer)
    → IsLexeme (digits (c ∷ ds))
    → Faces lx (c ∷ ds ++ 32 ∷ rest)
    → Reads (checked (read_number lx)) (meaning (digits (c ∷ ds))) (32 ∷ rest)
unfolding read_number checked
read_number-Reads c ds rest lx ((first, others), small) faces =
    let tail = ds ++ 32 ∷ rest in
    let lx1 = got c tail lx in
    let (cs, next) =
      loop-Faces ctype_digit ds 32 rest lx1 others (λ k h. ground arith) refl
        (got-Faces c tail lx (ground arith) faces) in
    let one : c - b'0' ≡ 0 * 10 + (c - b'0') = omega arith in
    let lx2 = (get_while ctype_digit lx1.is lx1).1 in
    (
      lx2,
      rw (read_number, get_char_if-some ctype_digit c tail lx faces.0 first, cs)
          (ap (λ n. ok (integer n, lx2))
            (ap (λ n. add_digits n ds) one
              ∙ add_digits-decimal (0 * 10 + (c - b'0')) ds others small)),
      next,
    )

lowercase-same : (s : List ℕ) → All (λ d. to_lower d ≡ d) s → lowercase s ≡ s
unfolding lowercase
lowercase-same [] a = refl
lowercase-same (c ∷ s) a = ap₂ ◌∷◌ a.0 (lowercase-same s a.1)

word_plain :
    (s : List ℕ) → (same_text s text_true || same_text s text_false) ≡ false → word s ≡ identifier s
unfolding word
word_plain s h = rw (word, h)

read_identifier-Reads :
    (c : ℕ) (s rest : List ℕ) (lx : Lexer)
    → IsLexeme (name (c ∷ s))
    → Faces lx (c ∷ s ++ 32 ∷ rest)
    → Reads (checked (read_identifier lx)) (identifier (c ∷ s)) (32 ∷ rest)
unfolding read_identifier checked
read_identifier-Reads c s rest lx (first, others, low, plain) faces =
    let tail = s ++ 32 ∷ rest in
    let lx1 = got c tail lx in
    let (cs, next) =
      loop-Faces ctype_ident s 32 rest lx1 others (λ k h. ground arith) refl
        (got-Faces c tail lx (ground arith) faces) in
    let lx2 = (get_while ctype_ident lx1.is lx1).1 in
    (
      lx2,
      rw (read_identifier, get_char_if-some ctype_ident_start c tail lx faces.0 first, cs)
          (ap (λ t. checked (t, lx2))
            (ap word (lowercase-same (c ∷ s) low) ∙ word_plain (c ∷ s) plain)),
      next,
    )

or_false : (a b : Bool) → (a || b) ≡ false → (a ≡ false) × (b ≡ false)
or_false a b h = ground arith

string_loop-Reads :
    (s acc rest : List ℕ) (lx : Lexer)
    → All (λ d. (d == b'\n') ≡ false) s
    → Faces lx (escaped s ++ rest)
    → Reads (string_loop (escaped s ++ rest) false acc lx) (text (acc ++ s)) rest
unfolding string_loop
string_loop-Reads [] acc rest lx a faces = (
  got b'"' rest lx,
  ap (λ t. ok (text t, got b'"' rest lx)) (sym (append-nil acc)),
  got-Faces b'"' rest lx refl faces,
)
string_loop-Reads (c ∷ s) acc rest lx a faces = elim (Bool-cases (c == b'"' || c == b'\\')) [
  | inl special ↦
      let E = escaped s ++ rest in
      let faces1 : Faces lx (b'\\' ∷ c ∷ E) = subst (Faces lx) (rw special) faces in
      let lx1 = got b'\\' (c ∷ E) lx in
      let lx2 = got c E lx1 in
      let (lx', e, f) =
        string_loop-Reads s (acc ++ c ∷ []) rest lx2 a.1
          (got-Faces c E lx1 a.0 (got-Faces b'\\' (c ∷ E) lx refl faces1)) in
      rw special (lx', e ∙ ap (λ t. ok (text t, lx')) (append_assoc acc (c ∷ []) s), f)
  | inr usual ↦
      let E = escaped s ++ rest in
      let faces1 : Faces lx (c ∷ E) = subst (Faces lx) (rw usual) faces in
      let lx1 = got c E lx in
      let (quote, slash) = or_false (c == b'"') (c == b'\\') usual in
      let (lx', e, f) =
        string_loop-Reads s (acc ++ c ∷ []) rest lx1 a.1 (got-Faces c E lx a.0 faces1) in
      let line : (c == b'\n') ≡ false = a.0 in
      rw usual (
        lx',
        rw (string_loop, quote, slash, line)
            (e ∙ ap (λ t. ok (text t, lx')) (append_assoc acc (c ∷ []) s)),
        f,
      )
]

read_string-Reads :
    (s rest : List ℕ) (lx : Lexer)
    → All (λ d. (d == b'\n') ≡ false) s
    → Faces lx (b'"' ∷ escaped s ++ rest)
    → Reads (read_string lx >>= checked) (text s) rest
unfolding read_string checked
read_string-Reads s rest lx a faces =
    let E = escaped s ++ rest in
    let lx1 = got b'"' E lx in
    let (lx', e, f) = string_loop-Reads s [] rest lx1 a (got-Faces b'"' E lx refl faces) in
    (
      lx',
      rw (
        read_string,
        get_char_if-some (λ c. c == b'"') b'"' E lx faces.0 refl,
        got_is b'"' E lx,
        e,
      ),
      f,
    )

-- `ReadToken` in front of a lexeme and a space.
pub read_visible-Reads :
    (t : Lexeme) (rest : List ℕ) (lx : Lexer)
    → IsLexeme t
    → Faces lx (spelled t ++ 32 ∷ rest)
    → (c : ℕ) × (tail : List ℕ) × (lx.is ≡ c ∷ tail)
      × (ctype_whitespace c ≡ false)
      × (is_plain c ≡ true)
      × Reads (read_visible c lx) (meaning t) (32 ∷ rest)
unfolding read_visible checked ctype_symbol ctype_op
read_visible-Reads (name []) rest lx v faces = elim v [ ]
read_visible-Reads (name (c ∷ s)) rest lx v faces =
    let start : ctype_ident_start c ≡ true = v.0 in
    let read = read_identifier-Reads c s rest lx v faces in
    let letter : ctype_digit c ≡ false = ground arith in
    (c, s ++ 32 ∷ rest, faces.0, ground arith, rw (letter, start), rw (letter, start) read)
read_visible-Reads (digits []) rest lx v faces = elim v [ ]
read_visible-Reads (digits (c ∷ ds)) rest lx v faces =
    let digit : ctype_digit c ≡ true = v.0.0 in
    (
      c,
      ds ++ 32 ∷ rest,
      faces.0,
      ground arith,
      rw digit,
      rw digit (read_number-Reads c ds rest lx v faces),
    )
read_visible-Reads (quoted s) rest lx v faces =
    (b'"', escaped s ++ 32 ∷ rest, faces.0, refl, refl, read_string-Reads s (32 ∷ rest) lx v faces)
read_visible-Reads (sign c) rest lx v faces =
    let digit : ctype_digit c ≡ false = ground arith in
    let letter : ctype_ident_start c ≡ false = ground arith in
    let line : (c == b'\n') ≡ false = ground arith in
    let sign : ctype_symbol c ≡ true = v in
    (
      c,
      32 ∷ rest,
      faces.0,
      ground arith,
      rw (digit, letter, sign),
      rw (digit, letter, sign)
          (
            got c (32 ∷ rest) lx,
            rw (read_symbol, get_char_if-some ctype_symbol c (32 ∷ rest) lx faces.0 v),
            got-Faces c (32 ∷ rest) lx line faces,
          ),
    )
