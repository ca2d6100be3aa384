-- ===== src/Eoplus/Lex/Steps.antt =====
-- src/eoplus/lex.cpp: how far each reader moves on in the stream.
use etheos.Base.{
  ℕ, suc, ◌+◌, ◌≤◌, ◌<◌, ◌≡◌, refl, sym, ap, subst, ◌∙◌, Bool, true, false, none, some, List, [],
  ◌∷◌, ◌++◌, arith, length, length-append, ◌==◌, not, ◌&&◌, ◌||◌, inl, inr, Bool-cases,
  if◌then◌else◌,
}
use etheos.Eoplus.Lex.{
  Token, new_line, ◌>>=◌, read_unspaced, read_visible, is_comment, comment_loop, checked, Lexer,
  Outcome, ok, error, running, got, peek_char, get_char_if, get_while, read_number, string_loop,
  read_string, read_identifier, read_symbol, operator_from, read_operator, ctype_digit,
  ctype_ident_start, ctype_ident, ctype_symbol, ctype_op, check_op,
}

-- The stream is empty or its last line is ended.
abbrev pub EndsLine : List ℕ → Type 0
EndsLine [] = Unit
EndsLine (c ∷ []) = c ≡ b'\n'
EndsLine (c ∷ d ∷ rest) = EndsLine (d ∷ rest)

pub EndsLine-tail : (c : ℕ) (rest : List ℕ) → EndsLine (c ∷ rest) → EndsLine rest
EndsLine-tail c [] h = tt
EndsLine-tail c (d ∷ rest) h = h

-- What is left of the stream, and with the tokens buffered for it.
abbrev pub left : Lexer → ℕ
left lx = length lx.is

abbrev pub size : Lexer → ℕ
size lx = length lx.is + length lx.token_buffer

-- Every character read leaves the buffer with one token more at most.
pub record Advances (lx lx' : Lexer) : Type 0 where
  pub shorter : left lx' ≤ left lx
  pub smaller : size lx' ≤ size lx
  pub ends : EndsLine lx.is → EndsLine lx'.is

pub Advances-refl : (lx : Lexer) → Advances lx lx
Advances-refl lx = record { shorter = omega arith; smaller = omega arith; ends = λ h. h }

pub Advances-trans : {lx lx' lx'' : Lexer} → Advances lx lx' → Advances lx' lx'' → Advances lx lx''
Advances-trans a b = record {
  shorter = omega arith;
  smaller = omega arith;
  ends = λ h. b.ends (a.ends h);
}

pub got_is : (c : ℕ) (rest : List ℕ) (lx : Lexer) → (got c rest lx).is ≡ rest
unfolding got
got_is c rest lx = ground arith

pub got_buffer :
    (c : ℕ) (rest : List ℕ) (lx : Lexer)
    → length (got c rest lx).token_buffer ≤ length lx.token_buffer + 1
unfolding got
got_buffer c rest lx = ground (arith, length-append lx.token_buffer (new_line ∷ []))

-- One character on, with what follows from there.
pub got-Advances :
    (c : ℕ) (rest : List ℕ) (lx : Lexer)
    → lx.is ≡ c ∷ rest
    → Advances lx (got c rest lx) × (left (got c rest lx) < left lx)
got-Advances c rest lx e =
    let long : left lx ≡ suc (length rest) = ap length e in
    let is : left (got c rest lx) ≡ length rest = ap length (got_is c rest lx) in
    (
      record {
        shorter = omega (arith, long, is);
        smaller = omega (arith, long, is, got_buffer c rest lx);
        ends = λ h.
            subst EndsLine (sym (got_is c rest lx)) (EndsLine-tail c rest (subst EndsLine e h));
      },
      omega (arith, long, is),
    )

pub get_while-Advances :
    (f : ℕ → Bool) (rest : List ℕ) (lx : Lexer) → lx.is ≡ rest → Advances lx (get_while f rest lx).1
unfolding get_while
get_while-Advances f [] lx e = Advances-refl lx
get_while-Advances f (c ∷ rest) lx e = elim (Bool-cases (f c)) [
  | inl good ↦ rw good (
      Advances-trans (got-Advances c rest lx e).0
        (get_while-Advances f rest (got c rest lx) (got_is c rest lx)))
  | inr bad ↦ rw bad (Advances-refl lx)
]

get_while_first :
    (f : ℕ → Bool) (c : ℕ) (rest : List ℕ) (lx : Lexer)
    → f c ≡ false
    → get_while f (c ∷ rest) lx ≡ ([], lx)
unfolding get_while
get_while_first f c rest lx bad = rw (get_while, bad)

-- No round where the first character is refused.
pub get_while_refused :
    (f : ℕ → Bool) (c : ℕ) (rest : List ℕ) (lx : Lexer)
    → lx.is ≡ c ∷ rest
    → f c ≡ false
    → get_while f lx.is lx ≡ ([], lx)
get_while_refused f c rest lx e bad =
    ap (λ is. get_while f is lx) e ∙ get_while_first f c rest lx bad

pub get_char_if-some :
    (f : ℕ → Bool) (c : ℕ) (rest : List ℕ) (lx : Lexer)
    → lx.is ≡ c ∷ rest
    → f c ≡ true
    → get_char_if f lx ≡ some (c, got c rest lx)
unfolding get_char_if
get_char_if-some f c rest lx e good = ground arith

get_char_if_refused :
    (f : ℕ → Bool) (c : ℕ) (rest : List ℕ) (lx : Lexer)
    → lx.is ≡ c ∷ rest
    → f c ≡ false
    → get_char_if f lx ≡ none
unfolding get_char_if
get_char_if_refused f c rest lx e bad = ground arith

get_char_if-none : (f : ℕ → Bool) (lx : Lexer) → lx.is ≡ [] → get_char_if f lx ≡ none
unfolding get_char_if
get_char_if-none f lx e = ground arith

pub peek_char-some : (c : ℕ) (rest : List ℕ) (lx : Lexer) → lx.is ≡ c ∷ rest → peek_char lx ≡ some c
unfolding peek_char
peek_char-some c rest lx e = ground arith

-- A reader that takes a character at least.
abbrev pub Consumes : Lexer → Lexer → Type 0
Consumes lx lx' = Advances lx lx' × (left lx' < left lx)

then_Consumes : {lx lx' lx'' : Lexer} → Consumes lx lx' → Advances lx' lx'' → Consumes lx lx''
then_Consumes a b = (Advances-trans a.0 b, omega (arith, a.1))

module _ (c : ℕ) (rest : List ℕ) (lx : Lexer) (e : lx.is ≡ c ∷ rest) where
  pub read_number-Consumes : ctype_digit c ≡ true → Consumes lx (read_number lx).1
  unfolding read_number
  read_number-Consumes h =
      rw (read_number, get_char_if-some ctype_digit c rest lx e h)
        (then_Consumes (got-Advances c rest lx e)
          (get_while-Advances ctype_digit (got c rest lx).is (got c rest lx) refl))

  pub read_identifier-Consumes : ctype_ident_start c ≡ true → Consumes lx (read_identifier lx).1
  unfolding read_identifier
  read_identifier-Consumes h =
      rw (read_identifier, get_char_if-some ctype_ident_start c rest lx e h)
        (then_Consumes (got-Advances c rest lx e)
          (get_while-Advances ctype_ident (got c rest lx).is (got c rest lx) refl))

  pub read_symbol-Consumes : ctype_symbol c ≡ true → Consumes lx (read_symbol lx).1
  unfolding read_symbol
  read_symbol-Consumes h =
      rw (read_symbol, get_char_if-some ctype_symbol c rest lx e h) (got-Advances c rest lx e)

get_char_if-Advances :
    (f : ℕ → Bool) (lx : Lexer) (is : List ℕ)
    → lx.is ≡ is
    → Advances lx (elim (get_char_if f lx) [ none ↦ lx | some (_, lx') ↦ lx' ])
get_char_if-Advances f lx [] e = rw (get_char_if-none f lx e) (Advances-refl lx)
get_char_if-Advances f lx (c ∷ rest) e = elim (Bool-cases (f c)) [
  | inl good ↦ rw (get_char_if-some f c rest lx e good) (got-Advances c rest lx e).0
  | inr bad ↦ rw (get_char_if_refused f c rest lx e bad) (Advances-refl lx)
]

operator_from-Advances : (c : ℕ) (lx : Lexer) → Advances lx (operator_from c lx).1
unfolding operator_from
operator_from-Advances c lx =
    let cc : ℕ = elim (peek_char lx) [ none ↦ 0 | some cc ↦ cc ] in
    elim (Bool-cases (check_op c cc)) [
      | inl pair ↦ rw (operator_from, pair) (get_char_if-Advances ctype_op lx lx.is refl)
      | inr single ↦ elim (Bool-cases (check_op c 0)) [
        | inl alone ↦ rw (operator_from, single, alone) (Advances-refl lx)
        | inr neither ↦ rw (operator_from, single, neither) (Advances-refl lx)
      ]
    ]

pub read_operator-Consumes :
    (c : ℕ) (rest : List ℕ) (lx : Lexer)
    → lx.is ≡ c ∷ rest
    → ctype_op c ≡ true
    → (read_operator lx ≡ operator_from c (got c rest lx)) × Consumes lx (read_operator lx).1
unfolding read_operator
read_operator-Consumes c rest lx e h =
    let same : read_operator lx ≡ operator_from c (got c rest lx) =
      rw (read_operator, get_char_if-some ctype_op c rest lx e h) in
    (
      same,
      rw same (then_Consumes (got-Advances c rest lx e) (operator_from-Advances c (got c rest lx))),
    )

-- A result that is behind a lexer, or an error.
abbrev pub Yields : (Lexer → Type 0) → Outcome (Token × Lexer) → Type 0
Yields P (ok (t, lx)) = P lx
Yields P (error row col) = Unit
Yields P running = ⊥

pub Yields-map :
    (P Q : Lexer → Type 0)
    → ((lx : Lexer) → P lx → Q lx)
    → (r : Outcome (Token × Lexer)) → Yields P r
    → Yields Q r
Yields-map P Q f (ok (t, lx)) p = f lx p
Yields-map P Q f (error row col) p = tt
Yields-map P Q f running p = elim p [ ]

string_loop-Yields :
    (rest : List ℕ) (escape : Bool) (s : List ℕ) (lx : Lexer)
    → lx.is ≡ rest
    → Yields (Advances lx) (string_loop rest escape s lx)
unfolding string_loop
string_loop-Yields [] escape s lx e = Advances-refl lx
string_loop-Yields (c ∷ rest) escape s lx e =
    let escaping = not escape && c == b'\\' in
    let s' : List ℕ = if escaping then s else s ++ c ∷ [] in
    let lx' = got c rest lx in
    let step = (got-Advances c rest lx e).0 in
    elim (Bool-cases (not escape && c == b'"')) [
      | inl closed ↦ rw (string_loop, closed) step
      | inr going ↦ elim (Bool-cases (not escape && c == b'\n')) [
        | inl cut ↦ rw (string_loop, going, cut) tt
        | inr more ↦
            rw (string_loop, going, more)
              (Yields-map (Advances lx') (Advances lx) (λ l a. Advances-trans step a)
                (string_loop rest escaping s' lx')
                (string_loop-Yields rest escaping s' lx' (got_is c rest lx)))
      ]
    ]

pub read_string-Yields :
    (c : ℕ) (rest : List ℕ) (lx : Lexer)
    → lx.is ≡ c ∷ rest
    → (c == b'"') ≡ true
    → Yields (Consumes lx) (read_string lx)
unfolding read_string
read_string-Yields c rest lx e h =
    let lx1 = got c rest lx in
    rw (read_string, get_char_if-some (λ c. c == b'"') c rest lx e h)
      (Yields-map (Advances lx1) (Consumes lx) (λ l a. then_Consumes (got-Advances c rest lx e) a)
        (string_loop lx1.is false [] lx1) (string_loop-Yields lx1.is false [] lx1 refl))

-- The characters that do not start an operator or comment.
abbrev pub is_plain : ℕ → Bool
is_plain c = ctype_digit c || ctype_ident_start c || ctype_symbol c || not (ctype_op c)

-- `ReadToken` in front of a character that is not white space, with no token buffered.
pub read_unspaced_at :
    (again : Lexer → Outcome (Token × Lexer)) (fuel c : ℕ) (rest : List ℕ) (lx : Lexer)
    → lx.is ≡ c ∷ rest
    → lx.token_buffer ≡ []
    → read_unspaced again fuel lx ≡ (
        if is_plain c
        then read_visible c lx
        else if is_comment (read_operator lx).0 (read_operator lx).1
        then comment_loop fuel c (read_operator lx).1 >>= again
        else checked (read_operator lx))
unfolding read_unspaced peek_char
read_unspaced_at again fuel c rest lx e b = cc
