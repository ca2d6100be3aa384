-- ===== src/Eoplus/Lex/Ends.antt =====
-- src/eoplus/lex.cpp: the lexer comes to an end on a script whose last line is ended.
use etheos.Base.{
  ℕ, zero, suc, ◌+◌, ◌*◌, ◌≤◌, ◌<◌, ◌≡◌, ◌≢◌, ◌⊎◌, refl, sym, ap, subst, Bool, true, false, none,
  some, List, [], ◌∷◌, arith, inl, inr, Bool-cases, length, ◌==◌, not, ◌||◌, ◌&&◌,
}
use etheos.Eoplus.Lex.{
  Token, invalid, end_of_file, operator, Lexer, new_lexer, Outcome, ok, error, running, ◌>>=◌, got,
  peek_char, get_char, get_while, read_number, read_string, read_identifier, read_symbol,
  read_operator, comment_loop, is_comment, checked, read_visible, read_token, read_unspaced, lex,
  ctype_digit, ctype_ident_start, ctype_symbol, ctype_op, ctype_whitespace,
}
use etheos.Eoplus.Lex.Steps.{
  EndsLine, left, size, Advances, Advances-refl, Advances-trans, got-Advances, got_is, Consumes,
  Yields, is_plain, get_while-Advances, peek_char-some, read_number-Consumes,
  read_identifier-Consumes, read_symbol-Consumes, read_operator-Consumes, read_string-Yields,
}

checked-Yields : (P : Lexer → Type 0) (t : Token) (lx : Lexer) → P lx → Yields P (checked (t, lx))
unfolding checked
checked-Yields P invalid lx p = tt
checked-Yields P t lx p = p

then_checked :
    (P : Lexer → Type 0) (r : Outcome (Token × Lexer)) → Yields P r → Yields P (r >>= checked)
then_checked P (ok (t, lx)) p = checked-Yields P t lx p
then_checked P (error row col) p = tt
then_checked P running p = p

read_visible-Yields :
    (c : ℕ) (rest : List ℕ) (lx : Lexer)
    → lx.is ≡ c ∷ rest
    → Yields (Consumes lx) (read_visible c lx)
unfolding read_visible checked
read_visible-Yields c rest lx e =
    let P = Consumes lx in
    elim (Bool-cases (ctype_digit c)) [
      | inl d ↦ rw d (
          checked-Yields P (read_number lx).0 (read_number lx).1
            (read_number-Consumes c rest lx e d))
      | inr d ↦ elim (Bool-cases (ctype_ident_start c)) [
        | inl i ↦
            rw (d, i)
              (checked-Yields P (read_identifier lx).0 (read_identifier lx).1
                (read_identifier-Consumes c rest lx e i))
        | inr i ↦ elim (Bool-cases (ctype_symbol c)) [
          | inl s ↦
              rw (d, i, s)
                (checked-Yields P (read_symbol lx).0 (read_symbol lx).1
                  (read_symbol-Consumes c rest lx e s))
          | inr s ↦ elim (Bool-cases (c == b'"')) [
            | inl q ↦
                rw (d, i, s, q) (then_checked P (read_string lx) (read_string-Yields c rest lx e q))
            | inr q ↦ rw (d, i, s, q) tt
          ]
        ]
      ]
    ]

get_char-some :
    (d : ℕ) (rest : List ℕ) (lx : Lexer) → lx.is ≡ d ∷ rest → get_char lx ≡ some (d, got d rest lx)
unfolding get_char
get_char-some d rest lx e = ground arith

-- The loop over a comment ends where the comment's line does.
comment_loop_total :
    (fuel c : ℕ) (is : List ℕ) (lx : Lexer)
    → lx.is ≡ is
    → length is < fuel
    → EndsLine (c ∷ is)
    → (lx' : Lexer) × (comment_loop fuel c lx ≡ ok lx') × Advances lx lx'
unfolding comment_loop
comment_loop_total zero c is lx e h n = absurd (omega arith)
comment_loop_total (suc fuel) c [] lx e h n = (lx, rw n, Advances-refl lx)
comment_loop_total (suc fuel) c (d ∷ rest) lx e h n = elim (Bool-cases (c == b'\n')) [
  | inl ended ↦ (lx, rw (comment_loop, ended), Advances-refl lx)
  | inr going ↦
      let (lx', found, moved) =
        comment_loop_total fuel d rest (got d rest lx) (got_is d rest lx) (omega arith) n in
      (
        lx',
        rw (comment_loop, going, get_char-some d rest lx e) found,
        Advances-trans (got-Advances d rest lx e).0 moved,
      )
]

-- What a token costs: two for each character read, less one for a line's end that is buffered.
abbrev measure : Lexer → ℕ
measure lx = left lx + size lx

abbrev Onward : Lexer → Lexer → Type 0
Onward lx lx' = (measure lx' < measure lx) × EndsLine lx'.is

-- A token of the end, or one that has cost something.
abbrev Pays : Lexer → Outcome (Token × Lexer) → Type 0
Pays lx (ok (t, lx')) = (t ≡ end_of_file) ⊎ Onward lx lx'
Pays lx (error row col) = Unit
Pays lx running = ⊥

Pays-trans :
    (lx lx' : Lexer)
    → measure lx' ≤ measure lx
    → (r : Outcome (Token × Lexer)) → Pays lx' r
    → Pays lx r
Pays-trans lx lx' h (ok (t, l)) (inl e) = inl e
Pays-trans lx lx' h (ok (t, l)) (inr o) = inr (omega (arith, o.0), o.1)
Pays-trans lx lx' h (error row col) p = tt
Pays-trans lx lx' h running p = p

Yields-Pays :
    (lx : Lexer)
    → EndsLine lx.is
    → (r : Outcome (Token × Lexer)) → Yields (Consumes lx) r
    → Pays lx r
Yields-Pays lx n (ok (t, l)) ((adv, less)) = inr (omega (arith, adv.smaller, less), adv.ends n)
Yields-Pays lx n (error row col) p = tt
Yields-Pays lx n running p = p

-- What follows the operator that starts a comment.
right_true : (a b : Bool) → (a && b) ≡ true → b ≡ true
right_true true b h = h
right_true false b h = cc

slash_next :
    (is : List ℕ) (lx : Lexer)
    → lx.is ≡ is
    → elim (peek_char lx) [ none ↦ false | some cc ↦ cc == b'/' ] ≡ true
    → (rest : List ℕ) × (lx.is ≡ b'/' ∷ rest)
unfolding peek_char
slash_next [] lx e h = ground arith
slash_next (c ∷ rest) lx e h = (rest, ground arith)

commented :
    (token : Token) (lx : Lexer)
    → is_comment token lx ≡ true
    → (rest : List ℕ) × (lx.is ≡ b'/' ∷ rest)
commented (operator op) lx h = slash_next lx.is lx refl (right_true _ _ h)
commented token lx h = cc

-- `ReadToken` past the white space.
abbrev unspaced : Lexer → Lexer
unspaced lx = (get_while ctype_whitespace lx.is lx).1

op_of_plain : (a b d e : Bool) → (a || b || d || not e) ≡ false → e ≡ true
op_of_plain a b d e h = ground arith

module _ (fuel : ℕ) (lx : Lexer)
    (again : (l : Lexer) → left l < fuel → EndsLine l.is → Pays l (read_token fuel l))
    (short : left lx ≤ fuel) (n : EndsLine lx.is) where
  moved : Advances lx (unspaced lx)
  moved = get_while-Advances ctype_whitespace lx.is lx refl

  comment-Pays :
      (c : ℕ) (rest : List ℕ)
      → (unspaced lx).is ≡ c ∷ rest
      → ctype_op c ≡ true
      → is_comment (read_operator (unspaced lx)).0 (read_operator (unspaced lx)).1 ≡ true
      → Pays lx (comment_loop fuel c (read_operator (unspaced lx)).1 >>= λ l. read_token fuel l)
  comment-Pays c rest e op h =
      let lx1 = unspaced lx in
      let lx2 = (read_operator lx1).1 in
      let (_, (taken, less)) = read_operator-Consumes c rest lx1 e op in
      let (behind, slash) = commented (read_operator lx1).0 lx2 h in
      let ended : EndsLine (c ∷ lx2.is) =
        subst (λ is. EndsLine (c ∷ is)) (sym slash)
          (subst EndsLine slash (taken.ends (moved.ends n))) in
      let (lx3, found, on) =
        comment_loop_total fuel c lx2.is lx2 refl (omega (arith, less, moved.shorter)) ended in
      rw found (
        Pays-trans lx lx3
          (omega (arith, moved.shorter, moved.smaller, taken.smaller, less, on.smaller, on.shorter))
          _
          (again lx3 (omega (arith, moved.shorter, less, on.shorter))
            (on.ends (taken.ends (moved.ends n)))))

  at_char :
      (c : ℕ) (rest : List ℕ)
      → (unspaced lx).token_buffer ≡ []
      → (unspaced lx).is ≡ c ∷ rest
      → Pays lx (read_token (suc fuel) lx)
  unfolding read_token read_unspaced
  at_char c rest b e =
      let lx1 = unspaced lx in
      let lx2 = (read_operator lx1).1 in
      let peek = peek_char-some c rest lx1 e in
      let pay = Yields-Pays lx1 (moved.ends n) in
      let widen = Pays-trans lx lx1 (omega (arith, moved.shorter, moved.smaller)) in
      elim (Bool-cases (is_plain c)) [
        | inl plain ↦
            rw (read_token, read_unspaced, b, peek, plain)
              (widen (read_visible c lx1)
                (pay (read_visible c lx1) (read_visible-Yields c rest lx1 e)))
        | inr other ↦
            let op =
              op_of_plain (ctype_digit c) (ctype_ident_start c) (ctype_symbol c) (ctype_op c)
                other in
            elim (Bool-cases (is_comment (read_operator lx1).0 lx2)) [
              | inl comment ↦
                  rw (read_token, read_unspaced, b, peek, other, comment)
                    (comment-Pays c rest e op comment)
              | inr token ↦
                  rw (read_token, read_unspaced, b, peek, other, token)
                    (widen (checked (read_operator lx1)) (
                      pay (checked (read_operator lx1)) (
                        checked-Yields (Consumes lx1) (read_operator lx1).0 lx2
                          (read_operator-Consumes c rest lx1 e op).1)))
            ]
      ]

  unspaced-Pays :
      (ts : List Token) (is : List ℕ)
      → (unspaced lx).token_buffer ≡ ts
      → (unspaced lx).is ≡ is
      → Pays lx (read_token (suc fuel) lx)
  unfolding read_token read_unspaced peek_char
  unspaced-Pays (t ∷ ts) is b e =
      rw (read_token, read_unspaced, b)
        (inr (omega (arith, moved.shorter, moved.smaller, ap (length {0}) b), moved.ends n))
  unspaced-Pays [] [] b e = rw (read_token, read_unspaced, b, peek_char, e) (inl refl)
  unspaced-Pays [] (c ∷ rest) b e = at_char c rest b e

read_token-Pays :
    (fuel : ℕ) (lx : Lexer) → left lx < fuel → EndsLine lx.is → Pays lx (read_token fuel lx)
read_token-Pays zero lx h n = absurd (omega arith)
read_token-Pays (suc fuel) lx h n =
    unspaced-Pays fuel lx (read_token-Pays fuel) (omega arith) n (unspaced lx).token_buffer
      (unspaced lx).is refl refl

bind_ends :
    (t : Token) (r : Outcome (List Token))
    → r ≢ running
    → (r >>= λ tokens. ok (t ∷ tokens)) ≢ running
bind_ends t (ok tokens) h = λ e. cc
bind_ends t (error row col) h = λ e. cc
bind_ends t running h = absurd (h refl)

-- The loop of `Lex` behind a token.
after_token :
    (fuel : ℕ) (lx : Lexer) (t : Token) (l : Lexer)
    → (t ≡ end_of_file) ⊎ Onward lx l
    → (Onward lx l → lex fuel l ≢ running)
    → elim t [
      | end_of_file ↦ ok (end_of_file ∷ [])
      | token ↦ lex fuel l >>= λ tokens. ok (token ∷ tokens)
    ]
      ≢ running
after_token fuel lx end_of_file l p again = λ e. cc
after_token fuel lx t l (inl e) again = cc
after_token fuel lx t l (inr o) again = bind_ends t (lex fuel l) (again o)

on_read :
    (fuel : ℕ) (lx : Lexer) (r : Outcome (Token × Lexer))
    → Pays lx r
    → ((l : Lexer) → Onward lx l → lex fuel l ≢ running)
    → (r >>= λ read. elim read.0 [
      | end_of_file ↦ ok (end_of_file ∷ [])
      | token ↦ lex fuel read.1 >>= λ tokens. ok (token ∷ tokens)
    ])
      ≢ running
on_read fuel lx (ok (t, l)) p again = after_token fuel lx t l p (again l)
on_read fuel lx (error row col) p again = λ e. cc
on_read fuel lx running p again = elim p [ ]

lex_ends : (fuel : ℕ) (lx : Lexer) → measure lx < fuel → EndsLine lx.is → lex fuel lx ≢ running
unfolding lex
lex_ends zero lx h n = absurd (omega arith)
lex_ends (suc fuel) lx h n =
    on_read fuel lx (read_token (suc fuel) lx) (read_token-Pays (suc fuel) lx (omega arith) n)
      (λ l o. lex_ends fuel l (omega (arith, o.0)) o.1)

-- On a script that is empty or whose last line is ended, `Lex` comes to its end or to an error: two
-- rounds for every byte of the script and one more are enough.
pub lex_total :
    (is : List ℕ) (fuel : ℕ)
    → EndsLine is
    → 2 * length is < fuel
    → lex fuel (new_lexer is) ≢ running
unfolding new_lexer
lex_total is fuel n h = lex_ends fuel (new_lexer is) (omega arith) n
