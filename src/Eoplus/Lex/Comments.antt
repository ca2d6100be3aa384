-- ===== src/Eoplus/Lex/Comments.antt =====
-- src/eoplus/lex.cpp: a comment on a last line that is not ended.
use etheos.Base.{ℕ, zero, suc, ◌≡◌, ◌∙◌, refl, false, List, [], ◌∷◌, arith, ◌==◌, All}
use etheos.Eoplus.Lex.{
  operator, Lexer, running, got, get_char, get_while, comment_loop, read_operator, operator_from,
  read_token, ctype_whitespace, ctype_op, ctype_symbol, check_op, uop2,
}
use etheos.Eoplus.Lex.Steps.{got_is, get_while_refused, get_char_if-some, read_unspaced_at}

-- No line ends in these bytes.
abbrev pub IsOneLine : List ℕ → Type 0
IsOneLine = All (λ c. (c == b'\n') ≡ false)

comment_loop_endless :
    (fuel c : ℕ) (rest : List ℕ) (lx : Lexer)
    → lx.is ≡ rest
    → (c == b'\n') ≡ false
    → IsOneLine rest
    → comment_loop fuel c lx ≡ running
unfolding comment_loop get_char
comment_loop_endless zero c rest lx e h n = refl
comment_loop_endless (suc fuel) c [] lx e h n =
    rw (comment_loop, h, get_char, e) (comment_loop_endless fuel c [] lx e h tt)
comment_loop_endless (suc fuel) c (d ∷ rest) lx e h n =
    rw (comment_loop, h, get_char, e)
      (comment_loop_endless fuel d rest (got d rest lx) (got_is d rest lx) n.0 n.1)

slash_alone :
    (rest : List ℕ) (lx : Lexer)
    → lx.is ≡ b'/' ∷ rest
    → operator_from b'/' lx ≡ (operator (uop2 b'/' 0), lx)
unfolding operator_from check_op
slash_alone rest lx e = ground arith

-- `ReadOperator` in front of two slashes gets the first.
two_slashes :
    (rest : List ℕ) (lx : Lexer)
    → lx.is ≡ b'/' ∷ b'/' ∷ rest
    → read_operator lx ≡ (operator (uop2 b'/' 0), got b'/' (b'/' ∷ rest) lx)
unfolding read_operator ctype_op
two_slashes rest lx e =
    rw (read_operator, get_char_if-some ctype_op b'/' (b'/' ∷ rest) lx e refl)
      (slash_alone rest (got b'/' (b'/' ∷ rest) lx) (got_is b'/' (b'/' ∷ rest) lx))

-- In front of a comment that no line's end follows, with no token buffered, `ReadToken` never comes
-- to an end: its loop goes on at the end of the stream.
pub read_token_endless :
    (fuel : ℕ) (rest : List ℕ) (lx : Lexer)
    → lx.token_buffer ≡ []
    → lx.is ≡ b'/' ∷ b'/' ∷ rest
    → IsOneLine rest
    → read_token fuel lx ≡ running
unfolding read_token uop2 ctype_op ctype_symbol
read_token_endless zero rest lx b e n = refl
read_token_endless (suc fuel) rest lx b e n =
    let lx2 = got b'/' (b'/' ∷ rest) lx in
    let behind : lx2.is ≡ b'/' ∷ rest = got_is b'/' (b'/' ∷ rest) lx in
    let start : get_while ctype_whitespace lx.is lx ≡ ([], lx) =
      get_while_refused ctype_whitespace b'/' (b'/' ∷ rest) lx e refl in
    rw (read_token, start)
      (read_unspaced_at (λ l. read_token fuel l) fuel b'/' (b'/' ∷ rest) lx e b
        ∙ rw (two_slashes rest lx e) (
            rw behind
              (rw (comment_loop_endless fuel b'/' (b'/' ∷ rest) lx2 behind refl (refl, n)))))
