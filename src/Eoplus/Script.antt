-- ===== src/Eoplus/Script.antt =====
-- src/eoplus.cpp, `Quest::Quest`: a script is lexed and parsed.
use etheos.Base.{ℕ, ◌+◌, ◌*◌, ◌<◌, ◌≢◌, refl, suc, List, length, arith}
use etheos.Eoplus.Lex.{Token, lex, new_lexer}
use etheos.Eoplus.Lex
use etheos.Eoplus.Lex.Steps.{EndsLine}
use etheos.Eoplus.Lex.Ends.{lex_total}
use etheos.Eoplus.Quest.{Quest, new_quest}
use etheos.Eoplus.Tokens.{new_token_server}
use etheos.Eoplus.Tokens.Lines.{ends}
use etheos.Eoplus.Parse
use etheos.Eoplus.Parse.{Message, parse_global}
use etheos.Eoplus.Parse.Ends.Blocks.{IsOnLine, parse_global_total}

-- A quest, a `Lexer_Error` or a `Parser_Error`.
pub data Script : Type 0 where
  read : Quest → Script
  lexer_error : ℕ → ℕ → Script
  parser_error : Message → ℕ → Script
  running : Script

abbrev pub parsed : Parse.Outcome Quest → Script
parsed (Parse.ok q s) = read q
parsed (Parse.error m t line) = parser_error m line
parsed Parse.running = running

abbrev pub parse_lexed : Lex.Outcome (List Token) → Script
parse_lexed (Lex.ok tokens) =
    parsed (parse_global (suc (length tokens)) new_quest (new_token_server tokens))
parse_lexed (Lex.error row col) = lexer_error row col
parse_lexed Lex.running = running

-- `Quest::Quest`: the parser has a round for each token and one more.
unfoldable pub read_script : ℕ → List ℕ → Script
unfolding lex new_lexer parse_global
read_script fuel is = parse_lexed (lex fuel (new_lexer is))

parsed_ends : (lines : ℕ) (o : Parse.Outcome Quest) → IsOnLine lines o → parsed o ≢ running
parsed_ends lines (Parse.ok q s) h = λ e. cc
parsed_ends lines (Parse.error m t line) h = λ e. cc
parsed_ends lines Parse.running h = elim h [ ]

parse_lexed_ends : (o : Lex.Outcome (List Token)) → o ≢ Lex.running → parse_lexed o ≢ running
parse_lexed_ends (Lex.ok tokens) h =
    parsed_ends (1 + ends tokens) _ (parse_global_total tokens (suc (length tokens)) (omega arith))
parse_lexed_ends (Lex.error row col) h = λ e. cc
parse_lexed_ends Lex.running h = absurd (h refl)

-- A script that is empty or whose last line is ended is read to its end: there is a quest, or an
-- error of the lexer or of the parser. For the lexer a round for every two bytes and one more are
-- enough.
pub read_script_total :
    (is : List ℕ) (fuel : ℕ) → EndsLine is → 2 * length is < fuel → read_script fuel is ≢ running
unfolding read_script
read_script_total is fuel n h = parse_lexed_ends (lex fuel (new_lexer is)) (lex_total is fuel n h)
