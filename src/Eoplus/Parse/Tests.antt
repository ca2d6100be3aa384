-- ===== src/Eoplus/Parse/Tests.antt =====
-- The parser on a small quest, from its text on.
use etheos.Base.{ℕ, ◌+◌, ◌≡◌, refl, true, false, List, [], ◌∷◌, codes, arith, inl}
use etheos.Eoplus.Lex
use etheos.Eoplus.Lex.{Token, identifier, symbol, new_line, end_of_file, new_lexer, lex}
use etheos.Eoplus.Quest.{
  Quest, new_quest, Expression, empty_expression, int, string, on_npc, always, on_if, on_else,
  hidden_end, find_state,
}
use etheos.Eoplus.Tokens.{TokenServer, new_token_server}
use etheos.Eoplus.Tokens.Lines.{ends}
use etheos.Eoplus.Parse.{ok, parse_global, parse_expression, after_function}
use etheos.Eoplus.Parse.Ends.Blocks.{IsOnLine, parse_global_total}
use etheos.Eoplus.Parse.Printing.{printed_quest, IsQuest}
use etheos.Eoplus.Parse.Reading.Quests.{parse_global-printed_quest}
use etheos.Eoplus.Parse.Scoped.{Throws, parse_expression-Throws}

abbrev call : List ℕ → Expression
call name = record { scopes = []; function = name; args = int 1 ∷ string (codes "a") ∷ [] }

-- A hidden quest with one state.
abbrev quest : Quest
quest = record {
  has_info = true;
  info = record { name = codes "Q"; version = 65541; visible = hidden_end; disabled = false };
  states =
      (
        codes "begin",
        record {
          name = codes "begin";
          desc = codes "d";
          rules =
              record {
                expr = call (codes "g");
                action = record {
                  cond = always;
                  cond_expr = empty_expression;
                  expr = call (codes "f");
                };
              }
              ∷ record {
                expr = record { scopes = on_npc ∷ []; function = codes "h"; args = [] };
                action = record {
                  cond = always;
                  cond_expr = empty_expression;
                  expr = call (codes "f");
                };
              }
              ∷ [];
          actions =
              record { cond = on_if; cond_expr = call (codes "g"); expr = call (codes "f") }
              ∷ record { cond = on_else; cond_expr = empty_expression; expr = call (codes "f") }
              ∷ [];
          goal_rule = 1;
        },
      )
      ∷ [];
}

quest-IsQuest : IsQuest quest
unfolding find_state Lex.same_text
quest-IsQuest = (
  refl,
  omega arith,
  (
    refl,
    refl,
    (
      (
        ((refl, (tt, (tt, tt))), (refl, (tt, (tt, tt))), refl, refl),
        (((refl, tt), (refl, (tt, (tt, tt))), refl, refl), tt),
      ),
      (((refl, (tt, (tt, tt))), (refl, (tt, (tt, tt)))), (((refl, (tt, (tt, tt))), refl), tt)),
      inl (omega arith),
    ),
    tt,
  ),
)

parse_global-printed_quest_example :
    (s : TokenServer) × (parse_global 200 new_quest
        (new_token_server (new_line ∷ printed_quest quest))
      ≡ ok quest s)
parse_global-printed_quest_example =
    parse_global-printed_quest quest (new_line ∷ printed_quest quest) 200 quest-IsQuest refl
      (omega arith)

abbrev unclosed : List Token
unclosed = identifier (codes "main") ∷ new_line ∷ symbol (codes "{") ∷ new_line ∷ end_of_file ∷ []

parse_global_total_example :
    IsOnLine (1 + ends unclosed) (parse_global 6 new_quest (new_token_server unclosed))
parse_global_total_example = parse_global_total unclosed 6 (omega arith)

abbrev scoped : List Token
scoped = identifier (codes "npc") ∷ symbol (codes ".") ∷ identifier (codes "f") ∷ []

not_goto : Lex.same_text (codes "npc") (codes "goto") ≡ false
unfolding Lex.same_text
not_goto = refl

parse_expression-Throws_example :
    Throws after_function (parse_expression 5 (new_token_server scoped))
parse_expression-Throws_example =
    parse_expression-Throws 4 (codes "npc") (identifier (codes "f") ∷ []) (new_token_server scoped)
      not_goto refl
