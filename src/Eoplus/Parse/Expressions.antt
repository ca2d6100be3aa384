-- ===== src/Eoplus/Parse/Expressions.antt =====
-- src/eoplus/parse.cpp: versions, expressions, actions and rules.
use Prim.Native.Nat.{bit_or}
use etheos.Base.{
  ℕ, zero, suc, ◌*◌, ◌%◌, ◌^◌, Bool, false, Option, none, some, List, [], ◌∷◌, ◌==◌, codes,
  if◌then◌else◌,
}
use etheos.Eoplus.Lex.{Token, invalid, identifier, text, symbol, integer, operator, same_text, uop2}
use etheos.Eoplus.Quest.{
  Variant, string, data_of, Scope, on_character, on_npc, on_map, on_world, Expression,
  empty_expression, Action, always, Rule,
}
use etheos.Eoplus.Parse.Monad.{
  Message, after_version_dot, after_version, after_scope, after_goto, after_argument,
  before_argument, after_function, after_questname, after_desc, Parser, running, pure, ◌>>=◌, ◌>>◌,
  token, token_if, give_back, fail_got,
}

abbrev pub is_dot : Token → Bool
is_dot (symbol s) = same_text s (codes ".")
is_dot t = false

abbrev pub is_operator : ℕ → Token → Bool
is_operator op (operator o) = o == op
is_operator op t = false

abbrev pub left_parens : ℕ
left_parens = uop2 b'(' 0

abbrev pub right_parens : ℕ
right_parens = uop2 b')' 0

-- The number behind the point of a version.
abbrev pub minor_version : ℕ → Token → Parser ℕ
minor_version version (integer n) = pure (bit_or (n % 2 ^ 16) version)
minor_version version t = fail_got after_version_dot

abbrev pub behind_version : ℕ → Token → Parser ℕ
behind_version version invalid = pure version
behind_version version t = do n ← token 4; minor_version version n

abbrev pub major_version : Token → Parser ℕ
major_version (integer n) = do dot ← token_if is_dot 64; behind_version ((n % 2 ^ 16) * 2 ^ 16) dot
major_version t = fail_got after_version

-- `Parser::ParseVersion`.
unfoldable pub parse_version : Parser ℕ
unfolding same_text
parse_version = do n ← token 4; major_version n

-- `scope_id_map`.
unfoldable pub scope_of : List ℕ → Option Scope
unfolding same_text
scope_of s =
    if same_text s (codes "character")
    then some on_character
    else if same_text s (codes "npc")
    then some on_npc
    else if same_text s (codes "map")
    then some on_map
    else if same_text s (codes "world")
    then some on_world
    else none

-- Behind a scope, where `again` is the next round of the loop.
abbrev pub behind_scope : Parser (List Scope) → Scope → Token → Parser (List Scope)
behind_scope again s invalid = fail_got after_scope
behind_scope again s t = do scopes ← again; pure (s ∷ scopes)

abbrev pub scope_or_back : Parser (List Scope) → Token → Option Scope → Parser (List Scope)
scope_or_back again t none = do give_back t; pure []
scope_or_back again t (some s) = do dot ← token_if is_dot 64; behind_scope again s dot

abbrev pub scope_round : Parser (List Scope) → Token → Parser (List Scope)
scope_round again (identifier s) = scope_or_back again (identifier s) (scope_of s)
scope_round again t = pure []

-- `Parser::ParseScopes`.
unfoldable pub parse_scopes : ℕ → Parser (List Scope)
unfolding scope_of same_text
parse_scopes zero = λ s. running
parse_scopes (suc fuel) = do t ← token 1; scope_round (parse_scopes fuel) t

-- What may stand behind an argument.
abbrev pub is_argument_end : Token → Bool
is_argument_end (symbol s) = same_text s (codes ",")
is_argument_end (operator o) = o == right_parens
is_argument_end t = false

-- Behind an argument; the `int` of the text "," is 0, which is not `UOP1(')')`.
abbrev pub behind_argument : Parser (List Variant) → Token → Parser (List Variant)
behind_argument again invalid = fail_got after_argument
behind_argument again (operator o) = if o == right_parens then pure [] else again
behind_argument again t = again

abbrev pub argument_round : Parser (List Variant) → Token → Parser (List Variant)
argument_round again invalid = fail_got before_argument
argument_round again t = do
  e ← token_if is_argument_end 96
  args ← behind_argument again e
  pure (data_of t ∷ args)

-- The loop over the arguments.
unfoldable pub parse_args : ℕ → Parser (List Variant)
unfolding same_text uop2
parse_args zero = λ s. running
parse_args (suc fuel) = do t ← token 14; argument_round (parse_args fuel) t

-- Behind the left parenthesis, where `t` is valid if the right one follows at once.
abbrev pub args_or_none : ℕ → Token → Parser (List Variant)
args_or_none fuel invalid = parse_args fuel
args_or_none fuel t = pure []

-- Behind the name of the function and its scopes.
abbrev pub behind_function : ℕ → List Scope → List ℕ → Token → Parser Expression
behind_function fuel scopes name invalid = fail_got after_function
behind_function fuel scopes name t = do
  closed ← token_if (is_operator right_parens) 32
  args ← args_or_none fuel closed
  pure (record { scopes = scopes; function = name; args = args })

abbrev pub parse_call : ℕ → List ℕ → Parser Expression
parse_call fuel name = do
  scopes ← parse_scopes fuel
  t ← token_if (is_operator left_parens) 32
  behind_function fuel scopes name t

-- Behind `goto`.
abbrev pub goto_state : Token → Parser Expression
goto_state (identifier s) =
    pure (record { scopes = []; function = codes "setstate"; args = string s ∷ [] })
goto_state t = fail_got after_goto

abbrev pub expression_from : ℕ → Token → Parser Expression
expression_from fuel (identifier s) =
    if same_text s (codes "goto") then (do t ← token 1; goto_state t) else parse_call fuel s
expression_from fuel t = pure empty_expression

-- `Parser::ParseExpression`.
unfoldable pub parse_expression : ℕ → Parser Expression
unfolding parse_scopes parse_args same_text uop2
parse_expression fuel = do t ← token 1; expression_from fuel t

abbrev pub text_or : Message → Token → Parser (List ℕ)
text_or m (text s) = pure s
text_or m t = fail_got m

-- `Parser::ParseQuestName` and `Parser::ParseDesc`.
unfoldable pub parse_quest_name : Parser (List ℕ)
parse_quest_name = do t ← token 2; text_or after_questname t

unfoldable pub parse_desc : Parser (List ℕ)
parse_desc = do t ← token 2; text_or after_desc t

-- `Parser::ParseAction`.
unfoldable pub parse_action : ℕ → Parser Action
unfolding parse_expression
parse_action fuel = do
  e ← parse_expression fuel
  pure (record { cond = always; cond_expr = empty_expression; expr = e })

-- `Parser::ParseRule`.
unfoldable pub parse_rule : ℕ → Parser Rule
unfolding parse_expression parse_action
parse_rule fuel = do
  e ← parse_expression fuel
  a ← parse_action fuel
  pure (record { expr = e; action = a })
