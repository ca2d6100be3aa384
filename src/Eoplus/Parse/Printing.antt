-- ===== src/Eoplus/Parse/Printing.antt =====
-- src/eoplus/parse.cpp: a quest written as tokens.
use etheos.Base.{
  ℕ, suc, ◌/◌, ◌%◌, ◌^◌, ◌<◌, ◌≡◌, ◌⊎◌, Bool, true, false, none, List, [], ◌∷◌, ◌++◌, ◌==◌, length,
  codes, All, if◌then◌else◌,
}
use etheos.Eoplus.Lex.{
  Token, identifier, text, symbol, integer, operator, boolean, end_of_file, same_text,
}
use etheos.Eoplus.Quest.{
  Variant, int, string, bool, Scope, on_character, on_npc, on_map, on_world, Expression,
  empty_expression, Conditional, always, on_if, on_else, on_else_if, Action, Rule, Hidden,
  not_hidden, hidden, hidden_end, Info, State, Quest, find_state,
}
use etheos.Eoplus.Parse.{left_parens, right_parens}

abbrev pub scope_name : Scope → List ℕ
scope_name on_character = codes "character"
scope_name on_npc = codes "npc"
scope_name on_map = codes "map"
scope_name on_world = codes "world"

-- The scopes stand behind the name of the function, which is where `ParseExpression` reads them.
abbrev pub printed_scopes : List Scope → List Token → List Token
printed_scopes [] rest = rest
printed_scopes (s ∷ ss) rest =
    identifier (scope_name s) ∷ symbol (codes ".") ∷ printed_scopes ss rest

abbrev pub value : Variant → Token
value (int n) = integer n
value (string s) = text s
value (bool b) = boolean b

abbrev pub printed_more : List Variant → List Token → List Token
printed_more [] rest = operator right_parens ∷ rest
printed_more (v ∷ vs) rest = symbol (codes ",") ∷ value v ∷ printed_more vs rest

abbrev pub printed_args : List Variant → List Token → List Token
printed_args [] rest = operator right_parens ∷ rest
printed_args (v ∷ vs) rest = value v ∷ printed_more vs rest

abbrev pub printed_expression : Expression → List Token → List Token
printed_expression e rest =
    identifier e.function
    ∷ printed_scopes e.scopes (operator left_parens ∷ printed_args e.args rest)

abbrev pub printed_rule : List ℕ → Rule → List Token → List Token
printed_rule keyword r rest =
    identifier keyword ∷ printed_expression r.expr (printed_expression r.action.expr rest)

-- The rules from the place `i` on; the goal is the one at `goal`.
abbrev pub printed_rules : ℕ → ℕ → List Rule → List Token → List Token
printed_rules goal i [] rest = rest
printed_rules goal i (r ∷ rs) rest =
    printed_rule (if i == goal then codes "goal" else codes "rule") r
      (printed_rules goal (suc i) rs rest)

abbrev pub printed_action : Conditional → Action → List Token → List Token
printed_action always a rest = identifier (codes "action") ∷ printed_expression a.expr rest
printed_action on_else a rest = identifier (codes "else") ∷ printed_expression a.expr rest
printed_action on_if a rest =
    identifier (codes "if") ∷ printed_expression a.cond_expr (printed_expression a.expr rest)
printed_action on_else_if a rest =
    identifier (codes "elseif") ∷ printed_expression a.cond_expr (printed_expression a.expr rest)

abbrev pub printed_actions : List Action → List Token → List Token
printed_actions [] rest = rest
printed_actions (a ∷ more) rest = printed_action a.cond a (printed_actions more rest)

abbrev pub printed_state : State → List Token → List Token
printed_state s rest =
    identifier (codes "state")
    ∷ identifier s.name
    ∷ symbol (codes "{")
    ∷ identifier (codes "desc")
    ∷ text s.desc
    ∷ printed_rules s.goal_rule 0 s.rules (printed_actions s.actions (symbol (codes "}") ∷ rest))

abbrev pub printed_hidden : Hidden → List Token → List Token
printed_hidden not_hidden rest = rest
printed_hidden hidden rest = identifier (codes "hidden") ∷ rest
printed_hidden hidden_end rest = identifier (codes "hidden_end") ∷ rest

abbrev pub printed_disabled : Bool → List Token → List Token
printed_disabled true rest = identifier (codes "disabled") ∷ rest
printed_disabled false rest = rest

abbrev pub printed_main : Info → List Token → List Token
printed_main i rest =
    identifier (codes "main")
    ∷ symbol (codes "{")
    ∷ identifier (codes "questname")
    ∷ text i.name
    ∷ identifier (codes "version")
    ∷ integer (i.version / 2 ^ 16)
    ∷ symbol (codes ".")
    ∷ integer (i.version % 2 ^ 16)
    ∷ printed_hidden i.visible (printed_disabled i.disabled (symbol (codes "}") ∷ rest))

abbrev pub printed_states : List (List ℕ × State) → List Token
printed_states [] = end_of_file ∷ []
printed_states ((name, s) ∷ states) = printed_state s (printed_states states)

abbrev pub printed_quest : Quest → List Token
printed_quest q = printed_main q.info (printed_states q.states)

-- An argument is a number or a text.
abbrev pub IsArgument : Variant → Type 0
IsArgument (bool b) = ⊥
IsArgument v = Unit

-- A call of a function that is not `goto`.
abbrev pub IsCall : Expression → Type 0
IsCall e = (same_text e.function (codes "goto") ≡ false) × All IsArgument e.args

-- Only `if` and `elseif` have a condition.
abbrev pub HasCondition : Conditional → Expression → Type 0
HasCondition on_if e = IsCall e
HasCondition on_else_if e = IsCall e
HasCondition c e = e ≡ empty_expression

abbrev pub IsAction : Action → Type 0
IsAction a = IsCall a.expr × HasCondition a.cond a.cond_expr

abbrev pub IsRule : Rule → Type 0
IsRule r =
    IsCall r.expr
    × IsCall r.action.expr
    × (r.action.cond ≡ always)
    × (r.action.cond_expr ≡ empty_expression)

-- The goal is one of the rules, or 0 where there are none.
abbrev pub IsState : State → Type 0
IsState s =
    All IsRule s.rules
    × All IsAction s.actions
    × ((s.goal_rule < length s.rules) ⊎ ((s.rules ≡ []) × (s.goal_rule ≡ 0)))

-- Each state stands under its name, and no name twice; `before` are those in front.
abbrev pub AreStates : List (List ℕ × State) → List (List ℕ × State) → Type 0
AreStates before [] = Unit
AreStates before ((name, s) ∷ states) =
    (find_state name before ≡ none)
    × (s.name ≡ name)
    × IsState s
    × AreStates (before ++ (name, s) ∷ []) states

abbrev pub IsQuest : Quest → Type 0
IsQuest q = (q.has_info ≡ true) × (q.info.version < 2 ^ 32) × AreStates [] q.states
