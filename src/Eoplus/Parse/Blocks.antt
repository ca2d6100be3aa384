-- ===== src/Eoplus/Parse/Blocks.antt =====
-- src/eoplus/parse.cpp: the blocks of a quest.
use etheos.Base.{
  ℕ, zero, suc, Bool, true, false, Option, none, some, List, [], ◌∷◌, ◌++◌, ◌||◌, length, codes,
  if◌then◌else◌,
}
use etheos.Eoplus.Lex.{Token, end_of_file, identifier, symbol, same_text}
use etheos.Eoplus.Quest.{
  Action, on_if, on_else, on_else_if, Rule, Hidden, not_hidden, hidden, hidden_end, Info, new_info,
  State, new_state, Quest, find_state,
}
use etheos.Eoplus.Parse.Monad.{
  second_questname, second_version, second_hidden, second_disabled, main_entry, second_desc,
  state_entry, state_exists, after_state_name, after_state, after_main, second_main, no_main,
  block_identifier, Parser, running, pure, ◌>>=◌, ◌>>◌, token, give_back, fail, fail_got,
}
use etheos.Eoplus.Parse.Expressions.{
  parse_version, parse_quest_name, parse_desc, parse_action, parse_rule,
}

-- The state that `ParseStateBlock` reads, and its `has_desc`.
pub record Block : Type 0 where
  pub state : State
  pub has_desc : Bool

abbrev pub push_rule : Rule → Block → Block
push_rule r b = record b { state = record b.state { rules = b.state.rules ++ r ∷ [] } }

abbrev pub push_action : Action → Block → Block
push_action a b = record b { state = record b.state { actions = b.state.actions ++ a ∷ [] } }

-- The `custom_handler` of `ParseStateBlock`; `none` where it returns false.
abbrev pub read_desc : Block → Parser (Option Block)
read_desc b = if b.has_desc then fail second_desc else (do
  d ← parse_desc
  pure (some (record { state = record b.state { desc = d }; has_desc = true })))

abbrev pub read_goal : ℕ → Block → Parser (Option Block)
read_goal fuel b = do
  r ← parse_rule fuel
  let b' : Block = push_rule r b
  pure (some (record b' { state = record b'.state { goal_rule = length b.state.rules } }))

-- One entry of `ParseRuleActionBlock` that starts with a word.
unfoldable pub parse_entry : ℕ → List ℕ → Block → Parser (Option Block)
unfolding same_text parse_rule parse_action parse_desc
parse_entry fuel s b =
    if same_text s (codes "rule")
    then (do r ← parse_rule fuel; pure (some (push_rule r b)))
    else if same_text s (codes "action")
    then (do a ← parse_action fuel; pure (some (push_action a b)))
    else if same_text s (codes "if")
    then (do
      r ← parse_rule fuel
      pure (
          some (push_action (record { cond = on_if; cond_expr = r.expr; expr = r.action.expr }) b)))
    else if same_text s (codes "elseif") || same_text s (codes "elif")
    then (do
      r ← parse_rule fuel
      pure (
          some (
            push_action (record { cond = on_else_if; cond_expr = r.expr; expr = r.action.expr })
              b)))
    else if same_text s (codes "else")
    then (do a ← parse_action fuel; pure (some (push_action (record a { cond = on_else }) b)))
    else if same_text s (codes "desc")
    then read_desc b
    else if same_text s (codes "goal")
    then read_goal fuel b
    else pure none

-- Behind an entry; the token is put back where it is none, and the loop is left.
abbrev pub behind_entry : (Block → Parser Block) → List ℕ → Token → Option Block → Parser Block
behind_entry again name t (some b) = again b
behind_entry again name t none = do give_back t; fail_got (state_entry name)

abbrev pub block_symbol : (Block → Parser Block) → List ℕ → Block → List ℕ → Parser Block
block_symbol again name b s =
    if same_text s (codes "}")
    then pure b
    else if same_text s (codes ";")
    then again b
    else (do give_back (symbol s); fail_got (state_entry name))

abbrev pub block_round : ℕ → (Block → Parser Block) → List ℕ → Block → Token → Parser Block
block_round fuel again name b (identifier s) = do
  e ← parse_entry fuel s b
  behind_entry again name (identifier s) e
block_round fuel again name b (symbol s) = block_symbol again name b s
block_round fuel again name b t = fail_got (state_entry name)

-- `Parser::ParseRuleActionBlock`.
unfoldable pub parse_block : ℕ → List ℕ → Block → Parser Block
unfolding parse_entry same_text
parse_block zero name b = λ s. running
parse_block (suc fuel) name b = do
  t ← token 65
  block_round (suc fuel) (parse_block fuel name) name b t

-- The `info` of `ParseMain` and which entries it has.
pub record Main : Type 0 where
  pub info : Info
  pub has_questname : Bool
  pub has_version : Bool

abbrev pub new_main : Main
new_main = record { info = new_info; has_questname = false; has_version = false }

abbrev pub is_hidden : Hidden → Bool
is_hidden not_hidden = false
is_hidden h = true

-- One entry of `ParseMain`, `none` for another word.
unfoldable pub parse_main_entry : List ℕ → Main → Parser (Option Main)
unfolding same_text parse_quest_name parse_version
parse_main_entry s m =
    if same_text s (codes "questname")
    then if m.has_questname then fail second_questname else (do
      n ← parse_quest_name
      pure (some (record m { info = record m.info { name = n }; has_questname = true })))
    else if same_text s (codes "version")
    then if m.has_version then fail second_version else (do
      v ← parse_version
      pure (some (record m { info = record m.info { version = v }; has_version = true })))
    else if same_text s (codes "hidden")
    then if is_hidden m.info.visible
      then fail second_hidden
      else pure (some (record m { info = record m.info { visible = hidden } }))
    else if same_text s (codes "hidden_end")
    then if is_hidden m.info.visible
      then fail second_hidden
      else pure (some (record m { info = record m.info { visible = hidden_end } }))
    else if same_text s (codes "disabled")
    then if m.info.disabled
      then fail second_disabled
      else pure (some (record m { info = record m.info { disabled = true } }))
    else pure none

abbrev pub behind_main_entry : (Main → Parser Info) → Option Main → Parser Info
behind_main_entry again (some m) = again m
behind_main_entry again none = fail_got main_entry

abbrev pub main_round : (Main → Parser Info) → Main → Token → Parser Info
main_round again m (identifier s) = do e ← parse_main_entry s m; behind_main_entry again e
main_round again m (symbol s) = if same_text s (codes "}") then pure m.info else fail_got main_entry
main_round again m t = fail_got main_entry

-- `Parser::ParseMain`.
unfoldable pub parse_main : ℕ → Main → Parser Info
unfolding parse_main_entry same_text
parse_main zero m = λ s. running
parse_main (suc fuel) m = do t ← token 65; main_round (parse_main fuel) m t

abbrev pub is_open : Token → Bool
is_open (symbol s) = same_text s (codes "{")
is_open t = false

-- `Parser::ParseMainBlock`.
unfoldable pub parse_main_block : ℕ → Parser Info
unfolding parse_main same_text
parse_main_block fuel = do
  t ← token 64
  if is_open t then parse_main fuel new_main else fail_got after_main

-- Behind the name of a state, where the brace follows or not.
abbrev pub state_behind : ℕ → List ℕ → Bool → Parser (List ℕ × State)
state_behind fuel name true = do
  b ← parse_block fuel name (record { state = new_state; has_desc = false })
  pure (name, record b.state { name = name })
state_behind fuel name false = fail_got after_state_name

abbrev pub block_of : ℕ → Token → Parser (List ℕ × State)
block_of fuel (identifier name) = do t ← token 64; state_behind fuel name (is_open t)
block_of fuel t = fail_got after_state

-- `Parser::ParseStateBlock`.
unfoldable pub parse_state_block : ℕ → Parser (List ℕ × State)
unfolding parse_block same_text
parse_state_block fuel = do t ← token 1; block_of fuel t

-- `insert` into the map of the states.
abbrev pub insert_state : Quest → List ℕ × State → Parser Quest
insert_state q (name, s) = elim (find_state name q.states) [
  | some old ↦ fail (state_exists name)
  | none ↦ pure (record q { states = q.states ++ (name, s) ∷ [] })
]

-- A round of `ParseGlobal` for a word.
unfoldable pub parse_global_word : ℕ → (Quest → Parser Quest) → List ℕ → Quest → Parser Quest
unfolding same_text parse_main_block parse_state_block find_state
parse_global_word fuel again s q =
    if same_text s (codes "main")
    then if q.has_info
      then fail second_main
      else (do i ← parse_main_block fuel; again (record q { info = i; has_info = true }))
    else if same_text s (codes "state")
    then (do b ← parse_state_block fuel; q' ← insert_state q b; again q')
    else fail_got block_identifier

abbrev pub global_round : ℕ → (Quest → Parser Quest) → Quest → Token → Parser Quest
global_round fuel again q (identifier s) = parse_global_word fuel again s q
global_round fuel again q end_of_file = if q.has_info then pure q else fail no_main
global_round fuel again q t = fail_got block_identifier

-- `Parser::ParseGlobal`.
unfoldable pub parse_global : ℕ → Quest → Parser Quest
unfolding parse_global_word
parse_global zero q = λ s. running
parse_global (suc fuel) q = do t ← token 257; global_round (suc fuel) (parse_global fuel) q t
