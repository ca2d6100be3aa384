-- ===== src/Eoplus/Quest.antt =====
-- src/eoplus.hpp: what a quest script means. The type and the value of a `util::variant` are one.
use etheos.Base.{ℕ, Bool, false, Option, none, some, List, [], ◌∷◌, if◌then◌else◌}
use etheos.Eoplus.Lex.{Token, identifier, text, symbol, integer, operator, boolean, same_text}

pub data Variant : Type 0 where
  int : ℕ → Variant
  string : List ℕ → Variant
  bool : Bool → Variant

-- `Token::data`; a token without a value has an `int`.
abbrev pub data_of : Token → Variant
data_of (identifier s) = string s
data_of (text s) = string s
data_of (symbol s) = string s
data_of (integer n) = int n
data_of (operator op) = int op
data_of (boolean b) = bool b
data_of t = int 0

-- `Scope`, whose `args` are always empty.
pub data Scope : Type 0 where
  on_character on_npc on_map on_world : Scope

pub record Expression : Type 0 where
  pub scopes : List Scope
  pub function : List ℕ
  pub args : List Variant

abbrev pub empty_expression : Expression
empty_expression = record { scopes = []; function = []; args = [] }

-- `Action::ConditionalType`.
pub data Conditional : Type 0 where
  always on_if on_else on_else_if : Conditional

pub record Action : Type 0 where
  pub cond : Conditional
  pub cond_expr : Expression
  pub expr : Expression

pub record Rule : Type 0 where
  pub expr : Expression
  pub action : Action

-- `Info::HiddenType`.
pub data Hidden : Type 0 where
  not_hidden hidden hidden_end : Hidden

pub record Info : Type 0 where
  pub name : List ℕ
  pub version : ℕ
  pub visible : Hidden
  pub disabled : Bool

abbrev pub new_info : Info
new_info = record { name = []; version = 0; visible = not_hidden; disabled = false }

-- `has_desc` of a `State`, which nothing sets or reads, is left out.
pub record State : Type 0 where
  pub name : List ℕ
  pub desc : List ℕ
  pub rules : List Rule
  pub actions : List Action
  pub goal_rule : ℕ

abbrev pub new_state : State
new_state = record { name = []; desc = []; rules = []; actions = []; goal_rule = 0 }

-- The states, in the order in which they came into the map.
pub record Quest : Type 0 where
  pub has_info : Bool
  pub info : Info
  pub states : List (List ℕ × State)

abbrev pub new_quest : Quest
new_quest = record { has_info = false; info = new_info; states = [] }

-- `find` in the map of the states.
unfoldable pub find_state : List ℕ → List (List ℕ × State) → Option State
unfolding same_text
find_state name [] = none
find_state name ((key, s) ∷ states) =
    let rest = find_state name states in if same_text key name then some s else rest
