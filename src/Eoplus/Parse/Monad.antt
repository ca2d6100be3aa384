-- ===== src/Eoplus/Parse/Monad.antt =====
-- src/eoplus/parse.cpp: what a function of `Parser` gives, and the errors that it throws.
use etheos.Base.{ℕ, Bool, Option, none, some, List}
use etheos.Eoplus.Lex.{Token}
use etheos.Eoplus.Tokens.{TokenServer, get_token, get_token_if, put_back, reject_line_of}

-- The texts of the errors; the names of a state are inside two of them.
pub data Message : Type 0 where
  after_version_dot after_version after_scope after_goto after_argument before_argument : Message
  after_function after_questname after_desc : Message
  second_questname second_version second_hidden second_disabled main_entry : Message
  second_desc : Message
  state_entry state_exists : List ℕ → Message
  after_state_name after_state after_main second_main no_main block_identifier : Message

-- A result, a `Parser_Error` with the token that was got where the text names it, or a loop that
-- has not ended when the fuel is spent.
pub data Outcome {ℓ} (A : Type ℓ) : Type ℓ where
  ok : A → TokenServer → Outcome A
  error : Message → Option Token → ℕ → Outcome A
  running : Outcome A

abbrev pub Parser {ℓ} : Type ℓ → Type ℓ
Parser A = TokenServer → Outcome A

abbrev pub pure {ℓ} : {A : Type ℓ} → A → Parser A
pure a s = ok a s

abbrev pub then_parse {ℓ κ} : {A : Type ℓ} {B : Type κ} → Outcome A → (A → Parser B) → Outcome B
then_parse (ok a s) f = f a s
then_parse (error m t line) f = error m t line
then_parse running f = running

infixl 5 ◌>>=◌ ◌>>◌
abbrev pub ◌>>=◌ {ℓ κ} : {A : Type ℓ} {B : Type κ} → Parser A → (A → Parser B) → Parser B
p >>= f = λ s. then_parse (p s) f

abbrev pub ◌>>◌ {ℓ κ} : {A : Type ℓ} {B : Type κ} → Parser A → Parser B → Parser B
p >> q = p >>= λ _. q

abbrev pub token : ℕ → Parser Token
token allow s = let (t, s') = get_token allow s in ok t s'

abbrev pub token_if : (Token → Bool) → ℕ → Parser Token
token_if f allow s = let (t, s') = get_token_if f allow s in ok t s'

abbrev pub give_back : Token → Parser (Unit {0})
give_back t s = ok tt (put_back t s)

-- `PARSER_ERROR` and `PARSER_ERROR_GOT`.
abbrev pub fail {ℓ} : {A : Type ℓ} → Message → Parser A
fail m s = error m none (reject_line_of s)

abbrev pub fail_got {ℓ} : {A : Type ℓ} → Message → Parser A
fail_got m s = error m (some s.reject_token) (reject_line_of s)
