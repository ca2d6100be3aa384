-- ===== src/Eoplus/Tokens.antt =====
-- src/eoplus/parse.cpp, `Parser_Token_Server_Base`, and `Parser_Token_Server`, `GetToken` and
-- `GetTokenIf` of src/eoplus/parse.hpp. Lines stay in an `int`.
pub mod Lines
pub mod View
use etheos.Base.{
  ℕ, zero, suc, ◌+◌, ◌-◌, max, Bool, true, false, Option, none, some, List, [], ◌∷◌, ◌++◌,
  replicate, ◌==◌, if◌then◌else◌,
}
use Prim.Native.Nat.{bit_and}
use etheos.Eoplus.Lex.{
  Token, invalid, new_line, end_of_file, identifier, text, symbol, integer, operator, boolean,
}

-- `Token::type`; the lexer makes no `Float`.
abbrev pub type_of : Token → ℕ
type_of invalid = 0
type_of (identifier s) = 1
type_of (text s) = 2
type_of (integer n) = 4
type_of (boolean b) = 16
type_of (operator op) = 32
type_of (symbol s) = 64
type_of new_line = 128
type_of end_of_file = 256

abbrev pub is_allowed : Token → ℕ → Bool
is_allowed t allow = bit_and (type_of t) allow == type_of t

-- `token_buffer` is a stack; `newlines` is that of the token that `GetToken` has returned last; `it`
-- is what stands between `it` and `end`.
pub record TokenServer : Type 0 where
  pub token_buffer : List Token
  pub line : ℕ
  pub reject_token : Token
  pub reject_line : ℕ
  pub newlines : ℕ
  pub it : List Token

abbrev pub new_token_server : List Token → TokenServer
new_token_server tokens = record {
  token_buffer = [];
  line = 1;
  reject_token = invalid;
  reject_line = 1;
  newlines = 0;
  it = tokens;
}

-- What the loop of `GetToken` has got.
pub record Got : Type 0 where
  pub token : Token
  pub newlines : ℕ
  pub token_buffer : List Token
  pub it : List Token

-- The loop, where the buffer is empty; at the end `xGetToken` returns `Token()`.
unfoldable pub next_token : Bool → List Token → Got
next_token keep [] = record { token = invalid; newlines = 0; token_buffer = []; it = [] }
next_token keep (new_line ∷ it) =
    let rest = next_token keep it in
    if keep
    then record { token = new_line; newlines = 0; token_buffer = []; it = it }
    else record rest { newlines = suc rest.newlines }
next_token keep (t ∷ it) = record { token = t; newlines = 0; token_buffer = []; it = it }

-- The loop of `GetToken`.
unfoldable pub next_buffered : Bool → List Token → List Token → Got
unfolding next_token
next_buffered keep [] it = next_token keep it
next_buffered keep (new_line ∷ buffer) it =
    let rest = next_buffered keep buffer it in
    if keep
    then record { token = new_line; newlines = 0; token_buffer = buffer; it = it }
    else record rest { newlines = suc rest.newlines }
next_buffered keep (t ∷ buffer) it = record {
  token = t;
  newlines = 0;
  token_buffer = buffer;
  it = it;
}

abbrev pub is_new_line : Token → ℕ
is_new_line new_line = 1
is_new_line t = 0

-- `PutBack`; what is returned then is `Token()`, which has no `newlines`.
unfoldable pub put_back : Token → TokenServer → TokenServer
put_back t s = record s {
  reject_token = t;
  reject_line = s.line;
  line = s.line - s.newlines - is_new_line t;
  token_buffer = t ∷ (replicate s.newlines new_line ++ s.token_buffer);
  newlines = 0;
}

-- `GetToken` up to the end of its loop.
unfoldable pub taken : ℕ → TokenServer → Token × TokenServer
unfolding next_buffered
taken allow s =
    let got = next_buffered (is_allowed new_line allow) s.token_buffer s.it in
    (
      got.token,
      record s {
        token_buffer = got.token_buffer;
        line = s.line + got.newlines + is_new_line got.token;
        newlines = got.newlines;
        it = got.it;
      },
    )

-- `Parser_Token_Server_Base::GetToken`.
unfoldable pub get_token : ℕ → TokenServer → Token × TokenServer
unfolding taken put_back
get_token allow s =
    let (t, s') = taken allow s in if is_allowed t allow then (t, s') else (invalid, put_back t s')

abbrev pub is_valid : Token → Bool
is_valid invalid = false
is_valid t = true

-- `Parser::GetTokenIf`.
unfoldable pub get_token_if : (Token → Bool) → ℕ → TokenServer → Token × TokenServer
unfolding get_token put_back
get_token_if f allow s =
    let (t, s') = get_token allow s in
    if is_valid t then (if f t then (t, s') else (invalid, put_back t s')) else (t, s')

-- `RejectLine`.
abbrev pub reject_line_of : TokenServer → ℕ
reject_line_of s = max s.line s.reject_line
