-- ===== src/Eoplus/Parse/Scoped.antt =====
-- src/eoplus/parse.cpp, `ParseExpression`: a scope in front of the name of a function.
use etheos.Base.{ℕ, suc, ◌≡◌, refl, ap, ◌∙◌, false, Option, List, [], ◌∷◌, codes}
use etheos.Eoplus.Lex.{Token, identifier, symbol, same_text}
use etheos.Eoplus.Quest.{Expression}
use etheos.Eoplus.Tokens.{TokenServer}
use etheos.Eoplus.Tokens.View.{view}
use etheos.Eoplus.Parse.{
  Message, after_function, Outcome, error, Parser, ◌>>=◌, then_parse, token, token_if, is_operator,
  left_parens, scope_round, parse_scopes, behind_function, expression_from, parse_call,
  parse_expression,
}
use etheos.Eoplus.Parse.Reading.Runs.{
  Runs, pure-Runs, bind-Runs, token-Runs, token_refused, token_if_refused,
}

-- The function throws the error with some token on some line.
abbrev pub Throws : Message → Outcome Expression → Type 0
Throws m o = (t : Option Token) × (line : ℕ) × (o ≡ error m t line)

bind-Throws {κ} :
    {B : Type κ} {ts us : List Token} {b : B} (m : Message) (p : Parser B)
    (f : B → Parser Expression)
    → Runs p ts b us
    → ((s : TokenServer) → view s ≡ us → Throws m (f b s))
    → (s : TokenServer) → view s ≡ ts
    → Throws m ((p >>= f) s)
bind-Throws m p f first throws s e =
    let r = first s e in
    let (t, line, thrown) = throws r.server r.leaves in
    (t, line, ap (λ o. then_parse o f) r.gives ∙ thrown)

-- A name with a point behind it, as a scope is written, makes `ParseExpression` throw: it takes the
-- name for that of the function, and asks for a parenthesis. (`goto` is no such name.)
pub parse_expression-Throws :
    (fuel : ℕ) (name : List ℕ) (rest : List Token) (s : TokenServer)
    → same_text name (codes "goto") ≡ false
    → view s ≡ identifier name ∷ symbol (codes ".") ∷ rest
    → Throws after_function (parse_expression (suc fuel) s)
unfolding parse_expression parse_scopes
parse_expression-Throws fuel name rest s h e =
    let dot = symbol (codes ".") in
    let next = dot ∷ rest in
    let called : (s' : TokenServer)
        → view s' ≡ next
        → Throws after_function (parse_call (suc fuel) name s') =
      bind-Throws after_function (parse_scopes (suc fuel))
        (λ scopes. token_if (is_operator left_parens) 32 >>= behind_function (suc fuel) scopes name)
        (bind-Runs (token 1) (scope_round (parse_scopes fuel))
          (token_refused 1 dot rest refl refl refl) (pure-Runs [] next))
        (bind-Throws after_function (token_if (is_operator left_parens) 32)
          (behind_function (suc fuel) [] name)
          (token_if_refused 32 dot rest refl (is_operator left_parens) refl refl refl)
          (λ s' _. (_, _, refl))) in
    bind-Throws after_function (token 1) (expression_from (suc fuel))
      (token-Runs 1 (identifier name) next refl refl) (rw h called) s e
