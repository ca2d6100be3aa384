-- ===== src/Eoplus/Parse/Reading/Expressions.antt =====
-- src/eoplus/parse.cpp: printed expressions, actions and rules are read back.
use etheos.Base.{
  ℕ, zero, suc, ◌+◌, ◌*◌, ◌≤◌, ◌<◌, ◌≡◌, refl, true, false, some, List, [], ◌∷◌, arith, length,
  codes, All, ==_self,
}
use etheos.Eoplus.Lex.{Token, identifier, text, symbol, integer, operator, uop2}
use etheos.Eoplus.Quest.{
  Variant, int, string, bool, data_of, Scope, on_character, on_npc, on_map, on_world, Expression,
  empty_expression, always, Action,
}
use etheos.Eoplus.Tokens.{is_valid, is_new_line}
use etheos.Eoplus.Parse.{
  Parser, pure, ◌>>=◌, token, token_if, is_dot, is_operator, left_parens, right_parens, scope_of,
  behind_scope, scope_or_back, scope_round, parse_scopes, is_argument_end, behind_argument,
  argument_round, parse_args, args_or_none, behind_function, parse_call, expression_from,
  parse_expression, parse_action, parse_rule,
}
use etheos.Eoplus.Parse.Printing.{
  scope_name, printed_scopes, value, printed_more, printed_args, printed_expression, IsArgument,
  IsCall,
}
use etheos.Eoplus.Parse.Reading.Runs.{
  Runs, pure-Runs, bind-Runs, token-Runs, token_refused, token_if-Runs, token_if_refused,
}

scope_of-scope_name : (s : Scope) → scope_of (scope_name s) ≡ some s
unfolding scope_of
scope_of-scope_name on_character = refl
scope_of-scope_name on_npc = refl
scope_of-scope_name on_map = refl
scope_of-scope_name on_world = refl

pub parse_scopes-Runs :
    (fuel : ℕ) (ss : List Scope) (rest : List Token)
    → length ss < fuel
    → Runs
        (parse_scopes fuel)
        (printed_scopes ss (operator left_parens ∷ rest))
        ss
        (operator left_parens ∷ rest)
unfolding parse_scopes
parse_scopes-Runs zero ss rest h = absurd (omega arith)
parse_scopes-Runs (suc fuel) [] rest h =
    bind-Runs (token 1) (scope_round (parse_scopes fuel))
      (token_refused 1 (operator left_parens) rest refl refl refl)
      (pure-Runs [] (operator left_parens ∷ rest))
parse_scopes-Runs (suc fuel) (s ∷ ss) rest h =
    let next = operator left_parens ∷ rest in
    let later = printed_scopes ss next in
    let again = parse_scopes fuel in
    let name = identifier (scope_name s) in
    let dot = symbol (codes ".") in
    let known : Runs (scope_or_back again name (some s)) (dot ∷ later) (s ∷ ss) next =
      bind-Runs (token_if is_dot 64) (behind_scope again s)
        (token_if-Runs 64 dot later refl is_dot refl refl)
        (bind-Runs again (λ scopes. pure (s ∷ scopes))
          (parse_scopes-Runs fuel ss rest (omega arith)) (pure-Runs (s ∷ ss) next)) in
    bind-Runs (token 1) (scope_round again) (token-Runs 1 name (dot ∷ later) refl refl)
      (rw (scope_of-scope_name s) known)

module _ (again : Parser (List Variant)) (e : Token) (vs : List Variant) (ts us rest : List Token)
    (ended : Runs (token_if is_argument_end 96) ts e us)
    (behind : Runs (behind_argument again e) us vs rest) where
  argument-Runs :
      (t : Token)
      → Runs
          (token_if is_argument_end 96 >>= λ u.
            behind_argument again u >>= λ args. pure (data_of t ∷ args))
          ts
          (data_of t ∷ vs)
          rest
  argument-Runs t =
      bind-Runs (token_if is_argument_end 96)
        (λ u. behind_argument again u >>= λ args. pure (data_of t ∷ args)) ended
        (bind-Runs (behind_argument again e) (λ args. pure (data_of t ∷ args)) behind
          (pure-Runs (data_of t ∷ vs) rest))

  -- A round of the loop over the arguments.
  argument_round-Runs :
      (v : Variant)
      → IsArgument v
      → Runs (token 14 >>= argument_round again) (value v ∷ ts) (v ∷ vs) rest
  argument_round-Runs (int n) h =
      bind-Runs (token 14) (argument_round again) (token-Runs 14 (integer n) ts refl refl)
        (argument-Runs (integer n))
  argument_round-Runs (string s) h =
      bind-Runs (token 14) (argument_round again) (token-Runs 14 (text s) ts refl refl)
        (argument-Runs (text s))
  argument_round-Runs (bool b) h = elim h [ ]

parse_args-Runs :
    (fuel : ℕ) (v : Variant) (vs : List Variant) (rest : List Token)
    → suc (length vs) < fuel
    → All IsArgument (v ∷ vs)
    → Runs (parse_args fuel) (value v ∷ printed_more vs rest) (v ∷ vs) rest
unfolding parse_args
parse_args-Runs zero v vs rest h a = absurd (omega arith)
parse_args-Runs (suc fuel) v [] rest h a =
    let closing = operator right_parens in
    argument_round-Runs (parse_args fuel) closing [] (closing ∷ rest) rest rest
      (token_if-Runs 96 closing rest refl is_argument_end refl refl) (pure-Runs [] rest) v a.0
parse_args-Runs (suc fuel) v (w ∷ vs) rest h a =
    let comma = symbol (codes ",") in
    let later = value w ∷ printed_more vs rest in
    argument_round-Runs (parse_args fuel) comma (w ∷ vs) (comma ∷ later) later rest
      (token_if-Runs 96 comma later refl is_argument_end refl refl)
      (parse_args-Runs fuel w vs rest (omega arith) a.1) v a.0

value_valid :
    (v : Variant)
    → (is_valid (value v) ≡ true)
      × (is_operator right_parens (value v) ≡ false)
      × (is_new_line (value v) ≡ 0)
value_valid (int n) = (refl, refl, refl)
value_valid (string s) = (refl, refl, refl)
value_valid (bool b) = (refl, refl, refl)

-- The arguments behind the left parenthesis.
module _ (fuel : ℕ) (scopes : List Scope) (name : List ℕ) (rest : List Token) where
  abbrev finish : List Variant → Parser Expression
  finish args = pure (record { scopes = scopes; function = name; args = args })

  behind_function-Runs :
      (vs : List Variant)
      → suc (length vs) < fuel
      → All IsArgument vs
      → Runs
          (behind_function fuel scopes name (operator left_parens))
          (printed_args vs rest)
          (record { scopes = scopes; function = name; args = vs })
          rest
  unfolding uop2
  behind_function-Runs [] h a =
      bind-Runs (token_if (is_operator right_parens) 32)
        (λ closed. args_or_none fuel closed >>= finish)
        (token_if-Runs 32 (operator right_parens) rest refl (is_operator right_parens) refl refl)
        (bind-Runs (args_or_none fuel (operator right_parens)) finish (pure-Runs [] rest)
          (pure-Runs (record { scopes = scopes; function = name; args = [] }) rest))
  behind_function-Runs (v ∷ vs) h a =
      let (valid, other, inner) = value_valid v in
      bind-Runs (token_if (is_operator right_parens) 32)
        (λ closed. args_or_none fuel closed >>= finish)
        (token_if_refused 32 (value v) (printed_more vs rest) refl (is_operator right_parens) inner
          valid other)
        (bind-Runs (parse_args fuel) finish (parse_args-Runs fuel v vs rest (omega arith) a)
          (pure-Runs (record { scopes = scopes; function = name; args = v ∷ vs }) rest))

length-printed_scopes :
    (ss : List Scope) (rest : List Token)
    → length (printed_scopes ss rest) ≡ 2 * length ss + length rest
length-printed_scopes [] rest = omega arith
length-printed_scopes (s ∷ ss) rest = omega (arith, length-printed_scopes ss rest)

length-printed_more :
    (vs : List Variant) (rest : List Token)
    → length (printed_more vs rest) ≡ 2 * length vs + 1 + length rest
length-printed_more [] rest = omega arith
length-printed_more (v ∷ vs) rest = omega (arith, length-printed_more vs rest)

length-printed_args :
    (vs : List Variant) (rest : List Token)
    → length vs + 1 + length rest ≤ length (printed_args vs rest)
length-printed_args [] rest = omega arith
length-printed_args (v ∷ vs) rest = omega (arith, length-printed_more vs rest)

pub length-printed_expression :
    (e : Expression) (rest : List Token)
    → 2 * length e.scopes + length e.args + 3 + length rest ≤ length (printed_expression e rest)
length-printed_expression e rest = omega (
  arith,
  length-printed_scopes e.scopes (operator left_parens ∷ printed_args e.args rest),
  length-printed_args e.args rest,
)

module _ (fuel : ℕ) (e : Expression) (rest : List Token) (call : IsCall e)
    (h : length (printed_expression e rest) < fuel) where
  parse_call-Runs :
      Runs
        (parse_call fuel e.function)
        (printed_scopes e.scopes (operator left_parens ∷ printed_args e.args rest))
        e
        rest
  parse_call-Runs =
      let small = length-printed_expression e rest in
      let open_at = printed_args e.args rest in
      bind-Runs (parse_scopes fuel)
        (λ scopes. token_if (is_operator left_parens) 32 >>= behind_function fuel scopes e.function)
        (parse_scopes-Runs fuel e.scopes open_at (omega (arith, small)))
        (bind-Runs (token_if (is_operator left_parens) 32)
          (behind_function fuel e.scopes e.function)
          (token_if-Runs 32 (operator left_parens) open_at refl (is_operator left_parens) refl
            (==_self left_parens))
          (behind_function-Runs fuel e.scopes e.function rest e.args (omega (arith, small)) call.1))

  -- A printed expression is read back.
  pub parse_expression-Runs : Runs (parse_expression fuel) (printed_expression e rest) e rest
  unfolding parse_expression
  parse_expression-Runs =
      let later = printed_scopes e.scopes (operator left_parens ∷ printed_args e.args rest) in
      bind-Runs (token 1) (expression_from fuel)
        (token-Runs 1 (identifier e.function) later refl refl) (rw call.0 parse_call-Runs)

  pub parse_action-Runs :
      Runs
        (parse_action fuel)
        (printed_expression e rest)
        (record { cond = always; cond_expr = empty_expression; expr = e })
        rest
  unfolding parse_action
  parse_action-Runs =
      bind-Runs (parse_expression fuel) _ parse_expression-Runs
        (pure-Runs (record { cond = always; cond_expr = empty_expression; expr = e }) rest)

-- Two expressions behind each other, as in a rule.
pub parse_rule-Runs :
    (fuel : ℕ) (e f : Expression) (rest : List Token)
    → IsCall e
    → IsCall f
    → length (printed_expression e (printed_expression f rest)) < fuel
    → Runs
        (parse_rule fuel)
        (printed_expression e (printed_expression f rest))
        (record {
          expr = e;
          action = record { cond = always; cond_expr = empty_expression; expr = f };
        })
        rest
unfolding parse_rule
parse_rule-Runs fuel e f rest call call' h =
    let small = length-printed_expression e (printed_expression f rest) in
    let a : Action = record { cond = always; cond_expr = empty_expression; expr = f } in
    bind-Runs (parse_expression fuel)
      (λ e'. parse_action fuel >>= λ a'. pure (record { expr = e'; action = a' }))
      (parse_expression-Runs fuel e (printed_expression f rest) call h)
      (bind-Runs (parse_action fuel) (λ a'. pure (record { expr = e; action = a' }))
        (parse_action-Runs fuel f rest call' (omega (arith, small)))
        (pure-Runs (record { expr = e; action = a }) rest))
