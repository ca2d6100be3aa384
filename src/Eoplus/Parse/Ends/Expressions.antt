-- ===== src/Eoplus/Parse/Ends/Expressions.antt =====
-- src/eoplus/parse.cpp: versions, expressions, actions and rules come to an end.
use etheos.Base.{
  ℕ, zero, suc, ◌+◌, ◌*◌, ◌%◌, ◌^◌, ◌<◌, Option, none, some, List, ◌∷◌, arith, inl, inr, Bool-cases,
  codes, ◌==◌,
}
use etheos.Eoplus.Lex.{Token, invalid, identifier, text, integer, operator, same_text}
use etheos.Eoplus.Quest.{Variant, data_of, Scope, Expression}
use etheos.Eoplus.Tokens.{TokenServer, is_new_line}
use etheos.Eoplus.Tokens.Lines.{IsSound, pending, put_back-Gets}
use etheos.Eoplus.Parse.{
  Message, after_version_dot, after_version, after_scope, after_goto, after_argument,
  before_argument, after_function, Parser, pure, ◌>>=◌, is_dot, is_operator, left_parens,
  right_parens, minor_version, behind_version, major_version, parse_version, scope_of, behind_scope,
  scope_or_back, scope_round, parse_scopes, is_argument_end, behind_argument, argument_round,
  parse_args, args_or_none, behind_function, parse_call, goto_state, expression_from,
  parse_expression, text_or, parse_action, parse_rule,
}
use etheos.Eoplus.Parse.Ends.Steps.{
  After, Ending, After-mono, fail_got-Ending, bind-Ending, token_then, token_if_then, token_round,
}

module _ {total : ℕ} (n : ℕ) where
  minor_version-Ending : (v : ℕ) (t : Token) → Ending total n (minor_version v t)
  minor_version-Ending v (integer k) = λ s sound small. (sound, small)
  minor_version-Ending v t = fail_got-Ending ℕ total n after_version_dot

  behind_version-Ending : (v : ℕ) (t : Token) → Ending total n (behind_version v t)
  behind_version-Ending v invalid = λ s sound small. (sound, small)
  behind_version-Ending v t = token_then n 4 (minor_version v) (minor_version-Ending v)

  major_version-Ending : (t : Token) → Ending total n (major_version t)
  major_version-Ending (integer k) =
      let v : ℕ = (k % 2 ^ 16) * 2 ^ 16 in
      token_if_then n 64 is_dot (behind_version v) (behind_version-Ending v)
  major_version-Ending t = fail_got-Ending ℕ total n after_version

  pub parse_version-Ending : Ending total n parse_version
  unfolding parse_version
  parse_version-Ending = token_then n 4 major_version major_version-Ending

  behind_scope-Ending :
      (again : Parser (List Scope)) (s : Scope)
      → Ending total n again
      → (t : Token) → Ending total n (behind_scope again s t)
  behind_scope-Ending again s h invalid = fail_got-Ending (List Scope) total n after_scope
  behind_scope-Ending again s h t =
      bind-Ending n again (λ scopes. pure (s ∷ scopes)) h (λ _ s sound small. (sound, small))

  scope_or_back-After :
      (again : Parser (List Scope)) (t : Token) (o : Option Scope) (s : TokenServer)
      → Ending total n again
      → IsSound total s
      → pending s + s.newlines < suc n
      → s.newlines + is_new_line t < s.line
      → After total (suc n) (scope_or_back again t o s)
  scope_or_back-After again t none s h sound small far =
      let (sound', size, near, _) = put_back-Gets total t s sound far in
      (sound', omega (arith, size, small))
  scope_or_back-After again t (some scope) s h sound small far =
      After-mono (List Scope) total n (suc n) (scope_or_back again t (some scope) s) (omega arith) (
        token_if_then n 64 is_dot (behind_scope again scope) (behind_scope-Ending again scope h) s
          sound (omega (arith, small)))

  scope_round-After :
      (again : Parser (List Scope)) (t : Token) (s : TokenServer)
      → Ending total n again
      → IsSound total s
      → pending s + s.newlines < suc n
      → s.newlines + is_new_line t < s.line
      → After total (suc n) (scope_round again t s)
  scope_round-After again (identifier name) s h sound small far =
      scope_or_back-After again (identifier name) (scope_of name) s h sound small far
  scope_round-After again t s h sound small far = (sound, omega (arith, small))

  behind_argument-Ending :
      (again : Parser (List Variant))
      → Ending total n again
      → (t : Token) → Ending total n (behind_argument again t)
  behind_argument-Ending again h invalid = fail_got-Ending (List Variant) total n after_argument
  behind_argument-Ending again h (operator o) = elim (Bool-cases (o == right_parens)) [
    | inl closes ↦ rw closes (λ s sound small. (sound, small))
    | inr other ↦ rw other h
  ]
  behind_argument-Ending again h t = h

  argument_round-Ending :
      (again : Parser (List Variant))
      → Ending total n again
      → (t : Token) → Ending total n (argument_round again t)
  argument_round-Ending again h invalid = fail_got-Ending (List Variant) total n before_argument
  argument_round-Ending again h t =
      token_if_then n 96 is_argument_end
        (λ e. behind_argument again e >>= λ args. pure (data_of t ∷ args))
        (λ e.
          bind-Ending n (behind_argument again e) (λ args. pure (data_of t ∷ args))
            (behind_argument-Ending again h e) (λ _ s sound small. (sound, small)))

pub parse_scopes-Ending : {total : ℕ} (fuel n : ℕ) → n < fuel → Ending total n (parse_scopes fuel)
unfolding parse_scopes
parse_scopes-Ending zero n h = absurd (omega arith)
parse_scopes-Ending {total} (suc fuel) zero h =
    token_round zero 1 (scope_round (parse_scopes fuel)) (λ s sound small. (sound, small))
      (λ t s valid sound small far. absurd (omega (arith, small)))
parse_scopes-Ending {total} (suc fuel) (suc n) h =
    token_round (suc n) 1 (scope_round (parse_scopes fuel)) (λ s sound small. (sound, small))
      (λ t s valid sound small far.
        scope_round-After n (parse_scopes fuel) t s (parse_scopes-Ending fuel n (omega arith)) sound
          small far)

pub parse_args-Ending : {total : ℕ} (fuel n : ℕ) → n < fuel → Ending total n (parse_args fuel)
unfolding parse_args
parse_args-Ending zero n h = absurd (omega arith)
parse_args-Ending {total} (suc fuel) zero h =
    token_round zero 14 (argument_round (parse_args fuel))
      (fail_got-Ending (List Variant) total zero before_argument)
      (λ t s valid sound small far. absurd (omega (arith, small)))
parse_args-Ending {total} (suc fuel) (suc n) h =
    token_round (suc n) 14 (argument_round (parse_args fuel))
      (fail_got-Ending (List Variant) total (suc n) before_argument)
      (λ t s valid sound small far.
        After-mono (List Variant) total n (suc n) (argument_round (parse_args fuel) t s)
          (omega arith)
          (argument_round-Ending n (parse_args fuel) (parse_args-Ending fuel n (omega arith)) t s
            sound (omega (arith, small))))

module _ {total : ℕ} (fuel n : ℕ) (h : n < fuel) where
  args_or_none-Ending : (t : Token) → Ending total n (args_or_none fuel t)
  args_or_none-Ending invalid = parse_args-Ending fuel n h
  args_or_none-Ending t = λ s sound small. (sound, small)

  behind_function-Ending :
      (scopes : List Scope) (name : List ℕ) (t : Token)
      → Ending total n (behind_function fuel scopes name t)
  behind_function-Ending scopes name invalid = fail_got-Ending Expression total n after_function
  behind_function-Ending scopes name t =
      let finish : List Variant → Parser Expression =
        λ args. pure (record { scopes = scopes; function = name; args = args }) in
      token_if_then n 32 (is_operator right_parens) (λ closed. args_or_none fuel closed >>= finish)
        (λ closed.
          bind-Ending n (args_or_none fuel closed) finish (args_or_none-Ending closed)
            (λ _ s sound small. (sound, small)))

  parse_call-Ending : (name : List ℕ) → Ending total n (parse_call fuel name)
  parse_call-Ending name =
      bind-Ending n (parse_scopes fuel) _ (parse_scopes-Ending fuel n h) (λ scopes.
        token_if_then n 32 (is_operator left_parens) (behind_function fuel scopes name)
          (behind_function-Ending scopes name))

  goto_state-Ending : (t : Token) → Ending total n (goto_state t)
  goto_state-Ending (identifier s) = λ s sound small. (sound, small)
  goto_state-Ending t = fail_got-Ending Expression total n after_goto

  expression_from-Ending : (t : Token) → Ending total n (expression_from fuel t)
  expression_from-Ending (identifier s) = elim (Bool-cases (same_text s (codes "goto"))) [
    | inl jump ↦ rw jump (token_then n 1 goto_state goto_state-Ending)
    | inr call ↦ rw call (parse_call-Ending s)
  ]
  expression_from-Ending t = λ s sound small. (sound, small)

  pub parse_expression-Ending : Ending total n (parse_expression fuel)
  unfolding parse_expression
  parse_expression-Ending = token_then n 1 (expression_from fuel) expression_from-Ending

  pub parse_action-Ending : Ending total n (parse_action fuel)
  unfolding parse_action
  parse_action-Ending =
      bind-Ending n (parse_expression fuel) _ parse_expression-Ending
        (λ _ s sound small. (sound, small))

  pub parse_rule-Ending : Ending total n (parse_rule fuel)
  unfolding parse_rule
  parse_rule-Ending = bind-Ending n (parse_expression fuel) _ parse_expression-Ending (λ e.
      bind-Ending n (parse_action fuel) _ parse_action-Ending (λ _ s sound small. (sound, small)))

pub text_or-Ending : {total : ℕ} (n : ℕ) (m : Message) (t : Token) → Ending total n (text_or m t)
text_or-Ending {total} n m (text s) = λ s sound small. (sound, small)
text_or-Ending {total} n m t = fail_got-Ending (List ℕ) total n m
