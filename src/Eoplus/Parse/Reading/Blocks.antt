-- ===== src/Eoplus/Parse/Reading/Blocks.antt =====
-- src/eoplus/parse.cpp: printed states are read back.
use etheos.Base.{
  ℕ, zero, suc, ◌+◌, ◌≤◌, ◌<◌, ◌≡◌, refl, subst, some, List, [], ◌∷◌, ◌++◌, arith, inl, inr, length,
  length-append, codes, All, Bool-cases, ◌==◌, if◌then◌else◌,
}
use etheos.Eoplus.Lex.{Token, identifier, symbol, same_text}
use etheos.Eoplus.Quest.{
  empty_expression, Conditional, always, on_if, on_else, on_else_if, Action, Rule, State,
}
use etheos.Eoplus.Parse.{
  pure, token, Block, push_rule, push_action, parse_rule, parse_action, parse_entry, behind_entry,
  block_round, parse_block,
}
use etheos.Eoplus.Parse.Printing.{
  printed_expression, printed_rules, printed_action, printed_actions, printed_state, IsCall, IsRule,
  HasCondition, IsAction,
}
use etheos.Eoplus.Parse.Reading.Runs.{Runs, pure-Runs, bind-Runs, token-Runs}
use etheos.Eoplus.Parse.Reading.Expressions.{
  length-printed_expression, parse_action-Runs, parse_rule-Runs,
}

-- A round of the loop over the entries of a block.
pub block_step :
    (fuel : ℕ) (name keyword : List ℕ) (b b' out : Block) (body rest us : List Token)
    → Runs (parse_entry (suc fuel) keyword b) body (some b') rest
    → Runs (parse_block fuel name b') rest out us
    → Runs (parse_block (suc fuel) name b) (identifier keyword ∷ body) out us
unfolding parse_block
block_step fuel name keyword b b' out body rest us entry more =
    bind-Runs (token 65) (block_round (suc fuel) (parse_block fuel name) name b)
      (token-Runs 65 (identifier keyword) body refl refl)
      (bind-Runs (parse_entry (suc fuel) keyword b)
        (behind_entry (parse_block fuel name) name (identifier keyword)) entry more)

pub block_end :
    (fuel : ℕ) (name : List ℕ) (b : Block) (rest : List Token)
    → 0 < fuel
    → Runs (parse_block fuel name b) (symbol (codes "}") ∷ rest) b rest
unfolding parse_block same_text
block_end zero name b rest h = absurd (omega arith)
block_end (suc fuel) name b rest h =
    bind-Runs (token 65) (block_round (suc fuel) (parse_block fuel name) name b)
      (token-Runs 65 (symbol (codes "}")) rest refl refl) (pure-Runs b rest)

-- What a block holds behind a rule, where the rule at `goal` is the goal.
abbrev pub after_rule : ℕ → Rule → Block → Block
after_rule goal r b =
    let b' : Block = push_rule r b in
    if length b.state.rules == goal
    then record b' { state = record b'.state { goal_rule = length b.state.rules } }
    else b'

abbrev pub after_rules : ℕ → List Rule → Block → Block
after_rules goal [] b = b
after_rules goal (r ∷ rs) b = after_rules goal rs (after_rule goal r b)

abbrev pub after_actions : List Action → Block → Block
after_actions [] b = b
after_actions (a ∷ more) b = after_actions more (push_action a b)

-- The rule that is read is the one that was printed.
rule_whole :
    (r : Rule)
    → IsRule r
    → record {
      expr = r.expr;
      action = record { cond = always; cond_expr = empty_expression; expr = r.action.expr };
    }
      ≡ r
rule_whole r h = let (_, _, c, e) = h in cc (c, e)

abbrev body : Rule → List Token → List Token
body r rest = printed_expression r.expr (printed_expression r.action.expr rest)

module _ (fuel : ℕ) (r : Rule) (b : Block) (rest : List Token) (h : IsRule r)
    (small : length (body r rest) < fuel) where
  parse_rule_whole : Runs (parse_rule fuel) (body r rest) r rest
  parse_rule_whole =
      subst (λ q. Runs (parse_rule fuel) (body r rest) q rest) (rule_whole r h)
        (parse_rule-Runs fuel r.expr r.action.expr rest h.0 h.1 small)

  rule_entry : Runs (parse_entry fuel (codes "rule") b) (body r rest) (some (push_rule r b)) rest
  unfolding parse_entry same_text
  rule_entry =
      bind-Runs (parse_rule fuel) (λ q. pure (some (push_rule q b))) parse_rule_whole
        (pure-Runs (some (push_rule r b)) rest)

  goal_entry :
      Runs
        (parse_entry fuel (codes "goal") b)
        (body r rest)
        (some (record b {
          state = record b.state {
            rules = b.state.rules ++ r ∷ [];
            goal_rule = length b.state.rules;
          };
        }))
        rest
  unfolding parse_entry same_text
  goal_entry = bind-Runs (parse_rule fuel) _ parse_rule_whole (
      pure-Runs
        (some (record b {
          state = record b.state {
            rules = b.state.rules ++ r ∷ [];
            goal_rule = length b.state.rules;
          };
        }))
        rest)

  either_entry :
      (goal : ℕ)
      → Runs
          (parse_entry fuel (if length b.state.rules == goal then codes "goal" else codes "rule") b)
          (body r rest)
          (some (after_rule goal r b))
          rest
  either_entry goal = elim (Bool-cases (length b.state.rules == goal)) [
    | inl here ↦ rw here goal_entry
    | inr other ↦ rw other rule_entry
  ]

pub rules-Runs :
    (fuel goal : ℕ) (name : List ℕ) (rs : List Rule) (b out : Block) (rest us : List Token)
    → All IsRule rs
    → length (printed_rules goal (length b.state.rules) rs rest) < fuel
    → ((f : ℕ) → length rest < f → Runs (parse_block f name (after_rules goal rs b)) rest out us)
    → Runs (parse_block fuel name b) (printed_rules goal (length b.state.rules) rs rest) out us
rules-Runs fuel goal name [] b out rest us a small more = more fuel small
rules-Runs zero goal name (r ∷ rs) b out rest us a small more = absurd (omega arith)
rules-Runs (suc fuel) goal name (r ∷ rs) b out rest us a small more =
    let i = length b.state.rules in
    let later = printed_rules goal (suc i) rs rest in
    let b' = after_rule goal r b in
    let next : length b'.state.rules ≡ suc i =
      ground (arith, length-append b.state.rules (r ∷ [])) in
    let long = length-printed_expression r.expr (printed_expression r.action.expr later) in
    let long' = length-printed_expression r.action.expr later in
    block_step fuel name (if i == goal then codes "goal" else codes "rule") b b' out (body r later)
      later us (either_entry (suc fuel) r b later a.0 (omega (arith, small)) goal)
      (subst (λ k. Runs (parse_block fuel name b') (printed_rules goal k rs rest) out us) next
        (rules-Runs fuel goal name rs b' out rest us a.1
          (rw next (omega (arith, small, long, long'))) more))

-- The action that is read is the one that was printed.
module _ (fuel : ℕ) (b : Block) (rest : List Token) where
  action_entry :
      (a : Action)
      → IsCall a.expr
      → a.cond ≡ always
      → a.cond_expr ≡ empty_expression
      → length (printed_expression a.expr rest) < fuel
      → Runs
          (parse_entry fuel (codes "action") b)
          (printed_expression a.expr rest)
          (some (push_action a b))
          rest
  unfolding parse_entry same_text
  action_entry a call c e small =
      let whole : record { cond = always; cond_expr = empty_expression; expr = a.expr } ≡ a =
        cc (c, e) in
      bind-Runs (parse_action fuel) (λ q. pure (some (push_action q b)))
        (subst (λ q. Runs (parse_action fuel) (printed_expression a.expr rest) q rest) whole
          (parse_action-Runs fuel a.expr rest call small))
        (pure-Runs (some (push_action a b)) rest)

  else_entry :
      (a : Action)
      → IsCall a.expr
      → a.cond ≡ on_else
      → a.cond_expr ≡ empty_expression
      → length (printed_expression a.expr rest) < fuel
      → Runs
          (parse_entry fuel (codes "else") b)
          (printed_expression a.expr rest)
          (some (push_action a b))
          rest
  unfolding parse_entry same_text
  else_entry a call c e small =
      let whole : record { cond = on_else; cond_expr = empty_expression; expr = a.expr } ≡ a =
        cc (c, e) in
      subst
        (λ q.
          Runs (parse_entry fuel (codes "else") b) (printed_expression a.expr rest)
            (some (push_action q b)) rest)
        whole
        (bind-Runs (parse_action fuel)
          (λ q. pure (some (push_action (record q { cond = on_else }) b)))
          (parse_action-Runs fuel a.expr rest call small)
          (pure-Runs
            (some (
              push_action (record { cond = on_else; cond_expr = empty_expression; expr = a.expr })
                b))
            rest))

  module _ (a : Action) (call : IsCall a.expr) (condition : IsCall a.cond_expr)
      (small : length (printed_expression a.cond_expr (printed_expression a.expr rest))
        < fuel) where
    if_entry :
        a.cond ≡ on_if
        → Runs
            (parse_entry fuel (codes "if") b)
            (printed_expression a.cond_expr (printed_expression a.expr rest))
            (some (push_action a b))
            rest
    unfolding parse_entry same_text
    if_entry c =
        let whole : record { cond = on_if; cond_expr = a.cond_expr; expr = a.expr } ≡ a = cc c in
        subst
          (λ q.
            Runs (parse_entry fuel (codes "if") b)
              (printed_expression a.cond_expr (printed_expression a.expr rest))
              (some (push_action q b)) rest)
          whole
          (bind-Runs (parse_rule fuel) _
            (parse_rule-Runs fuel a.cond_expr a.expr rest condition call small)
            (pure-Runs
              (some
                (push_action (record { cond = on_if; cond_expr = a.cond_expr; expr = a.expr }) b))
              rest))

    else_if_entry :
        a.cond ≡ on_else_if
        → Runs
            (parse_entry fuel (codes "elseif") b)
            (printed_expression a.cond_expr (printed_expression a.expr rest))
            (some (push_action a b))
            rest
    unfolding parse_entry same_text
    else_if_entry c =
        let whole : record { cond = on_else_if; cond_expr = a.cond_expr; expr = a.expr } ≡ a =
          cc c in
        subst
          (λ q.
            Runs (parse_entry fuel (codes "elseif") b)
              (printed_expression a.cond_expr (printed_expression a.expr rest))
              (some (push_action q b)) rest)
          whole
          (bind-Runs (parse_rule fuel) _
            (parse_rule-Runs fuel a.cond_expr a.expr rest condition call small)
            (pure-Runs
              (some (
                push_action (record { cond = on_else_if; cond_expr = a.cond_expr; expr = a.expr })
                  b))
              rest))

-- One action, whatever its kind.
action_step :
    (fuel : ℕ) (name : List ℕ) (k : Conditional) (a : Action) (b out : Block) (rest us : List Token)
    → a.cond ≡ k
    → IsCall a.expr
    → HasCondition k a.cond_expr
    → length (printed_action k a rest) < suc fuel
    → Runs (parse_block fuel name (push_action a b)) rest out us
    → Runs (parse_block (suc fuel) name b) (printed_action k a rest) out us
action_step fuel name always a b out rest us c call cond small more =
    block_step fuel name (codes "action") b (push_action a b) out _ rest us
      (action_entry (suc fuel) b rest a call c cond (omega (arith, small))) more
action_step fuel name on_else a b out rest us c call cond small more =
    block_step fuel name (codes "else") b (push_action a b) out _ rest us
      (else_entry (suc fuel) b rest a call c cond (omega (arith, small))) more
action_step fuel name on_if a b out rest us c call cond small more =
    block_step fuel name (codes "if") b (push_action a b) out _ rest us
      (if_entry (suc fuel) b rest a call cond (omega (arith, small)) c) more
action_step fuel name on_else_if a b out rest us c call cond small more =
    block_step fuel name (codes "elseif") b (push_action a b) out _ rest us
      (else_if_entry (suc fuel) b rest a call cond (omega (arith, small)) c) more

length-printed_action :
    (k : Conditional) (a : Action) (rest : List Token)
    → length rest < length (printed_action k a rest)
length-printed_action always a rest = omega (arith, length-printed_expression a.expr rest)
length-printed_action on_else a rest = omega (arith, length-printed_expression a.expr rest)
length-printed_action on_if a rest = omega (
  arith,
  length-printed_expression a.expr rest,
  length-printed_expression a.cond_expr (printed_expression a.expr rest),
)
length-printed_action on_else_if a rest = omega (
  arith,
  length-printed_expression a.expr rest,
  length-printed_expression a.cond_expr (printed_expression a.expr rest),
)

pub actions-Runs :
    (fuel : ℕ) (name : List ℕ) (acts : List Action) (b out : Block) (rest us : List Token)
    → All IsAction acts
    → length (printed_actions acts rest) < fuel
    → ((f : ℕ) → length rest < f → Runs (parse_block f name (after_actions acts b)) rest out us)
    → Runs (parse_block fuel name b) (printed_actions acts rest) out us
actions-Runs fuel name [] b out rest us h small more = more fuel small
actions-Runs zero name (a ∷ acts) b out rest us h small more = absurd (omega arith)
actions-Runs (suc fuel) name (a ∷ acts) b out rest us h small more =
    let later = printed_actions acts rest in
    action_step fuel name a.cond a b out later us refl h.0.0 h.0.1 small (
      actions-Runs fuel name acts (push_action a b) out rest us h.1
        (omega (arith, length-printed_action a.cond a later, small)) more)

length-printed_actions :
    (acts : List Action) (rest : List Token) → length rest ≤ length (printed_actions acts rest)
length-printed_actions [] rest = omega arith
length-printed_actions (a ∷ acts) rest = omega (
  arith,
  length-printed_action a.cond a (printed_actions acts rest),
  length-printed_actions acts rest,
)

length-printed_rules :
    (goal i : ℕ) (rs : List Rule) (rest : List Token)
    → length rest ≤ length (printed_rules goal i rs rest)
length-printed_rules goal i [] rest = omega arith
length-printed_rules goal i (r ∷ rs) rest =
    let later = printed_rules goal (suc i) rs rest in
    omega (
      arith,
      length-printed_rules goal (suc i) rs rest,
      length-printed_expression r.action.expr later,
      length-printed_expression r.expr (printed_expression r.action.expr later),
    )

pub length-printed_state :
    (s : State) (rest : List Token) → 5 + length rest < length (printed_state s rest)
length-printed_state s rest =
    let acts = printed_actions s.actions (symbol (codes "}") ∷ rest) in
    omega (
      arith,
      length-printed_actions s.actions (symbol (codes "}") ∷ rest),
      length-printed_rules s.goal_rule 0 s.rules acts,
    )
