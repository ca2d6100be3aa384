-- ===== src/Eoplus/Parse/Reading/States.antt =====
-- src/eoplus/parse.cpp: a printed state is read back as it was.
use mathlib.Core.List.{append-nil, append_assoc}
use etheos.Base.{
  ℕ, zero, suc, ◌+◌, ◌<◌, ◌≡◌, refl, sym, ap, subst, ◌∙◌, true, false, some, List, [], ◌∷◌, ◌++◌,
  arith, inl, inr, length, length-append, codes, ◌⊎◌, Bool-cases, ◌==◌, leb, ltb, ◌&&◌,
  if◌then◌else◌,
}
use etheos.Eoplus.Lex.{Token, identifier, text, symbol, same_text}
use etheos.Eoplus.Quest.{Action, Rule, State, new_state}
use etheos.Eoplus.Parse.{
  pure, ◌>>=◌, token, Block, parse_desc, parse_entry, parse_block, text_or, after_desc,
  state_behind, is_open, block_of, parse_state_block,
}
use etheos.Eoplus.Parse.Printing.{printed_rules, printed_actions, printed_state, IsState}
use etheos.Eoplus.Parse.Reading.Runs.{Runs, pure-Runs, bind-Runs, token-Runs}
use etheos.Eoplus.Parse.Reading.Blocks.{
  block_step, block_end, after_rule, after_rules, after_actions, rules-Runs, actions-Runs,
}

after_actions-state :
    (acts : List Action) (b : Block)
    → (after_actions acts b).state ≡ record b.state { actions = b.state.actions ++ acts }
after_actions-state [] b =
    ap (λ l. record b.state { actions = l }) (sym (append-nil b.state.actions))
after_actions-state (a ∷ acts) b =
    after_actions-state acts
      (record b { state = record b.state { actions = b.state.actions ++ a ∷ [] } })
    ∙ ap (λ l. record b.state { actions = l }) (append_assoc b.state.actions (a ∷ []) acts)

-- The goal behind `n` rules from the place `i` on, where it was `old`.
abbrev goal_from : ℕ → ℕ → ℕ → ℕ → ℕ
goal_from goal i n old = if leb i goal && ltb goal (i + n) then goal else old

-- What the rules leave in the state.
abbrev with_rules : ℕ → List Rule → State → State
with_rules goal rs s = record s {
  rules = s.rules ++ rs;
  goal_rule = goal_from goal (length s.rules) (length rs) s.goal_rule;
}

after_rule-state :
    (goal : ℕ) (r : Rule) (b : Block)
    → (after_rule goal r b).state ≡ with_rules goal (r ∷ []) b.state
after_rule-state goal r b =
    let i = length b.state.rules in
    elim (Bool-cases (i == goal)) [
      | inl here ↦
          let e : i ≡ goal_from goal i 1 b.state.goal_rule = ground arith in
          rw here
            (ap (λ (k : ℕ). record b.state { rules = b.state.rules ++ r ∷ []; goal_rule = k }) e)
      | inr other ↦
          let e : b.state.goal_rule ≡ goal_from goal i 1 b.state.goal_rule = ground arith in
          rw other
            (ap (λ (k : ℕ). record b.state { rules = b.state.rules ++ r ∷ []; goal_rule = k }) e)
    ]

goal_from-goal_from :
    (goal i n old : ℕ)
    → goal_from goal (i + 1) n (goal_from goal i 1 old) ≡ goal_from goal i (suc n) old
goal_from-goal_from goal i n old = ground arith

goal_from_none : (goal i old : ℕ) → old ≡ goal_from goal i 0 old
goal_from_none goal i old = ground arith

after_rules-state :
    (goal : ℕ) (rs : List Rule) (b : Block)
    → (after_rules goal rs b).state ≡ with_rules goal rs b.state
after_rules-state goal [] b =
    ap (λ l. record b.state { rules = l }) (sym (append-nil b.state.rules))
    ∙ ap (λ (k : ℕ). record b.state { rules = b.state.rules ++ []; goal_rule = k })
        (goal_from_none goal (length b.state.rules) b.state.goal_rule)
after_rules-state goal (r ∷ rs) b =
    let s = b.state in
    let i = length s.rules in
    let both : ℕ → State = λ k. record s { rules = s.rules ++ r ∷ rs; goal_rule = k } in
    after_rules-state goal rs (after_rule goal r b)
    ∙ ap (with_rules goal rs) (after_rule-state goal r b)
    ∙ ap (λ l. record (with_rules goal rs (with_rules goal (r ∷ []) s)) { rules = l })
        (append_assoc s.rules (r ∷ []) rs)
    ∙ ap (λ (j : ℕ). both (goal_from goal j (length rs) (goal_from goal i 1 s.goal_rule)))
        (length-append s.rules (r ∷ []))
    ∙ ap both (goal_from-goal_from goal i (length rs) s.goal_rule)

-- The block when its entries have been read.
abbrev described : State → Block
described s = record { state = record new_state { desc = s.desc }; has_desc = true }

abbrev whole : State → Block
whole s = after_actions s.actions (after_rules s.goal_rule s.rules (described s))

goal_kept : (goal n : ℕ) → (goal < n) ⊎ ((n ≡ 0) × (goal ≡ 0)) → goal_from goal 0 n 0 ≡ goal
goal_kept goal n (inl h) = ground arith
goal_kept goal n (inr h) = ground (arith, h.0, h.1)

whole-state : (s : State) → IsState s → record (whole s).state { name = s.name } ≡ s
whole-state s h =
    let b = after_rules s.goal_rule s.rules (described s) in
    let goal = goal_kept s.goal_rule (length s.rules) (elim h.2 [
      | inl inside ↦ inl inside
      | inr none_left ↦ inr (ap length none_left.0, none_left.1)
    ]) in
    let named : State → State = λ st. record st { name = s.name } in
    let acted : State → State =
      λ st. record st { name = s.name; actions = st.actions ++ s.actions } in
    let aimed : ℕ → State = λ k. record s { goal_rule = k } in
    ap named (after_actions-state s.actions b)
    ∙ ap acted (after_rules-state s.goal_rule s.rules (described s))
    ∙ ap aimed goal

desc_entry :
    (fuel : ℕ) (d : List ℕ) (rest : List Token)
    → Runs
        (parse_entry fuel (codes "desc") (record { state = new_state; has_desc = false }))
        (text d ∷ rest)
        (some (record { state = record new_state { desc = d }; has_desc = true }))
        rest
unfolding parse_entry parse_desc same_text
desc_entry fuel d rest =
    bind-Runs (token 2 >>= text_or after_desc) _
      (bind-Runs (token 2) (text_or after_desc) (token-Runs 2 (text d) rest refl refl)
        (pure-Runs d rest))
      (pure-Runs (some (record { state = record new_state { desc = d }; has_desc = true })) rest)

-- All entries of a printed state, behind its brace.
abbrev pub entries : State → List Token → List Token
entries s rest =
    printed_rules s.goal_rule 0 s.rules (printed_actions s.actions (symbol (codes "}") ∷ rest))

entries-Runs :
    (fuel : ℕ) (name : List ℕ) (s : State) (rest : List Token)
    → IsState s
    → length (entries s rest) < fuel
    → Runs (parse_block fuel name (described s)) (entries s rest) (whole s) rest
entries-Runs fuel name s rest h small =
    rules-Runs fuel s.goal_rule name s.rules (described s) (whole s)
      (printed_actions s.actions (symbol (codes "}") ∷ rest)) rest h.0 small
      (λ f enough.
        actions-Runs f name s.actions (after_rules s.goal_rule s.rules (described s)) (whole s)
          (symbol (codes "}") ∷ rest) rest h.1 enough
          (λ g some_left. block_end g name (whole s) rest (omega (arith, some_left))))

-- A printed state is read back behind the word `state`.
pub parse_state_block-Runs :
    (fuel : ℕ) (s : State) (rest : List Token)
    → IsState s
    → length (printed_state s rest) < fuel
    → Runs
        (parse_state_block fuel)
        (identifier s.name
          ∷ symbol (codes "{")
          ∷ identifier (codes "desc")
          ∷ text s.desc
          ∷ entries s rest)
        (s.name, s)
        rest
unfolding parse_state_block same_text
parse_state_block-Runs zero s rest h small = absurd (omega arith)
parse_state_block-Runs (suc fuel) s rest h small =
    let fresh : Block = record { state = new_state; has_desc = false } in
    let block =
      block_step fuel s.name (codes "desc") fresh (described s) (whole s)
        (text s.desc ∷ entries s rest) (entries s rest) rest
        (desc_entry (suc fuel) s.desc (entries s rest))
        (entries-Runs fuel s.name s rest h (omega (arith, small))) in
    bind-Runs (token 1) (block_of (suc fuel)) (token-Runs 1 (identifier s.name) _ refl refl) (
      bind-Runs (token 64) (λ t. state_behind (suc fuel) s.name (is_open t))
        (token-Runs 64 (symbol (codes "{")) _ refl refl)
        (bind-Runs (parse_block (suc fuel) s.name fresh)
          (λ b. pure (s.name, record b.state { name = s.name })) block
          (subst
            (λ st.
              Runs (pure {A = List ℕ × State} (s.name, record (whole s).state { name = s.name }))
                rest (s.name, st) rest)
            (whole-state s h) (pure-Runs (s.name, record (whole s).state { name = s.name }) rest))))
