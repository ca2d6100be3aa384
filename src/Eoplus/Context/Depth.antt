-- ===== src/Eoplus/Context/Depth.antt =====
-- src/eoplus/context.cpp: where only rules set the state, the calls end and the depth is restored.
use etheos.Base.{
  ℕ, zero, suc, ◌+◌, ◌<◌, ◌≡◌, refl, sym, ap, subst, ◌∙◌, Bool, true, false, Option, some, none,
  List, [], ◌∷◌, arith, inl, inr, Bool-cases, Option-cases, codes, All, if◌then◌else◌, ◌&&◌,
}
use etheos.Base.Int.{ℤ, pos, negsuc, pos_part, neg_part, ◌+ℤ◌, ◌-ℤ◌, ltb_ℤ}
use etheos.Eoplus.Lex.{lowercase, same_text}
use etheos.Eoplus.Quest.{Action, Rule, State, find_state}
use etheos.Eoplus.Context.{
  Verdict, says, fails, verdict, check_rule, behind_action, Reaction, done, throws, sets, never,
  Hooks, Context, no_state, Outcome, ok, threw, running, ◌>>=◌, max_recursion, deeper, higher,
  unwind, reaction, do_action, is_else, is_if, action_loop, rule_loop, without_state, rules_of,
  check_rules, actions_of, do_actions, is_last, enter, not_found, set_state,
}
use etheos.Eoplus.Context.Endless.{higher-deeper}

module _ {W : Type 0} (h : Hooks W) where
  -- Of the context only the world has changed.
  abbrev pub IsWorldly : Context W → Context W → Type 0
  IsWorldly c c' = (w : W) × (c' ≡ record c { world = w })

  -- An action of a state leaves the context alone, and returns false.
  abbrev pub IsCalm : Action → Type 0
  IsCalm a = (c : Context W) → (c' : Context W) × (h.do_action a c ≡ done false c') × IsWorldly c c'

  -- An action of a rule returns, throws, or sets the state of this context, and else leaves it alone.
  abbrev pub Tame : Context W → Reaction W → Type 0
  Tame c (done b c') = IsWorldly c c'
  Tame c (throws c') = IsWorldly c c'
  Tame c (sets name b c') = IsWorldly c c'
  Tame c never = ⊥

  abbrev pub IsTame : Rule → Type 0
  IsTame r = (c : Context W) → Tame c (h.do_action r.action c)

  abbrev pub IsQuiet : Type 0
  IsQuiet =
      (id : List ℕ) (s : State)
      → find_state id h.states ≡ some s
      → All IsCalm s.actions × All IsTame s.rules

  -- The state is the one of the quest with the context's name; there is none only at the end.
  abbrev pub IsPlaced : Context W → Type 0
  IsPlaced c = (c.state ≡ find_state c.state_name h.states) × (c.state ≡ none → c.finished ≡ true)

  -- The call has ended, with a result in such a context or with an exception, and at the depth `d`.
  abbrev pub Settled : {A : Type 0} → ℤ → Outcome W A → Type 0
  Settled d (ok a c) = IsPlaced c × (c.depth ≡ d)
  Settled d (threw e c) = c.depth ≡ d
  Settled d running = ⊥

  worldly :
      (k : ℤ) (c c' : Context W)
      → IsWorldly c c'
      → IsPlaced c
      → c.depth ≡ k
      → IsPlaced c' × (c'.depth ≡ k)
  worldly k c c' (w, same) p e = subst (λ x. IsPlaced x × (x.depth ≡ k)) (sym same) (p, e)

  either :
      {A : Type 0} (d : ℤ) (b : Bool) (x y : Outcome W A)
      → Settled d x
      → Settled d y
      → Settled d (if b then x else y)
  either d true x y p q = p
  either d false x y p q = q

  in_state :
      {A : Type 0} (d : ℤ) (o : Option State) (x : Outcome W A) (f : State → Outcome W A)
      → Settled d x
      → ((s : State) → o ≡ some s → Settled d (f s))
      → Settled d (elim o [ none ↦ x | some s ↦ f s ])
  in_state d none x f p each = p
  in_state d (some s) x f p each = each s refl

  bind-Settled :
      {A B : Type 0} (k d : ℤ) (o : Outcome W A) (f : A → Context W → Outcome W B)
      → k ≡ d
      → Settled k o
      → ((a : A) (c : Context W) → IsPlaced c → c.depth ≡ k → Settled d (f a c))
      → Settled d (o >>= f)
  bind-Settled k d (ok a c) f same p each = each a c p.0 p.1
  bind-Settled k d (threw e c) f same p each = p ∙ same
  bind-Settled k d running f same p each = elim p [ ]

  unwind-Settled :
      {A B : Type 0} (d : ℤ) (o : Outcome W A) (f : A → Context W → Outcome W B)
      → Settled (d +ℤ pos 1) o
      → ((a : A) (c : Context W) → IsPlaced c → c.depth ≡ d +ℤ pos 1 → Settled d (f a c))
      → Settled d (unwind o >>= f)
  unwind-Settled d (ok a c) f p each = each a c p.0 p.1
  unwind-Settled d (threw e c) f p each = ap (λ k. k -ℤ pos 1) p ∙ higher-deeper d
  unwind-Settled d running f p each = elim p [ ]

  module _ (set : List ℕ → Context W → Outcome W (Unit {0})) where
    verdict-Settled :
        (k : ℤ) (v : Verdict W) (c : Context W)
        → IsPlaced c
        → c.depth ≡ k
        → Settled k (verdict h set v c)
    verdict-Settled k (says b w) c p e = (p, e)
    verdict-Settled k (fails w) c p e = e

    action_loop-Settled :
        (k : ℤ) (last : Bool) (acts : List Action) (c : Context W)
        → All IsCalm acts
        → IsPlaced c
        → c.depth ≡ k
        → Settled k (action_loop h set last acts c)
    unfolding action_loop do_action check_rule
    action_loop-Settled k last [] c quiet p e = (p, e)
    action_loop-Settled k last (a ∷ acts) c quiet p e =
        let acted : (met : Bool) (c1 : Context W)
            → IsPlaced c1
            → c1.depth ≡ k
            → Settled k (
                reaction h set (h.do_action a c1) >>= λ b c2.
                action_loop h set met acts (behind_action h set b c2)) =
          λ met c1 p1 e1.
            (let (c2, calm, only) = quiet.0 c1 in
              let (p2, e2) = worldly k c1 c2 only p1 e1 in
              rw calm (action_loop-Settled k met acts c2 quiet.1 p2 e2)) in
        either k (is_else a.cond && last) _ _ (action_loop-Settled k last acts c quiet.1 p e) (
          either k (is_if a.cond) _ _
            (bind-Settled k k (verdict h set (h.check_rule a.cond_expr c.world) c) _ refl
              (verdict-Settled k (h.check_rule a.cond_expr c.world) c p e)
              (λ met c1 p1 e1.
                either k met _ _ (acted met c1 p1 e1)
                  (action_loop-Settled k met acts c1 quiet.1 p1 e1)))
            (acted last c p e))

    module _ (k : ℤ)
        (nested : (n : List ℕ) (c : Context W) → c.depth ≡ k → Settled k (set n c)) where
      reaction-Settled :
          (r : Reaction W) (c : Context W)
          → Tame c r
          → IsPlaced c
          → c.depth ≡ k
          → Settled k (reaction h set r)
      reaction-Settled (done b c') c t p e = worldly k c c' t p e
      reaction-Settled (throws c') c t p e = (worldly k c c' t p e).1
      reaction-Settled (sets n b c') c t p e =
          bind-Settled k k (set n c') (λ _ c'. ok b c') refl (nested n c' (worldly k c c' t p e).1)
            (λ _ c'' p' e'. (p', e'))
      reaction-Settled never c t p e = elim t [ ]

      rule_loop-Settled :
          (rules : List Rule) (c : Context W)
          → All IsTame rules
          → IsPlaced c
          → c.depth ≡ k
          → Settled k (rule_loop h set rules c)
      unfolding rule_loop do_action check_rule
      rule_loop-Settled [] c tame p e = (p, e)
      rule_loop-Settled (r ∷ rules) c tame p e =
          bind-Settled k k (verdict h set (h.check_rule r.expr c.world) c) _ refl
            (verdict-Settled k (h.check_rule r.expr c.world) c p e)
            (λ met c1 p1 e1.
              either k met _ _
                (bind-Settled k k (reaction h set (h.do_action r.action c1)) _ refl
                  (reaction-Settled (h.do_action r.action c1) c1 (tame.0 c1) p1 e1)
                  (λ b c2 p2 e2. either k b _ _ (p2, e2) (rule_loop-Settled rules c2 tame.1 p2 e2)))
                (rule_loop-Settled rules c1 tame.1 p1 e1))

    -- The nested calls at the depth below `d`.
    Nested : ℤ → Type 0
    Nested d =
        ltb_ℤ max_recursion (d +ℤ pos 1) ≡ false
        → (n : List ℕ) (c : Context W) → c.depth ≡ d +ℤ pos 1
        → Settled (d +ℤ pos 1) (set n c)

    higher_back : (d k : ℤ) → k ≡ d +ℤ pos 1 → k -ℤ pos 1 ≡ d
    higher_back d k e = ap (λ j. j -ℤ pos 1) e ∙ higher-deeper d

    without_state-Settled :
        {A : Type 0} (d : ℤ) (a : A) (c : Context W)
        → IsPlaced c
        → c.depth ≡ d
        → Settled d (without_state h set a c)
    without_state-Settled d a c p e = either d c.finished (ok a c) (threw no_state c) (p, e) e

    rules_of-Settled :
        (d : ℤ) (s : State) (c : Context W)
        → Nested d
        → All IsTame s.rules
        → IsPlaced c
        → c.depth ≡ d
        → Settled d (rules_of h set s c)
    unfolding Nested
    rules_of-Settled d s c nested tame p e =
        let below : c.depth +ℤ pos 1 ≡ d +ℤ pos 1 = ap (λ j. j +ℤ pos 1) e in
        elim (Bool-cases (ltb_ℤ max_recursion (c.depth +ℤ pos 1))) [
          | inl deep ↦ rw deep (higher_back d (c.depth +ℤ pos 1) below)
          | inr fine ↦ rw fine (
              unwind-Settled d (rule_loop h set s.rules (deeper c)) (λ b c'. ok b (higher c'))
                (rule_loop-Settled (d +ℤ pos 1)
                  (nested (subst (λ j. ltb_ℤ max_recursion j ≡ false) below fine)) s.rules
                  (deeper c) tame p below)
                (λ b c' p' e'. (p', higher_back d c'.depth e')))
        ]

    check_rules-Settled :
        (d : ℤ) (c : Context W)
        → Nested d
        → IsQuiet
        → IsPlaced c
        → c.depth ≡ d
        → Settled d (check_rules h set c)
    unfolding check_rules
    check_rules-Settled d c nested quiet p e =
        in_state d c.state (without_state h set false c) (λ s. rules_of h set s c)
          (without_state-Settled d false c p e)
          (λ s here. rules_of-Settled d s c nested (quiet c.state_name s (sym p.0 ∙ here)).1 p e)

    actions_of-Settled :
        (d : ℤ) (s : State) (c : Context W)
        → Nested d
        → IsQuiet
        → All IsCalm s.actions
        → IsPlaced c
        → c.depth ≡ d
        → Settled d (actions_of h set s c)
    actions_of-Settled d s c nested all_quiet quiet p e =
        let below : c.depth +ℤ pos 1 ≡ d +ℤ pos 1 = ap (λ j. j +ℤ pos 1) e in
        elim (Bool-cases (ltb_ℤ max_recursion (c.depth +ℤ pos 1))) [
          | inl deep ↦ rw deep (higher_back d (c.depth +ℤ pos 1) below)
          | inr fine ↦ rw fine (
              unwind-Settled d (action_loop h set false s.actions (deeper c)) _
                (action_loop-Settled (d +ℤ pos 1) false s.actions (deeper c) quiet p below)
                (λ _ c' p' e'.
                  bind-Settled d d (check_rules h set (higher c')) (λ _ c''. ok tt c'') refl
                    (check_rules-Settled d (higher c') nested all_quiet p'
                      (higher_back d c'.depth e'))
                    (λ _ c'' p'' e''. (p'', e''))))
        ]

    do_actions-Settled :
        (d : ℤ) (c : Context W)
        → Nested d
        → IsQuiet
        → IsPlaced c
        → c.depth ≡ d
        → Settled d (do_actions h set c)
    unfolding do_actions
    do_actions-Settled d c nested quiet p e =
        in_state d c.state (without_state h set tt c) (λ s. actions_of h set s c)
          (without_state-Settled d tt c p e)
          (λ s here.
            actions_of-Settled d s c nested quiet (quiet c.state_name s (sym p.0 ∙ here)).0 p e)

  -- A name of the end ends the quest, also where it has no state.
  module _ (act : Context W → Outcome W (Unit {0})) (d : ℤ)
      (acts_well : (c : Context W) → IsPlaced c → c.depth ≡ d → Settled d (act c)) where
    enter-Settled :
        (name id : List ℕ) (do_acts : Bool) (s : State) (c : Context W)
        → find_state id h.states ≡ some s
        → c.state_name ≡ id
        → c.depth ≡ d
        → Settled d (enter h act name id do_acts s c)
    enter-Settled name id do_acts s c found named e =
        let c' : Context W = record c {
          finished = same_text id (codes "end");
          state = some s;
          world = h.begin_state name s c.world;
        } in
        let placed : IsPlaced c' =
          (sym found ∙ ap (λ n. find_state n h.states) (sym named), λ k. cc) in
        either d do_acts (act c') (ok tt c') (acts_well c' placed e) (placed, e)

  not_found-Settled :
      (d : ℤ) (id : List ℕ) (c : Context W)
      → c.depth ≡ d
      → (is_last id ≡ true → IsPlaced c)
      → Settled d (not_found id c)
  not_found-Settled d id c e placed = elim (Bool-cases (is_last id)) [
    | inl last ↦ rw last (placed last, e)
    | inr other ↦ rw other e
  ]

  -- Fuel for the calls that may be nested at the depth `d`.
  Room : ℕ → ℤ → Type 0
  Room fuel d = (0 < fuel) × (100 + neg_part d < pos_part d + fuel)

  nested-Room :
      (fuel : ℕ) (d : ℤ)
      → Room (suc fuel) d
      → ltb_ℤ max_recursion (d +ℤ pos 1) ≡ false
      → Room fuel (d +ℤ pos 1)
  unfolding Room ◌+ℤ◌
  nested-Room fuel (pos n) r h = ground (arith, r)
  nested-Room fuel (negsuc n) r h = ground (arith, r)

  set_state-Room :
      (fuel : ℕ) (name : List ℕ) (do_acts : Bool) (c : Context W) (d : ℤ)
      → IsQuiet
      → Room fuel d
      → c.depth ≡ d
      → Settled d (set_state h fuel name do_acts c)
  unfolding set_state Room Nested
  set_state-Room zero name do_acts c d quiet room e = absurd (omega (arith, room))
  set_state-Room (suc fuel) name do_acts c d quiet room e =
      let id = lowercase name in
      let named : Context W = record c { state_name = id } in
      let c' : Context W =
        if is_last id then record named { state = none; finished = true } else named in
      let set : List ℕ → Context W → Outcome W (Unit {0}) = λ n k. set_state h fuel n true k in
      let same : c'.depth ≡ d = elim (Bool-cases (is_last id)) [
        | inl last ↦ rw last e
        | inr other ↦ rw other e
      ] in
      let kept : c'.state_name ≡ id = elim (Bool-cases (is_last id)) [
        | inl last ↦ rw last refl
        | inr other ↦ rw other refl
      ] in
      let deeper_calls : ltb_ℤ max_recursion (d +ℤ pos 1) ≡ false
          → (n : List ℕ) (k : Context W) → k.depth ≡ d +ℤ pos 1
          → Settled (d +ℤ pos 1) (set n k) =
        λ fine n k at.
          set_state-Room fuel n true k (d +ℤ pos 1) quiet (nested-Room fuel d room fine) at in
      elim (Option-cases (find_state id h.states)) [
        | inl unknown ↦
            rw (set_state, unknown)
              (not_found-Settled d id c' same (λ last. rw last (sym unknown, λ k. refl)))
        | inr (s, found) ↦
            rw (set_state, found)
              (enter-Settled (do_actions h set) d
                (λ k p at. do_actions-Settled set d k deeper_calls quiet p at) name id do_acts s c'
                found kept same)
      ]

-- `SetState` ends where the actions of the states leave the context alone and return false, and the
-- action of a rule does nothing else to the context than to set its state, after which it returns, or
-- to throw; either may change the world, but none calls `SetState` of another quest's context, which
-- shares `recursive_depth`. It ends with a result that leaves the context in the state of its name (or
-- in none at the end of the quest), or with an exception; and `recursive_depth` is what it was. Fuel for
-- the nested calls that `max_recursion` lets through is enough.
pub set_state-Settled :
    {W : Type 0} (h : Hooks W) (fuel : ℕ) (name : List ℕ) (do_acts : Bool) (c : Context W)
    → IsQuiet h
    → 0 < fuel
    → 100 + neg_part c.depth < pos_part c.depth + fuel
    → Settled h c.depth (set_state h fuel name do_acts c)
unfolding Room
set_state-Settled h fuel name do_acts c quiet some_left room =
    set_state-Room h fuel name do_acts c c.depth quiet (some_left, room) refl
