-- ===== src/Eoplus/Context.antt =====
-- src/eoplus/context.cpp: the state that a character's quest is in. The virtual functions are those
-- of `Hooks`; what they read and write, the other quests included, is the type `W`. Nested calls of
-- `SetState` run on fuel.
pub mod Depth
pub mod Endless
mod Tests
use etheos.Base.{
  ℕ, zero, suc, Bool, true, false, Option, none, some, List, [], ◌∷◌, ◌&&◌, ◌||◌, codes,
  if◌then◌else◌, get_or,
}
use etheos.Base.Int.{ℤ, pos, ◌+ℤ◌, ◌-ℤ◌, ltb_ℤ}
use etheos.Eoplus.Lex.{same_text, lowercase, to_lower}
use etheos.Eoplus.Quest.{
  Variant, Expression, Conditional, always, on_if, on_else, on_else_if, Action, Rule, State,
  find_state,
}

-- `depth` is the static `recursive_depth`.
pub record Context (W : Type 0) : Type 0 where
  pub state : Option State
  pub state_name : List ℕ
  pub finished : Bool
  pub depth : ℤ
  pub world : W

-- What `DoAction` does. It returns a result, or throws a `Runtime_Error`; it calls `SetState` of the
-- same context as the last thing before it returns; or it never comes to an end. The context is what
-- it leaves: an action that calls `SetState` of another context, which shares `recursive_depth`, may
-- leave any.
pub data Reaction (W : Type 0) : Type 0 where
  done : Bool → Context W → Reaction W
  throws : Context W → Reaction W
  sets : List ℕ → Bool → Context W → Reaction W
  never : Reaction W

-- What `CheckRule` says, which may write to the progress of the quest, or that it throws.
pub data Verdict (W : Type 0) : Type 0 where
  says : Bool → W → Verdict W
  fails : W → Verdict W

-- `BeginState`, `DoAction` and `CheckRule`, and the states of the quest.
pub record Hooks (W : Type 0) : Type 0 where
  pub states : List (List ℕ × State)
  pub begin_state : List ℕ → State → W → W
  pub do_action : Action → Context W → Reaction W
  pub check_rule : Expression → W → Verdict W

pub data Error : Type 0 where
  unknown_state : List ℕ → Error
  no_state too_deep action_failed rule_failed : Error

-- A result, an exception with what it leaves behind, or calls that have not ended when the fuel is
-- spent.
pub data Outcome (W A : Type 0) : Type 0 where
  ok : A → Context W → Outcome W A
  threw : Error → Context W → Outcome W A
  running : Outcome W A

infixl 5 ◌>>=◌
abbrev pub ◌>>=◌ : {W A B : Type 0} → Outcome W A → (A → Context W → Outcome W B) → Outcome W B
ok a c >>= f = f a c
threw e c >>= f = threw e c
running >>= f = running

abbrev pub max_recursion : ℤ
max_recursion = pos 100

abbrev pub is_else : Conditional → Bool
is_else on_else = true
is_else on_else_if = true
is_else k = false

abbrev pub is_if : Conditional → Bool
is_if on_if = true
is_if on_else_if = true
is_if k = false

-- The names of the states at the end of a quest.
abbrev pub is_last : List ℕ → Bool
is_last id = same_text id (codes "end") || same_text id (codes "done")

module _ {W : Type 0} where
  -- `++recursive_depth` and `--recursive_depth`.
  abbrev pub deeper : Context W → Context W
  deeper c = record c { depth = c.depth +ℤ pos 1 }

  abbrev pub higher : Context W → Context W
  higher c = record c { depth = c.depth -ℤ pos 1 }

  -- `catch (...)`.
  abbrev pub unwind : {A : Type 0} → Outcome W A → Outcome W A
  unwind (ok a c) = ok a c
  unwind (threw e c) = threw e (higher c)
  unwind running = running

  module _ (h : Hooks W) (set : List ℕ → Context W → Outcome W (Unit {0})) where
    -- `DoAction`, where `set` is `SetState`.
    abbrev pub reaction : Reaction W → Outcome W Bool
    reaction (done b c) = ok b c
    reaction (throws c) = threw action_failed c
    reaction (sets name b c) = set name c >>= λ _ c'. ok b c'
    reaction never = running

    unfoldable pub do_action : Action → Context W → Outcome W Bool
    do_action a c = reaction (h.do_action a c)

    -- `CheckRule`.
    abbrev pub verdict : Verdict W → Context W → Outcome W Bool
    verdict (says b w) c = ok b (record c { world = w })
    verdict (fails w) c = threw rule_failed (record c { world = w })

    unfoldable pub check_rule : Expression → Context W → Outcome W Bool
    check_rule e c = verdict (h.check_rule e c.world) c

    -- The lambda `do_action` of `DoActions`: its `return` leaves the lambda only, so that the loop goes on.
    abbrev pub behind_action : Bool → Context W → Context W
    behind_action true c = higher c
    behind_action false c = c

    -- The loop of `DoActions`.
    unfoldable pub action_loop : Bool → List Action → Context W → Outcome W (Unit {0})
    unfolding do_action check_rule
    action_loop last [] c = ok tt c
    action_loop last (a ∷ acts) c =
        let acted : Bool → Context W → Outcome W (Unit {0}) =
          λ met c1. do_action a c1 >>= λ b c2. action_loop met acts (behind_action b c2) in
        let skipped : Bool → Context W → Outcome W (Unit {0}) = λ met c1. action_loop met acts c1 in
        if is_else a.cond && last
        then skipped last c
        else if is_if a.cond
        then (check_rule a.cond_expr c >>= λ met c1. if met then acted met c1 else skipped met c1)
        else acted last c

    -- The loop of `CheckRules`.
    unfoldable pub rule_loop : List Rule → Context W → Outcome W Bool
    unfolding do_action check_rule
    rule_loop [] c = ok false c
    rule_loop (r ∷ rules) c =
        let more : Context W → Outcome W Bool = λ c'. rule_loop rules c' in
        check_rule r.expr c >>= λ met c1.
        if met
        then (do_action r.action c1 >>= λ b c2. if b then ok true c2 else more c2)
        else more c1

    abbrev pub without_state : {A : Type 0} → A → Context W → Outcome W A
    without_state a c = if c.finished then ok a c else threw no_state c

    abbrev pub rules_of : State → Context W → Outcome W Bool
    rules_of s c =
        if ltb_ℤ max_recursion (deeper c).depth
        then threw too_deep (higher (deeper c))
        else (unwind (rule_loop s.rules (deeper c)) >>= λ b c'. ok b (higher c'))

    -- `Context::CheckRules`.
    unfoldable pub check_rules : Context W → Outcome W Bool
    unfolding rule_loop
    check_rules c = elim c.state [ none ↦ without_state false c | some s ↦ rules_of s c ]

    abbrev pub actions_of : State → Context W → Outcome W (Unit {0})
    actions_of s c =
        if ltb_ℤ max_recursion (deeper c).depth
        then threw too_deep (higher (deeper c))
        else (unwind (action_loop false s.actions (deeper c)) >>= λ _ c'.
            check_rules (higher c') >>= λ _ c''. ok tt c'')

    -- `Context::DoActions`.
    unfoldable pub do_actions : Context W → Outcome W (Unit {0})
    unfolding action_loop check_rules
    do_actions c = elim c.state [ none ↦ without_state tt c | some s ↦ actions_of s c ]

    -- `Context::TriggerRule`; the test of the arguments is `arg_check`.
    unfoldable pub trigger_loop :
        List ℕ → (List Variant → Bool) → List Rule → Context W → Outcome W Bool
    unfolding do_action same_text
    trigger_loop rule arg_check [] c = ok false c
    trigger_loop rule arg_check (r ∷ rules) c =
        let more = trigger_loop rule arg_check rules c in
        if same_text r.expr.function rule && arg_check r.expr.args
        then (do_action r.action c >>= λ _ c'. ok true c')
        else more

    unfoldable pub trigger_rule : List ℕ → (List Variant → Bool) → Context W → Outcome W Bool
    unfolding trigger_loop
    trigger_rule rule arg_check c = elim c.state [
      | none ↦ ok false c
      | some s ↦ trigger_loop rule arg_check s.rules c
    ]

  -- Where `SetState` has found the state `s` under `id`.
  abbrev pub enter :
      Hooks W
      → (Context W → Outcome W (Unit {0}))
      → List ℕ
      → List ℕ
      → Bool
      → State
      → Context W
      → Outcome W (Unit {0})
  enter h act name id do_acts s c =
      let c' : Context W = record c {
        finished = same_text id (codes "end");
        state = some s;
        world = h.begin_state name s c.world;
      } in
      if do_acts then act c' else ok tt c'

  -- Where there is none.
  abbrev pub not_found : List ℕ → Context W → Outcome W (Unit {0})
  not_found id c = if is_last id then ok tt c else threw (unknown_state id) c

  -- `Context::SetState`.
  unfoldable pub set_state : Hooks W → ℕ → List ℕ → Bool → Context W → Outcome W (Unit {0})
  unfolding do_actions same_text find_state lowercase
  set_state h zero name do_acts c = running
  set_state h (suc fuel) name do_acts c =
      let id = lowercase name in
      let named : Context W = record c { state_name = id } in
      let c' : Context W =
        if is_last id then record named { state = none; finished = true } else named in
      elim (find_state id h.states) [
        | none ↦ not_found id c'
        | some s ↦ enter h (do_actions h (λ n d. set_state h fuel n true d)) name id do_acts s c'
      ]

-- The loop of `Context::QueryRule`.
unfoldable pub query_rule : List ℕ → (List Variant → Bool) → List Rule → Bool
unfolding same_text
query_rule rule arg_check [] = false
query_rule rule arg_check (r ∷ rules) =
    let more = query_rule rule arg_check rules in
    if same_text r.expr.function rule && arg_check r.expr.args then true else more

-- `Context::GetGoal` in a state.
unfoldable pub get_goal : State → Option Rule
get_goal s = elim s.rules [ [] ↦ none | r ∷ rules ↦ some (get_or (r ∷ rules) s.goal_rule r) ]
