-- ===== src/Eoplus/Context/Tests.antt =====
-- Contexts of two small quests.
use etheos.Base.{
  ℕ, suc, ◌≡◌, refl, subst, All, Bool, true, false, none, some, List, [], ◌∷◌, arith, codes,
  if◌then◌else◌,
}
use etheos.Base.Int.{pos, ◌+ℤ◌, ◌-ℤ◌}
use etheos.Eoplus.Lex.{lowercase, to_lower, same_text}
use etheos.Eoplus.Quest.{Expression, State, string, find_state}
use etheos.Eoplus.Context.{says, Reaction, done, sets, Hooks, Context, ok, running, set_state}
use etheos.Eoplus.Context.Endless.{idle, plain, restless, set_state_endless}
use etheos.Eoplus.Context.Depth.{IsCalm, IsTame, IsQuiet, Settled, set_state-Settled}

abbrev sets_to : List ℕ → Expression
sets_to name = record { scopes = []; function = codes "setstate"; args = string name ∷ [] }

-- `DoAction` with "setstate" only; the world counts the states that were begun.
abbrev react : List ℕ → Expression → Context ℕ → Reaction ℕ
react name e c = if same_text e.function (codes "setstate") then sets name true c else done false c

abbrev target : Expression → List ℕ
target e = elim e.args [ string s ∷ more ↦ s | other ↦ [] ]

abbrev hooks : List (List ℕ × State) → Hooks ℕ
hooks states = record {
  states = states;
  begin_state = λ name s w. suc w;
  do_action = λ a c. react (target a.expr) a.expr c;
  check_rule = λ e w. says (same_text e.function (codes "always")) w;
}

abbrev context : Context ℕ
context = record { state = none; state_name = []; finished = true; depth = pos 0; world = 0 }

-- `a` sets `b` and then `a`.
abbrev circle : Hooks ℕ
circle = hooks (
    (codes "a", restless (codes "a") [] [] 0 (sets_to (codes "b")) (sets_to (codes "a")))
    ∷ (codes "b", idle (codes "b") [] 0)
    ∷ [])

found_b : find_state (lowercase (codes "b")) circle.states ≡ some (idle (codes "b") [] 0)
unfolding find_state lowercase to_lower same_text
found_b = refl

goes :
    (name : List ℕ) (c : Context ℕ) → circle.do_action (plain (sets_to name)) c ≡ sets name true c
unfolding same_text
goes name c = refl

found_small_a :
    find_state (lowercase (codes "a")) circle.states
    ≡ some (restless (codes "a") [] [] 0 (sets_to (codes "b")) (sets_to (codes "a")))
unfolding find_state lowercase to_lower same_text
found_small_a = refl

set_state_endless_example : set_state circle 1000 (codes "a") true context ≡ running
set_state_endless_example =
    set_state_endless circle (codes "a") (codes "b") (codes "a") (codes "b") [] [] [] 0 0
      (sets_to (codes "b")) (sets_to (codes "a")) found_small_a found_b (goes (codes "b"))
      (goes (codes "a")) 1000 context refl

-- `begin` goes to the end by a rule.
abbrev hint : Expression
hint = record { scopes = []; function = codes "showhint"; args = [] }

abbrev begin : State
begin = record {
  name = codes "begin";
  desc = [];
  rules =
      record {
        expr = record { scopes = []; function = codes "always"; args = [] };
        action = plain (sets_to (codes "end"));
      }
      ∷ [];
  actions = plain hint ∷ [];
  goal_rule = 0;
}

abbrev straight : Hooks ℕ
straight = hooks ((codes "begin", begin) ∷ [])

abbrev AreQuiet : State → Type 0
AreQuiet s = All (IsCalm straight) s.actions × All (IsTame straight) s.rules

begin_quiet : (b : Bool) (s : State) → (if b then some begin else none) ≡ some s → AreQuiet s
unfolding same_text
begin_quiet true s e =
    let same : begin ≡ s = cc e in
    subst AreQuiet same ((λ c. (c, refl, (c.world, refl)), tt), (λ c. (c.world, refl), tt))
begin_quiet false s e = cc

straight-IsQuiet : IsQuiet straight
unfolding find_state
straight-IsQuiet id s e = begin_quiet (same_text (codes "begin") id) s e

ended :
    set_state straight 120 (codes "Begin") true context
    ≡ ok tt (record context { state_name = codes "end"; world = 1 })
unfolding set_state to_lower ◌+ℤ◌ ◌-ℤ◌
ended = refl

set_state-Settled_example :
    Settled straight (pos 0) (set_state straight 102 (codes "begin") true context)
set_state-Settled_example =
    set_state-Settled straight 102 (codes "begin") true context straight-IsQuiet (omega arith)
      (omega arith)
