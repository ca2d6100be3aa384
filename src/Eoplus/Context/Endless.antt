-- ===== src/Eoplus/Context/Endless.antt =====
-- src/eoplus/context.cpp: a script against which the limit of the recursion is no help.
use etheos.Base.{
  ℕ, zero, suc, ◌≡◌, refl, sym, ap, subst, ◌∙◌, Bool, true, false, some, List, [], ◌∷◌, arith, inl,
  inr, Bool-cases, codes,
}
use etheos.Base.Int.{ℤ, pos, negsuc, ◌+ℤ◌, ◌-ℤ◌, ltb_ℤ, leb_ℤ}
use etheos.Eoplus.Lex.{lowercase, same_text}
use etheos.Eoplus.Quest.{always, Expression, empty_expression, Action, Rule, State, find_state}
use etheos.Eoplus.Context.{
  sets, Hooks, Context, Outcome, ok, running, higher, do_action, action_loop, rule_loop,
  check_rules, do_actions, is_last, set_state,
}

pub higher-deeper : (d : ℤ) → (d +ℤ pos 1) -ℤ pos 1 ≡ d
unfolding ◌+ℤ◌ ◌-ℤ◌
higher-deeper (pos n) = ground arith
higher-deeper (negsuc n) = ground arith

-- A level that is left for a nested call.
deeper_below : (d : ℤ) (n : ℕ) → leb_ℤ d (pos n) ≡ true → leb_ℤ (d +ℤ pos 1) (pos (suc n)) ≡ true
unfolding ◌+ℤ◌
deeper_below (pos k) n h = ground arith
deeper_below (negsuc k) n h = ground arith

not_too_deep : (d : ℤ) → leb_ℤ d (pos 100) ≡ true → ltb_ℤ (pos 100) d ≡ false
not_too_deep (pos k) h = ground arith
not_too_deep (negsuc k) h = ground arith

wider : (d : ℤ) (n : ℕ) → leb_ℤ d (pos n) ≡ true → leb_ℤ d (pos (suc n)) ≡ true
wider (pos k) n h = ground arith
wider (negsuc k) n h = ground arith

-- A context that is in some state.
abbrev within : {W : Type 0} → State → List ℕ → Bool → ℤ → W → Context W
within s name finished depth world = record {
  state = some s;
  state_name = name;
  finished = finished;
  depth = depth;
  world = world;
}

-- A state without actions and rules.
abbrev pub idle : List ℕ → List ℕ → ℕ → State
idle name desc goal = record {
  name = name;
  desc = desc;
  rules = [];
  actions = [];
  goal_rule = goal;
}

-- A state whose actions are two.
abbrev pub plain : Expression → Action
plain e = record { cond = always; cond_expr = empty_expression; expr = e }

abbrev pub restless : List ℕ → List ℕ → List Rule → ℕ → Expression → Expression → State
restless name desc rules goal x y = record {
  name = name;
  desc = desc;
  rules = rules;
  actions = plain x ∷ plain y ∷ [];
  goal_rule = goal;
}

-- The depth behind the calls for a state without actions and rules.
abbrev twice : ℤ → ℤ
twice d = (((d +ℤ pos 1) -ℤ pos 1) +ℤ pos 1) -ℤ pos 1

module _ {W : Type 0} (h : Hooks W) (set : List ℕ → Context W → Outcome W (Unit {0})) where
  do_actions-idle :
      (name desc : List ℕ) (goal : ℕ) (n : List ℕ) (f : Bool) (d : ℤ) (w : W)
      → leb_ℤ d (pos 99) ≡ true
      → do_actions h set (within (idle name desc goal) n f d w)
        ≡ ok tt (within (idle name desc goal) n f (twice d) w)
  unfolding do_actions check_rules action_loop rule_loop
  do_actions-idle name desc goal n f d w room =
      let first = not_too_deep (d +ℤ pos 1) (deeper_below d 99 room) in
      let second : ltb_ℤ (pos 100) (((d +ℤ pos 1) -ℤ pos 1) +ℤ pos 1) ≡ false =
        ap (λ k. ltb_ℤ (pos 100) (k +ℤ pos 1)) (higher-deeper d) ∙ first in
      rw (first, second) refl

module _ {W : Type 0} (h : Hooks W) (a b : List ℕ) (na nb da db : List ℕ) (ra : List Rule)
    (ga gb : ℕ) (x y : Expression)
    (found_a : find_state (lowercase a) h.states ≡ some (restless na da ra ga x y))
    (found_b : find_state (lowercase b) h.states ≡ some (idle nb db gb))
    (goes_b : (c : Context W) → h.do_action (plain x) c ≡ sets b true c)
    (goes_a : (c : Context W) → h.do_action (plain y) c ≡ sets a true c) where
  -- The names that `SetState` gives to the context when it has found the state `s`.
  entered : ℕ → List ℕ → State → Context W → Context W
  entered fuel name s c =
      within s (lowercase name) (same_text (lowercase name) (codes "end")) c.depth
        (h.begin_state name s c.world)

  set_state_found :
      (fuel : ℕ) (name : List ℕ) (s : State) (c : Context W)
      → find_state (lowercase name) h.states ≡ some s
      → set_state h (suc fuel) name true c
        ≡ do_actions h (λ n d. set_state h fuel n true d) (entered fuel name s c)
  unfolding set_state entered
  set_state_found fuel name s c found = elim (Bool-cases (is_last (lowercase name))) [
    | inl last ↦ rw (set_state, found, last) refl
    | inr other ↦ rw (set_state, found, other) refl
  ]

  set_state_idle :
      (fuel : ℕ) (c : Context W)
      → leb_ℤ c.depth (pos 99) ≡ true
      → (c' : Context W) × (set_state h (suc fuel) b true c ≡ ok tt c') × (c'.depth ≡ twice c.depth)
  unfolding entered
  set_state_idle fuel c room =
      let s = idle nb db gb in
      let fin = same_text (lowercase b) (codes "end") in
      (
        within s (lowercase b) fin (twice c.depth) (h.begin_state b s c.world),
        set_state_found fuel b s c found_b
            ∙ do_actions-idle h (λ n d. set_state h fuel n true d) nb db gb (lowercase b) fin
                c.depth (h.begin_state b s c.world) room,
        refl,
      )

  twice_back : (d : ℤ) → twice d ≡ d
  twice_back d = ap (λ k. (k +ℤ pos 1) -ℤ pos 1) (higher-deeper d) ∙ higher-deeper d

  -- The actions, where `SetState` for the second one has not ended.
  do_actions-restless :
      (fuel : ℕ) (n : List ℕ) (f : Bool) (d : ℤ) (w : W)
      → leb_ℤ d (pos 98) ≡ true
      → ((c : Context W) → leb_ℤ c.depth (pos 98) ≡ true → set_state h fuel a true c ≡ running)
      → do_actions h (λ n d. set_state h fuel n true d) (within (restless na da ra ga x y) n f d w)
        ≡ running
  unfolding do_actions action_loop do_action set_state
  do_actions-restless zero n f d w room stuck =
      let first = not_too_deep (d +ℤ pos 1) (deeper_below d 99 (wider d 98 room)) in
      let c : Context W = within (restless na da ra ga x y) n f (d +ℤ pos 1) w in
      rw (first, goes_b c) refl
  do_actions-restless (suc fuel) n f d w room stuck =
      let first = not_too_deep (d +ℤ pos 1) (deeper_below d 99 (wider d 98 room)) in
      let c : Context W = within (restless na da ra ga x y) n f (d +ℤ pos 1) w in
      let (c', moved, same) = set_state_idle fuel c (deeper_below d 98 room) in
      let back : c'.depth -ℤ pos 1 ≡ d =
        ap (λ k. k -ℤ pos 1) (same ∙ twice_back (d +ℤ pos 1)) ∙ higher-deeper d in
      let next = stuck (higher c') (subst (λ k. leb_ℤ k (pos 98) ≡ true) (sym back) room) in
      rw (first, goes_b c, moved, goes_a (higher c'), next) refl

  -- A state whose two actions set another state, which has neither actions nor rules, and then the
  -- first state again: `SetState` never comes back from it, however much fuel there is, although at
  -- most 100 nested calls are let through. (Its depth is at most 98, and the actions always set these
  -- states.)
  pub set_state_endless :
      (fuel : ℕ) (c : Context W)
      → leb_ℤ c.depth (pos 98) ≡ true
      → set_state h fuel a true c ≡ running
  unfolding set_state entered
  set_state_endless zero c room = refl
  set_state_endless (suc fuel) c room =
      let s = restless na da ra ga x y in
      set_state_found fuel a s c found_a
      ∙ do_actions-restless fuel (lowercase a) (same_text (lowercase a) (codes "end")) c.depth
          (h.begin_state a s c.world) room (set_state_endless fuel)
