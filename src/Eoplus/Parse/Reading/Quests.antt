-- ===== src/Eoplus/Parse/Reading/Quests.antt =====
-- src/eoplus/parse.cpp: a printed quest is read back.
use Prim.Native.Nat.{bit_or}
use mathlib.Core.List.{append-nil, append_assoc}
use etheos.Base.{
  ℕ, zero, suc, ◌+◌, ◌*◌, ◌/◌, ◌%◌, ◌^◌, ◌≤◌, ◌<◌, ◌≡◌, refl, sym, subst, ◌∙◌, Bool, true, false,
  some, none, List, [], ◌∷◌, ◌++◌, arith, length, codes, ◌-◌, if◌then◌else◌,
}
use etheos.Base.Bits.{bit_or_disjoint}
use etheos.Eoplus.Lex.{Token, identifier, text, symbol, integer, end_of_file, same_text}
use etheos.Eoplus.Quest.{
  Hidden, not_hidden, hidden, hidden_end, Info, new_info, State, Quest, new_quest, find_state,
}
use etheos.Eoplus.Tokens.{TokenServer, new_token_server}
use etheos.Eoplus.Tokens.View.{strip}
use etheos.Eoplus.Parse.{
  ok, pure, ◌>>=◌, token, token_if, is_dot, minor_version, behind_version, major_version,
  parse_version, parse_quest_name, text_or, after_questname, Main, new_main, parse_main_entry,
  behind_main_entry, main_round, parse_main, is_open, parse_main_block, parse_state_block,
  insert_state, parse_global_word, global_round, parse_global, fail_got, fail, after_main, no_main,
}
use etheos.Eoplus.Parse.Printing.{
  printed_hidden, printed_disabled, printed_main, printed_states, printed_quest, AreStates, IsQuest,
}
use etheos.Eoplus.Parse.Reading.Runs.{Runs, pure-Runs, bind-Runs, token-Runs, token_if-Runs}
use etheos.Eoplus.Parse.Reading.Blocks.{length-printed_state}
use etheos.Eoplus.Parse.Reading.States.{entries, parse_state_block-Runs}

version_whole :
    (v : ℕ) → v < 2 ^ 32 → bit_or (v % 2 ^ 16 % 2 ^ 16) ((v / 2 ^ 16 % 2 ^ 16) * 2 ^ 16) ≡ v
version_whole v h =
    bit_or_disjoint 16 (v % 2 ^ 16 % 2 ^ 16) (v / 2 ^ 16 % 2 ^ 16) (omega arith) ∙ omega (arith, h)

parse_version-Runs :
    (v : ℕ) (rest : List Token)
    → v < 2 ^ 32
    → Runs parse_version
        (integer (v / 2 ^ 16) ∷ symbol (codes ".") ∷ integer (v % 2 ^ 16) ∷ rest)
        v
        rest
unfolding parse_version same_text
parse_version-Runs v rest h =
    let high : ℕ = (v / 2 ^ 16 % 2 ^ 16) * 2 ^ 16 in
    bind-Runs (token 4) major_version (token-Runs 4 (integer (v / 2 ^ 16)) _ refl refl) (
      bind-Runs (token_if is_dot 64) (behind_version high)
        (token_if-Runs 64 (symbol (codes ".")) _ refl is_dot refl refl)
        (bind-Runs (token 4) (minor_version high)
          (token-Runs 4 (integer (v % 2 ^ 16)) rest refl refl)
          (subst (λ k. Runs (pure (bit_or (v % 2 ^ 16 % 2 ^ 16) high)) rest k rest)
            (version_whole v h) (pure-Runs (bit_or (v % 2 ^ 16 % 2 ^ 16) high) rest))))

main_step :
    (fuel : ℕ) (keyword : List ℕ) (m m' : Main) (out : Info) (body rest us : List Token)
    → Runs (parse_main_entry keyword m) body (some m') rest
    → Runs (parse_main fuel m') rest out us
    → Runs (parse_main (suc fuel) m) (identifier keyword ∷ body) out us
unfolding parse_main
main_step fuel keyword m m' out body rest us entry more =
    bind-Runs (token 65) (main_round (parse_main fuel) m)
      (token-Runs 65 (identifier keyword) body refl refl)
      (bind-Runs (parse_main_entry keyword m) (behind_main_entry (parse_main fuel)) entry more)

main_end :
    (fuel : ℕ) (m : Main) (rest : List Token)
    → Runs (parse_main (suc fuel) m) (symbol (codes "}") ∷ rest) m.info rest
unfolding parse_main same_text
main_end fuel m rest =
    bind-Runs (token 65) (main_round (parse_main fuel) m)
      (token-Runs 65 (symbol (codes "}")) rest refl refl) (pure-Runs m.info rest)

-- What is read behind the version.
abbrev named : List ℕ → ℕ → Hidden → Bool → Main
named name version h d = record {
  info = record { name = name; version = version; visible = h; disabled = d };
  has_questname = true;
  has_version = true;
}

module _ (name : List ℕ) (v : ℕ) (rest : List Token) where
  disabled-Runs :
      (fuel : ℕ) (h : Hidden) (d : Bool)
      → Runs
          (parse_main (suc (suc fuel)) (named name v h false))
          (printed_disabled d (symbol (codes "}") ∷ rest))
          (named name v h d).info
          rest
  unfolding parse_main_entry same_text
  disabled-Runs fuel h false = main_end (suc fuel) (named name v h false) rest
  disabled-Runs fuel h true =
      main_step (suc fuel) (codes "disabled") (named name v h false) (named name v h true)
        (named name v h true).info (symbol (codes "}") ∷ rest) (symbol (codes "}") ∷ rest) rest
        (pure-Runs (some (named name v h true)) (symbol (codes "}") ∷ rest))
        (main_end fuel (named name v h true) rest)

  hidden-Runs :
      (fuel : ℕ) (h : Hidden) (d : Bool)
      → Runs
          (parse_main (suc (suc (suc fuel))) (named name v not_hidden false))
          (printed_hidden h (printed_disabled d (symbol (codes "}") ∷ rest)))
          (named name v h d).info
          rest
  unfolding parse_main_entry same_text
  hidden-Runs fuel not_hidden d = disabled-Runs (suc fuel) not_hidden d
  hidden-Runs fuel hidden d =
      let later = printed_disabled d (symbol (codes "}") ∷ rest) in
      main_step (suc (suc fuel)) (codes "hidden") (named name v not_hidden false)
        (named name v hidden false) (named name v hidden d).info later later rest
        (pure-Runs (some (named name v hidden false)) later) (disabled-Runs fuel hidden d)
  hidden-Runs fuel hidden_end d =
      let later = printed_disabled d (symbol (codes "}") ∷ rest) in
      main_step (suc (suc fuel)) (codes "hidden_end") (named name v not_hidden false)
        (named name v hidden_end false) (named name v hidden_end d).info later later rest
        (pure-Runs (some (named name v hidden_end false)) later) (disabled-Runs fuel hidden_end d)

-- The entries of the main block behind its brace.
abbrev main_entries : Info → List Token → List Token
main_entries i rest =
    identifier (codes "questname")
    ∷ text i.name
    ∷ identifier (codes "version")
    ∷ integer (i.version / 2 ^ 16)
    ∷ symbol (codes ".")
    ∷ integer (i.version % 2 ^ 16)
    ∷ printed_hidden i.visible (printed_disabled i.disabled (symbol (codes "}") ∷ rest))

abbrev with_name : List ℕ → Main
with_name name = record {
  info = record new_info { name = name };
  has_questname = true;
  has_version = false;
}

main_entries-Runs :
    (fuel : ℕ) (i : Info) (rest : List Token)
    → i.version < 2 ^ 32
    → Runs (parse_main (suc (suc (suc (suc (suc fuel))))) new_main) (main_entries i rest) i rest
unfolding parse_main_entry parse_quest_name same_text
main_entries-Runs fuel i rest h =
    let later =
      printed_hidden i.visible (printed_disabled i.disabled (symbol (codes "}") ∷ rest)) in
    let m = with_name i.name in
    let m' = named i.name i.version not_hidden false in
    let numbers =
      integer (i.version / 2 ^ 16) ∷ symbol (codes ".") ∷ integer (i.version % 2 ^ 16) ∷ later in
    main_step (suc (suc (suc (suc fuel)))) (codes "questname") new_main m i
      (text i.name ∷ identifier (codes "version") ∷ numbers)
      (identifier (codes "version") ∷ numbers) rest
      (bind-Runs (token 2 >>= text_or after_questname) _
        (bind-Runs (token 2) (text_or after_questname) (token-Runs 2 (text i.name) _ refl refl)
          (pure-Runs i.name (identifier (codes "version") ∷ numbers)))
        (pure-Runs (some m) (identifier (codes "version") ∷ numbers)))
      (main_step (suc (suc (suc fuel))) (codes "version") m m' i numbers later rest
        (bind-Runs parse_version _ (parse_version-Runs i.version later h)
          (pure-Runs (some m') later))
        (hidden-Runs i.name i.version rest fuel i.visible i.disabled))

parse_main_block-Runs :
    (fuel : ℕ) (i : Info) (rest : List Token)
    → i.version < 2 ^ 32
    → 5 ≤ fuel
    → Runs (parse_main_block fuel) (symbol (codes "{") ∷ main_entries i rest) i rest
unfolding parse_main_block same_text
parse_main_block-Runs fuel i rest h enough =
    let k = fuel - 5 in
    let e : suc (suc (suc (suc (suc k)))) ≡ fuel = omega arith in
    bind-Runs (token 64) (λ t. if is_open t then parse_main fuel new_main else fail_got after_main)
      (token-Runs 64 (symbol (codes "{")) _ refl refl)
      (subst (λ f. Runs (parse_main f new_main) (main_entries i rest) i rest) e
        (main_entries-Runs k i rest h))

length-printed_hidden :
    (h : Hidden) (rest : List Token) → length rest ≤ length (printed_hidden h rest)
length-printed_hidden not_hidden rest = omega arith
length-printed_hidden hidden rest = omega arith
length-printed_hidden hidden_end rest = omega arith

length-printed_disabled :
    (d : Bool) (rest : List Token) → length rest ≤ length (printed_disabled d rest)
length-printed_disabled true rest = omega arith
length-printed_disabled false rest = omega arith

length-printed_main :
    (i : Info) (rest : List Token) → 8 + length rest < length (printed_main i rest)
length-printed_main i rest = omega (
  arith,
  length-printed_hidden i.visible (printed_disabled i.disabled (symbol (codes "}") ∷ rest)),
  length-printed_disabled i.disabled (symbol (codes "}") ∷ rest),
)

-- A word of the global scope and what stands behind it.
global_step :
    (fuel : ℕ) (keyword : List ℕ) (q out : Quest) (body us : List Token)
    → Runs (parse_global_word (suc fuel) (parse_global fuel) keyword q) body out us
    → Runs (parse_global (suc fuel) q) (identifier keyword ∷ body) out us
unfolding parse_global
global_step fuel keyword q out body us entry =
    bind-Runs (token 257) (global_round (suc fuel) (parse_global fuel) q)
      (token-Runs 257 (identifier keyword) body refl refl) entry

global_end :
    (fuel : ℕ) (q : Quest)
    → q.has_info ≡ true
    → Runs (parse_global (suc fuel) q) (end_of_file ∷ []) q []
unfolding parse_global
global_end fuel q h =
    bind-Runs (token 257) (global_round (suc fuel) (parse_global fuel) q)
      (token-Runs 257 end_of_file [] refl refl)
      (subst (λ b. Runs (if b then pure q else fail no_main) [] q []) (sym h) (pure-Runs q []))

insert_state-Runs :
    (q : Quest) (name : List ℕ) (s : State) (ts : List Token)
    → find_state name q.states ≡ none
    → Runs (insert_state q (name, s)) ts (record q { states = q.states ++ (name, s) ∷ [] }) ts
insert_state-Runs q name s ts fresh =
    rw (insert_state, fresh) (pure-Runs (record q { states = q.states ++ (name, s) ∷ [] }) ts)

states-Runs :
    (fuel : ℕ) (q : Quest) (states : List (List ℕ × State))
    → q.has_info ≡ true
    → AreStates q.states states
    → length (printed_states states) < fuel
    → Runs
        (parse_global fuel q)
        (printed_states states)
        (record q { states = q.states ++ states })
        []
unfolding parse_global_word same_text
states-Runs zero q states i h small = absurd (omega arith)
states-Runs (suc fuel) q [] i h small =
    subst (λ l. Runs (parse_global (suc fuel) q) (end_of_file ∷ []) (record q { states = l }) [])
      (sym (append-nil q.states)) (global_end fuel q i)
states-Runs (suc fuel) q ((name, s) ∷ states) i h small =
    let (fresh, same, valid, more) = h in
    let later = printed_states states in
    let q' : Quest = record q { states = q.states ++ (name, s) ∷ [] } in
    let out : Quest = record q { states = q.states ++ (name, s) ∷ states } in
    let rest : Runs (parse_global fuel q') later out [] =
      subst (λ l. Runs (parse_global fuel q') later (record q { states = l }) [])
        (append_assoc q.states ((name, s) ∷ []) states)
        (states-Runs fuel q' states i more (omega (arith, length-printed_state s later, small))) in
    global_step fuel (codes "state") q out _ [] (
      bind-Runs (parse_state_block (suc fuel)) _
        (subst
          (λ n.
            Runs (parse_state_block (suc fuel))
              (identifier s.name
                ∷ symbol (codes "{")
                ∷ identifier (codes "desc")
                ∷ text s.desc
                ∷ entries s later)
              (n, s) later)
          same (parse_state_block-Runs (suc fuel) s later valid small))
        (bind-Runs (insert_state q (name, s)) (parse_global fuel)
          (insert_state-Runs q name s later fresh) rest))

quest-Runs :
    (fuel : ℕ) (q : Quest)
    → IsQuest q
    → length (printed_quest q) < fuel
    → Runs (parse_global fuel new_quest) (printed_quest q) q []
unfolding parse_global_word same_text
quest-Runs zero q h small = absurd (omega arith)
quest-Runs (suc fuel) q h small =
    let later = printed_states q.states in
    let started : Quest = record { has_info = true; info = q.info; states = [] } in
    let whole : ◌≡◌ {A = Quest} (record started { states = q.states }) q = cc (h.0) in
    let longer = length-printed_main q.info later in
    global_step fuel (codes "main") new_quest q _ [] (
      bind-Runs (parse_main_block (suc fuel)) _
        (parse_main_block-Runs (suc fuel) q.info later h.1 (omega (arith, longer, small)))
        (subst (λ r. Runs (parse_global fuel started) later r []) whole
          (states-Runs fuel started q.states refl h.2 (omega (arith, longer, small)))))

-- A quest that is written as tokens is read back as it was, wherever ends of lines stand between
-- them; a round for each token and one more are enough.
pub parse_global-printed_quest :
    (q : Quest) (tokens : List Token) (fuel : ℕ)
    → IsQuest q
    → strip tokens ≡ printed_quest q
    → length (printed_quest q) < fuel
    → (s : TokenServer) × (parse_global fuel new_quest (new_token_server tokens) ≡ ok q s)
parse_global-printed_quest q tokens fuel h written small =
    let r = quest-Runs fuel q h small (new_token_server tokens) written in (r.server, r.gives)
