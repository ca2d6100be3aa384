-- ===== src/Eoplus/Parse/Ends/Blocks.antt =====
-- src/eoplus/parse.cpp: the blocks of a quest come to an end.
use etheos.Base.{
  ℕ, zero, suc, ◌+◌, ◌≤◌, ◌<◌, ◌≡◌, refl, Bool, true, false, Option, none, some, List, ◌||◌, arith,
  inl, inr, Option-cases, codes, if◌then◌else◌, length,
}
use etheos.Eoplus.Lex.{Token, end_of_file, identifier, symbol, same_text}
use etheos.Eoplus.Quest.{Rule, Info, State, new_state, Quest, new_quest, find_state}
use etheos.Eoplus.Tokens.{TokenServer, new_token_server, is_new_line, put_back}
use etheos.Eoplus.Tokens.Lines.{IsSound, pending, put_back-Gets, ends}
use etheos.Eoplus.Parse.{
  Message, second_questname, second_version, second_hidden, second_disabled, main_entry,
  second_desc, state_entry, state_exists, after_state_name, after_state, after_main, second_main,
  no_main, block_identifier, after_questname, after_desc, Outcome, ok, error, Parser, running, pure,
  ◌>>=◌, give_back, fail_got, Block, parse_rule, parse_action, parse_desc, parse_quest_name,
  parse_version, read_desc, parse_entry, behind_entry, block_symbol, block_round, parse_block, Main,
  new_main, is_hidden, parse_main_entry, behind_main_entry, main_round, parse_main, is_open,
  parse_main_block, state_behind, block_of, parse_state_block, insert_state, parse_global_word,
  global_round, parse_global,
}
use etheos.Eoplus.Parse.Ends.Steps.{
  After, Ending, After-mono, fail-Ending, fail_got-Ending, bind-Ending, token_then, token_round,
}
use etheos.Eoplus.Parse.Ends.Expressions.{
  parse_version-Ending, parse_action-Ending, parse_rule-Ending, text_or-Ending,
}

parse_desc-Ending : {total : ℕ} (n : ℕ) → Ending total n parse_desc
unfolding parse_desc
parse_desc-Ending n = token_then n 2 _ (text_or-Ending n after_desc)

parse_quest_name-Ending : {total : ℕ} (n : ℕ) → Ending total n parse_quest_name
unfolding parse_quest_name
parse_quest_name-Ending n = token_then n 2 _ (text_or-Ending n after_questname)

-- Both branches of a test come to an end.
either {ℓ} :
    {A : Type ℓ} {total : ℕ} (n : ℕ) (b : Bool) (p q : Parser A)
    → Ending total n p
    → Ending total n q
    → Ending total n (if b then p else q)
either n true p q hp hq = hp
either n false p q hp hq = hq

module _ {total : ℕ} (fuel n : ℕ) (h : n < fuel) where
  rule_then : (f : Rule → Option Block) → Ending total n (parse_rule fuel >>= λ r. pure (f r))
  rule_then f =
      bind-Ending n (parse_rule fuel) (λ r. pure (f r)) (parse_rule-Ending fuel n h)
        (λ _ s sound small. (sound, small))

  read_desc-Ending : (b : Block) → Ending total n (read_desc b)
  read_desc-Ending b =
      either n b.has_desc _ _ (fail-Ending (Option Block) total n second_desc)
        (bind-Ending n parse_desc _ (parse_desc-Ending n) (λ _ s sound small. (sound, small)))

  parse_entry-Ending : (s : List ℕ) (b : Block) → Ending total n (parse_entry fuel s b)
  unfolding parse_entry
  parse_entry-Ending s b = either n (same_text s (codes "rule")) _ _ (rule_then _) (
      either n (same_text s (codes "action")) _ _
        (bind-Ending n (parse_action fuel) _ (parse_action-Ending fuel n h)
          (λ _ s sound small. (sound, small)))
        (either n (same_text s (codes "if")) _ _ (rule_then _) (
          either n (same_text s (codes "elseif") || same_text s (codes "elif")) _ _ (rule_then _) (
            either n (same_text s (codes "else")) _ _
              (bind-Ending n (parse_action fuel) _ (parse_action-Ending fuel n h)
                (λ _ s sound small. (sound, small)))
              (either n (same_text s (codes "desc")) _ _ (read_desc-Ending b) (
                either n (same_text s (codes "goal")) _ _ (rule_then _)
                  (λ s sound small. (sound, small))))))))

-- A token that is put back before an error.
back_then_fail {ℓ} :
    (A : Type ℓ) (total : ℕ) (t : Token) (m : Message) (s : TokenServer) (n : ℕ)
    → IsSound total s
    → is_new_line t ≡ 0
    → After total n ((give_back t >>= λ _. fail_got {A = A} m) s)
back_then_fail A total t m s n sound inside =
    let back = put_back-Gets total t s sound (omega (arith, sound.positive, inside)) in
    fail_got-Ending A total (pending (put_back t s)) m (put_back t s) back.0 (omega arith)

module _ {total : ℕ} (fuel n : ℕ) (h : n ≤ fuel) (again : Block → Parser Block)
    (loop : (b : Block) → Ending total n (again b)) (name : List ℕ) where
  behind_entry-Ending :
      (s : List ℕ) (e : Option Block) → Ending total n (behind_entry again name (identifier s) e)
  behind_entry-Ending s (some b) srv sound small = loop b srv sound small
  behind_entry-Ending s none srv sound small =
      back_then_fail Block total (identifier s) (state_entry name) srv n sound refl

  block_symbol-Ending : (b : Block) (s : List ℕ) → Ending total n (block_symbol again name b s)
  block_symbol-Ending b s =
      either n (same_text s (codes "}")) _ _ (λ s sound small. (sound, small))
        (either n (same_text s (codes ";")) _ _ (loop b) (λ srv sound small.
          back_then_fail Block total (symbol s) (state_entry name) srv n sound refl))

  block_round-Ending :
      (b : Block) (t : Token) → Ending total n (block_round (suc fuel) again name b t)
  block_round-Ending b (identifier s) =
      bind-Ending n (parse_entry (suc fuel) s b) _
        (parse_entry-Ending (suc fuel) n (omega arith) s b) (behind_entry-Ending s)
  block_round-Ending b (symbol s) = block_symbol-Ending b s
  block_round-Ending b t = fail_got-Ending Block total n (state_entry name)

pub parse_block-Ending :
    {total : ℕ} (fuel n : ℕ) (name : List ℕ) (b : Block)
    → n < fuel
    → Ending total n (parse_block fuel name b)
unfolding parse_block
parse_block-Ending zero n name b h = absurd (omega arith)
parse_block-Ending {total} (suc fuel) zero name b h =
    token_round zero 65 (block_round (suc fuel) (parse_block fuel name) name b)
      (fail_got-Ending Block total zero (state_entry name))
      (λ t s valid sound small far. absurd (omega (arith, small)))
parse_block-Ending {total} (suc fuel) (suc n) name b h =
    token_round (suc n) 65 (block_round (suc fuel) (parse_block fuel name) name b)
      (fail_got-Ending Block total (suc n) (state_entry name))
      (λ t s valid sound small far.
        After-mono Block total n (suc n) (block_round (suc fuel) (parse_block fuel name) name b t s)
          (omega arith)
          (block_round-Ending fuel n (omega arith) (parse_block fuel name)
            (λ b'. parse_block-Ending fuel n name b' (omega arith)) name b t s sound
            (omega (arith, small))))

module _ {total : ℕ} (n : ℕ) where
  parse_main_entry-Ending : (s : List ℕ) (m : Main) → Ending total n (parse_main_entry s m)
  unfolding parse_main_entry
  parse_main_entry-Ending s m =
      either n (same_text s (codes "questname")) _ _
        (either n m.has_questname _ _ (fail-Ending (Option Main) total n second_questname) (
          bind-Ending n parse_quest_name _ (parse_quest_name-Ending n)
            (λ _ s sound small. (sound, small))))
        (either n (same_text s (codes "version")) _ _
          (either n m.has_version _ _ (fail-Ending (Option Main) total n second_version) (
            bind-Ending n parse_version _ (parse_version-Ending n)
              (λ _ s sound small. (sound, small))))
          (either n (same_text s (codes "hidden")) _ _
            (either n (is_hidden m.info.visible) _ _
              (fail-Ending (Option Main) total n second_hidden) (λ s sound small. (sound, small)))
            (either n (same_text s (codes "hidden_end")) _ _
              (either n (is_hidden m.info.visible) _ _
                (fail-Ending (Option Main) total n second_hidden) (λ s sound small. (sound, small)))
              (either n (same_text s (codes "disabled")) _ _
                (either n m.info.disabled _ _ (fail-Ending (Option Main) total n second_disabled)
                  (λ s sound small. (sound, small)))
                (λ s sound small. (sound, small))))))

  module _ (again : Main → Parser Info) (loop : (m : Main) → Ending total n (again m)) where
    behind_main_entry-Ending : (e : Option Main) → Ending total n (behind_main_entry again e)
    behind_main_entry-Ending (some m) = loop m
    behind_main_entry-Ending none = fail_got-Ending Info total n main_entry

    main_round-Ending : (m : Main) (t : Token) → Ending total n (main_round again m t)
    main_round-Ending m (identifier s) =
        bind-Ending n (parse_main_entry s m) _ (parse_main_entry-Ending s m)
          behind_main_entry-Ending
    main_round-Ending m (symbol s) =
        either n (same_text s (codes "}")) _ _ (λ s sound small. (sound, small))
          (fail_got-Ending Info total n main_entry)
    main_round-Ending m t = fail_got-Ending Info total n main_entry

parse_main-Ending :
    {total : ℕ} (fuel n : ℕ) (m : Main) → n < fuel → Ending total n (parse_main fuel m)
unfolding parse_main
parse_main-Ending zero n m h = absurd (omega arith)
parse_main-Ending {total} (suc fuel) zero m h =
    token_round zero 65 (main_round (parse_main fuel) m)
      (fail_got-Ending Info total zero main_entry)
      (λ t s valid sound small far. absurd (omega (arith, small)))
parse_main-Ending {total} (suc fuel) (suc n) m h =
    token_round (suc n) 65 (main_round (parse_main fuel) m)
      (fail_got-Ending Info total (suc n) main_entry)
      (λ t s valid sound small far.
        After-mono Info total n (suc n) (main_round (parse_main fuel) m t s) (omega arith) (
          main_round-Ending n (parse_main fuel) (λ m'. parse_main-Ending fuel n m' (omega arith)) m
            t s sound (omega (arith, small))))

module _ {total : ℕ} (fuel n : ℕ) (h : n < fuel) where
  parse_main_block-Ending : Ending total n (parse_main_block fuel)
  unfolding parse_main_block
  parse_main_block-Ending = token_then n 64 _ (λ t.
      either n (is_open t) _ (fail_got after_main) (parse_main-Ending fuel n new_main h)
        (fail_got-Ending Info total n after_main))

  state_behind-Ending : (name : List ℕ) (b : Bool) → Ending total n (state_behind fuel name b)
  state_behind-Ending name true =
      bind-Ending n (parse_block fuel name (record { state = new_state; has_desc = false })) _
        (parse_block-Ending fuel n name (record { state = new_state; has_desc = false }) h)
        (λ _ s sound small. (sound, small))
  state_behind-Ending name false = fail_got-Ending (List ℕ × State) total n after_state_name

  block_of-Ending : (t : Token) → Ending total n (block_of fuel t)
  block_of-Ending (identifier name) =
      token_then n 64 (λ t. state_behind fuel name (is_open t))
        (λ t. state_behind-Ending name (is_open t))
  block_of-Ending t = fail_got-Ending (List ℕ × State) total n after_state

  parse_state_block-Ending : Ending total n (parse_state_block fuel)
  unfolding parse_state_block
  parse_state_block-Ending = token_then n 1 (block_of fuel) block_of-Ending

  insert_state-Ending : (q : Quest) (b : List ℕ × State) → Ending total n (insert_state q b)
  insert_state-Ending q (name, s) = elim (Option-cases (find_state name q.states)) [
    | inl fresh ↦ rw (insert_state, fresh) (λ s sound small. (sound, small))
    | inr (old, found) ↦ rw (insert_state, found) (fail-Ending Quest total n (state_exists name))
  ]

  module _ (again : Quest → Parser Quest) (loop : (q : Quest) → Ending total n (again q)) where
    parse_global_word-Ending :
        (s : List ℕ) (q : Quest) → Ending total n (parse_global_word fuel again s q)
    unfolding parse_global_word
    parse_global_word-Ending s q =
        either n (same_text s (codes "main")) _ _
          (either n q.has_info _ _ (fail-Ending Quest total n second_main) (
            bind-Ending n (parse_main_block fuel) _ parse_main_block-Ending
              (λ i. loop (record q { info = i; has_info = true }))))
          (either n (same_text s (codes "state")) _ _
            (bind-Ending n (parse_state_block fuel) _ parse_state_block-Ending
              (λ b. bind-Ending n (insert_state q b) _ (insert_state-Ending q b) loop))
            (fail_got-Ending Quest total n block_identifier))

    global_round-Ending : (q : Quest) (t : Token) → Ending total n (global_round fuel again q t)
    global_round-Ending q (identifier s) = parse_global_word-Ending s q
    global_round-Ending q end_of_file =
        either n q.has_info _ _ (λ s sound small. (sound, small))
          (fail-Ending Quest total n no_main)
    global_round-Ending q t = fail_got-Ending Quest total n block_identifier

parse_global-Ending :
    {total : ℕ} (fuel n : ℕ) (q : Quest) → n < fuel → Ending total n (parse_global fuel q)
unfolding parse_global
parse_global-Ending zero n q h = absurd (omega arith)
parse_global-Ending {total} (suc fuel) zero q h =
    token_round zero 257 (global_round (suc fuel) (parse_global fuel) q)
      (fail_got-Ending Quest total zero block_identifier)
      (λ t s valid sound small far. absurd (omega (arith, small)))
parse_global-Ending {total} (suc fuel) (suc n) q h =
    token_round (suc n) 257 (global_round (suc fuel) (parse_global fuel) q)
      (fail_got-Ending Quest total (suc n) block_identifier)
      (λ t s valid sound small far.
        After-mono Quest total n (suc n) (global_round (suc fuel) (parse_global fuel) q t s)
          (omega arith)
          (global_round-Ending (suc fuel) n (omega arith) (parse_global fuel)
            (λ q'. parse_global-Ending fuel n q' (omega arith)) q t s sound (omega (arith, small))))

-- What `ParseGlobal` may end in: a quest, or an error on one of the lines.
abbrev pub IsOnLine : ℕ → Outcome Quest → Type 0
IsOnLine lines (ok q s) = Unit
IsOnLine lines (error m t line) = (0 < line) × (line ≤ lines)
IsOnLine lines running = ⊥

After-IsOnLine : (total n : ℕ) (o : Outcome Quest) → After total n o → IsOnLine total o
After-IsOnLine total n (ok q s) a = tt
After-IsOnLine total n (error m t line) a = a
After-IsOnLine total n running a = a

-- `ParseGlobal` comes to its end on any tokens: to a quest, or to a `Parser_Error` whose line is one
-- of the script's, from 1 to one more than there are ends of lines. A round for each token and one
-- more are enough.
pub parse_global_total :
    (tokens : List Token) (fuel : ℕ)
    → length tokens < fuel
    → IsOnLine (1 + ends tokens) (parse_global fuel new_quest (new_token_server tokens))
parse_global_total tokens fuel h =
    let total : ℕ = 1 + ends tokens in
    After-IsOnLine total (length tokens) (parse_global fuel new_quest (new_token_server tokens)) (
      parse_global-Ending fuel (length tokens) new_quest h (new_token_server tokens)
        (record {
          lines = omega arith;
          rejected = omega arith;
          positive = omega arith;
          started = omega arith;
        })
        (omega arith))
