-- ===== src/Party.antt =====
-- src/party.cpp, `Party::ShareEXP`: how a party shares experience. The quotients of `double`s that
-- are rounded up are those of the integers, which a `double` holds exactly here: the products stay
-- below 2 ^ 53, and a quotient that is no integer differs from one by far more than it is rounded.
pub mod Members
pub mod Shares
mod Tests
use etheos.Base.{
  ℕ, ◌+◌, ◌-◌, ◌*◌, ◌/◌, ◌%◌, ◌^◌, Bool, true, false, List, [], ◌∷◌, ◌&&◌, ◌==◌, ltb, leb,
  if◌then◌else◌,
}
use etheos.Base.Word.{add32, le32, lt32}
use etheos.Packet.Builder.{Builder, new_builder, add_char, add_short, add_int}

-- What `ShareEXP` reads and writes of a member. `here` says that it is on the map (and not
-- `nowhere`), `can_fight` is `CanInteractCombat`. (`CalculateStats` writes other fields.)
pub record Member : Type 0 where
  pub player_id : ℕ
  pub level : ℕ
  pub exp : ℕ
  pub statpoints : ℕ
  pub skillpoints : ℕ
  pub here : Bool
  pub can_fight : Bool

-- The settings, and the table of the world that says how much experience a level needs.
pub record Levels : Type 0 where
  pub max_level : ℕ
  pub stat_per_level : ℕ
  pub skill_per_level : ℕ
  pub exp_table : ℕ → ℕ

abbrev pub packet_party : ℕ
packet_party = 24

abbrev pub packet_target_group : ℕ
packet_target_group = 33

abbrev pub takes_part : Member → Bool
takes_part m = m.can_fight && m.here

-- `(level == 0) ? 1 : level`.
abbrev pub counted_level : Member → ℕ
counted_level m = if m.level == 0 then 1 else m.level

-- The first loop: `sumlevel` and `members`.
unfoldable pub sum_level : List Member → ℕ
sum_level [] = 0
sum_level (m ∷ ms) = if takes_part m then counted_level m + sum_level ms else sum_level ms

unfoldable pub count_members : List Member → ℕ
count_members [] = 0
count_members (m ∷ ms) = if takes_part m then 1 + count_members ms else count_members ms

-- `std::ceil` of a quotient.
unfoldable pub ceil_div : ℕ → ℕ → ℕ
ceil_div a b = (a + b - 1) / b

-- The `switch`; with another mode the reward stays 0.
unfoldable pub reward_of : ℕ → ℕ → ℕ → ℕ → Member → ℕ
unfolding ceil_div
reward_of mode exp members sumlevel m =
    if mode == 1
    then ceil_div exp members
    else if mode == 2
    then ceil_div (exp * counted_level m) sumlevel
    else 0

-- A member gets the reward, and one level at most.
unfoldable pub give_reward : Levels → ℕ → Member → Member × Builder
give_reward w reward m =
    let exp : ℕ = add32 m.exp reward in
    let level_up = lt32 m.level w.max_level && le32 (w.exp_table (m.level + 1)) exp in
    (
      record m {
        exp = exp;
        level = if level_up then (m.level + 1) % 2 ^ 8 else m.level;
        statpoints = if level_up then (m.statpoints + w.stat_per_level) % 2 ^ 16 else m.statpoints;
        skillpoints =
            if level_up then (m.skillpoints + w.skill_per_level) % 2 ^ 16 else m.skillpoints;
      },
      add_char (if level_up then 1 else 0) (
          add_int reward
            (add_short (m.player_id % 2 ^ 16) (new_builder packet_party packet_target_group))),
    )

-- The second loop: the members after it, and the packets that they are sent.
unfoldable pub share_loop : Levels → ℕ → ℕ → ℕ → ℕ → List Member → List Member × List Builder
unfolding reward_of give_reward
share_loop w mode exp members sumlevel [] = ([], [])
share_loop w mode exp members sumlevel (m ∷ ms) =
    let (m', packet) = give_reward w (reward_of mode exp members sumlevel m) m in
    let (ms', packets) = share_loop w mode exp members sumlevel ms in
    if takes_part m then (m' ∷ ms', packet ∷ packets) else (m ∷ ms', packets)

-- `Party::ShareEXP`.
unfoldable pub share_exp : Levels → ℕ → ℕ → List Member → List Member × List Builder
unfolding share_loop sum_level count_members
share_exp w exp mode ms =
    if count_members ms == 0
    then (ms, [])
    else if sum_level ms == 0
    then (ms, [])
    else share_loop w mode exp (count_members ms) (sum_level ms) ms
