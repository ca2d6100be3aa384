-- ===== src/Party/Tests.antt =====
-- A party shares experience.
use etheos.Base.{◌+◌, ◌*◌, ◌≤◌, ◌<◌, ◌≡◌, refl, true, false, List, [], ◌∷◌, arith, inr}
use etheos.Party.{Member, Levels, share_exp, count_members}
use etheos.Party.Shares.{exp_sum, share_exp_bounds}

abbrev levels : Levels
levels = record {
  max_level = 250;
  stat_per_level = 3;
  skill_per_level = 3;
  exp_table = λ level. level * 100;
}

abbrev member : Member
member = record {
  player_id = 1;
  level = 3;
  exp = 350;
  statpoints = 0;
  skillpoints = 0;
  here = true;
  can_fight = true;
}

abbrev party : List Member
party =
    member
    ∷ record member { player_id = 2; level = 0; exp = 0 }
    ∷ record member { player_id = 3; here = false }
    ∷ []

-- 101 by level among 3 and 1 is 76 and 26; the first member has enough for level 4.
shared_by_level : (share_exp levels 101 2 party).0 ≡ (
    record member { exp = 426; level = 4; statpoints = 3; skillpoints = 3 }
    ∷ record member { player_id = 2; level = 0; exp = 26 }
    ∷ record member { player_id = 3; here = false }
    ∷ [])
unfolding share_exp
shared_by_level = refl

share_exp_bounds_example :
    (exp_sum party + 101 ≤ exp_sum (share_exp levels 101 2 party).0)
    × (exp_sum (share_exp levels 101 2 party).0 < exp_sum party + 101 + count_members party)
unfolding count_members
share_exp_bounds_example =
    share_exp_bounds levels 101 2 party (inr refl) (omega arith)
      (omega arith, (omega arith, (omega arith, tt)))
