-- ===== src/Maps/Walk/Tests.antt =====
-- Walking on a map of three by two tiles.
use etheos.Base.{◌/◌, ◌≡◌, refl, true, false, none, some, List, [], ◌∷◌, arith, ◌&&◌, not}
use etheos.Maps.Walk.{
  down, left, up, right, Being, Tile, no_tile, no_warp, Walker, GameMap, Setting, NpcOnMap, any_npc,
  walk_npc, walk, walk_ok, walk_fail, walk_warped, through, respawn, sights,
}
use etheos.Maps.Walk.Sight.{is_in_range, filter, sights-filter}
use etheos.Maps.Walk.Steps.{Stepped, walk-Stepped}
use etheos.Maps.Walk.Apart.{IsApart, walk_npc-IsApart}

abbrev bob : Walker
bob = record {
  id = 1;
  x = 1;
  y = 1;
  direction = down;
  level = 5;
  attacks = 2;
  last_walk = 0;
  is_ghost = false;
  hp = 12;
  maxhp = 50;
  is_invisible = false;
}

abbrev wall : Tile
wall = record { tilespec = some 0; warp = no_warp }

abbrev door : Tile
door = record {
  tilespec = none;
  warp = record { map = 7; x = 4; y = 9; levelreq = 3; spec = 0; is_open = false };
}

abbrev room : GameMap
room = record {
  width = 3;
  height = 2;
  tiles = no_tile ∷ no_tile ∷ no_tile ∷ wall ∷ no_tile ∷ door ∷ [];
  characters = bob ∷ [];
  npcs = [];
}

abbrev setting : Setting
setting = record {
  now = 100;
  ghost_timer = 10;
  ghost_arena = true;
  is_locked = λ map. false;
  has_spikes = true;
  spike_amount = λ maxhp. maxhp / 5;
  check_quests = λ c m. (c, m);
}

walks_up : (walk setting room bob up false).0 ≡ walk_ok
unfolding walk
walks_up = refl

hits_wall : (walk setting room bob left false).0 ≡ walk_fail
unfolding walk
hits_wall = refl

at_border : (walk setting room bob down false).0 ≡ walk_fail
unfolding walk
at_border = refl

warps : (walk setting room bob right false).0 ≡ walk_warped (through 7 4 9)
unfolding walk
warps = refl

-- With ten hit points or less the spikes above are the end.
abbrev pit : GameMap
pit = record room {
  tiles = no_tile ∷ record no_tile { tilespec = some 35 } ∷ no_tile ∷ wall ∷ no_tile ∷ door ∷ [];
}

dies : (walk setting pit (record bob { hp = 10 }) up false).0 ≡ walk_warped respawn
unfolding walk
dies = refl

hurts :
    (walk setting pit bob up false).1.characters
    ≡ record bob { y = 0; direction = up; attacks = 0; last_walk = 100; hp = 2 } ∷ []
unfolding walk
hurts = refl

walk-Stepped_example : Stepped setting pit bob up false (walk setting pit bob up false)
walk-Stepped_example =
    walk-Stepped setting pit bob up false (omega arith) (omega arith) refl (λ c m. refl)

-- With a view of 2, from (3, 3) up to (3, 2): the first is seen now, the second no more.
abbrev beings : List Being
beings =
    record { id = 8; x = 3; y = 0 }
    ∷ record { id = 9; x = 4; y = 4 }
    ∷ record { id = 7; x = 3; y = 2 }
    ∷ []

seen :
    sights up 2 3 2 beings
    ≡ (record { id = 9; x = 4; y = 4 } ∷ [], record { id = 8; x = 3; y = 0 } ∷ [])
unfolding sights
seen = refl

sights-filter_example : sights up 2 3 2 beings ≡ (
  filter (λ b. is_in_range 2 3 3 b && not (is_in_range 2 3 2 b)) beings,
  filter (λ b. is_in_range 2 3 2 b && not (is_in_range 2 3 3 b)) beings,
)
sights-filter_example = sights-filter up 2 3 2 beings tt

abbrev rat : NpcOnMap
rat = record { index = 1; x = 2; y = 0; direction = down; alive = true; hunts = false }

abbrev cave : GameMap
cave = record room { npcs = rat ∷ record rat { index = 2; x = 0 } ∷ [] }

-- An NPC does not step on a warp.
no_warp_for_npc : (walk_npc true cave rat down).0 ≡ walk_fail
unfolding walk_npc
no_warp_for_npc = refl

cave-IsApart : IsApart cave.npcs
unfolding any_npc
cave-IsApart = (λ alive. refl, (λ alive. refl, tt))

walk_npc-IsApart_example : IsApart (walk_npc true cave rat left).1.npcs
walk_npc-IsApart_example = walk_npc-IsApart true cave rat left cave-IsApart
