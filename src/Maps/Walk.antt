-- ===== src/Maps/Walk.antt =====
-- src/map.cpp, `Map::Walk` for a character and for an NPC, with `Walkable`, `Occupied` and the tiles that they read.
-- Packets, the end of a spell, and what `Warp` and `DeathRespawn` do are left out.
pub mod Sight
pub mod Steps
pub mod Apart
mod Tests
use etheos.Base.{
  ℕ, zero, suc, ◌+◌, ◌-◌, ◌*◌, ◌%◌, Bool, true, false, not, Option, none, some, List, [], ◌∷◌, ◌++◌,
  ◌&&◌, ◌||◌, ◌==◌, ltb, leb, min, get_or, if◌then◌else◌,
}
use etheos.Base.Int.{ℤ, pos, sub_ℕ, eqb_ℤ}

-- `Direction`.
pub data Direction : Type 0 where
  down left up right : Direction

pub record Spot : Type 0 where
  pub x : ℤ
  pub y : ℤ

-- A character, an NPC or an item on the map.
pub record Being : Type 0 where
  pub id : ℕ
  pub x : ℕ
  pub y : ℕ

-- `std::abs(i)`, where `i` is `j - see`.
abbrev pub distance_of : ℕ → ℕ → ℕ
distance_of see j = if ltb j see then see - j else j - see

-- `newcoords[j]` and `oldcoords[j]`, where `x` and `y` are those of the new place.
unfoldable pub new_spot : Direction → ℕ → ℕ → ℕ → ℕ → Spot
new_spot up see x y j = record { x = sub_ℕ (x + j) see; y = sub_ℕ (y + distance_of see j) see }
new_spot right see x y j = record { x = sub_ℕ (x + see) (distance_of see j); y = sub_ℕ (y + j) see }
new_spot down see x y j = record { x = sub_ℕ (x + j) see; y = sub_ℕ (y + see) (distance_of see j) }
new_spot left see x y j = record { x = sub_ℕ (x + distance_of see j) see; y = sub_ℕ (y + j) see }

unfoldable pub old_spot : Direction → ℕ → ℕ → ℕ → ℕ → Spot
old_spot up see x y j = record {
  x = sub_ℕ (x + j) see;
  y = sub_ℕ (y + see + 1) (distance_of see j);
}
old_spot right see x y j = record {
  x = sub_ℕ (x + distance_of see j) (see + 1);
  y = sub_ℕ (y + j) see;
}
old_spot down see x y j = record {
  x = sub_ℕ (x + j) see;
  y = sub_ℕ (y + distance_of see j) (see + 1);
}
old_spot left see x y j = record {
  x = sub_ℕ (x + see + 1) (distance_of see j);
  y = sub_ℕ (y + j) see;
}

abbrev pub is_at : Being → Spot → Bool
is_at b s = eqb_ℤ (pos b.x) s.x && eqb_ℤ (pos b.y) s.y

-- The inner loop: how often a being is noted as one that leaves the view and as one that comes into it.
unfoldable pub look_one : (ℕ → Spot) → (ℕ → Spot) → ℕ → Being → List Being × List Being
look_one olds news zero b = ([], [])
look_one olds news (suc n) b =
    let (o, w) = look_one olds news n b in
    if is_at b (olds n)
    then (o ++ b ∷ [], w)
    else if is_at b (news n)
    then (o, w ++ b ∷ [])
    else (o, w)

-- The loops over the characters and over the NPCs: `oldchars` and `newchars`.
unfoldable pub look_all : (ℕ → Spot) → (ℕ → Spot) → ℕ → List Being → List Being × List Being
unfolding look_one
look_all olds news n [] = ([], [])
look_all olds news n (b ∷ beings) =
    let (o, w) = look_one olds news n b in
    let (os, ws) = look_all olds news n beings in (o ++ os, w ++ ws)

-- Who leaves the view and who comes into it, when the character has walked to `x` and `y`.
unfoldable pub sights : Direction → ℕ → ℕ → ℕ → List Being → List Being × List Being
unfolding look_all new_spot old_spot
sights d see x y beings = look_all (old_spot d see x y) (new_spot d see x y) (2 * see + 1) beings

-- `Map_Warp`; `spec` 0 is `NoDoor`.
pub record Warp : Type 0 where
  pub map : ℕ
  pub x : ℕ
  pub y : ℕ
  pub levelreq : ℕ
  pub spec : ℕ
  pub is_open : Bool

-- `Map_Tile`; without a `TileSpec` it is `None`.
pub record Tile : Type 0 where
  pub tilespec : Option ℕ
  pub warp : Warp

abbrev pub no_warp : Warp
no_warp = record { map = 0; x = 0; y = 0; levelreq = 0; spec = 0; is_open = false }

abbrev pub no_tile : Tile
no_tile = record { tilespec = none; warp = no_warp }

-- A character on the map, with the `direction` that it looks in; `is_ghost` is `!CanInteractCombat() ||
-- IsHideNpc()`, `is_invisible` is `IsHideInvisible()`.
pub record Walker : Type 0 where
  pub id : ℕ
  pub x : ℕ
  pub y : ℕ
  pub direction : Direction
  pub level : ℕ
  pub attacks : ℕ
  pub last_walk : ℕ
  pub is_ghost : Bool
  pub hp : ℕ
  pub maxhp : ℕ
  pub is_invisible : Bool

-- An NPC with its `index`; `hunts` is `ENF().type == ENF::Aggressive || parent`.
pub record NpcOnMap : Type 0 where
  pub index : ℕ
  pub x : ℕ
  pub y : ℕ
  pub direction : Direction
  pub alive : Bool
  pub hunts : Bool

-- `Map`; all tiles are `tiles`, row by row.
pub record GameMap : Type 0 where
  pub width : ℕ
  pub height : ℕ
  pub tiles : List Tile
  pub characters : List Walker
  pub npcs : List NpcOnMap

abbrev pub in_bounds : GameMap → ℕ → ℕ → Bool
in_bounds m x y = not (leb m.width x || leb m.height y)

abbrev pub tile_at : GameMap → ℕ → ℕ → Tile
tile_at m x y = get_or m.tiles (y * m.width + x) no_tile

-- The `switch` of `Map_Tile::Walkable`.
unfoldable pub is_blocked : Bool → ℕ → Bool
is_blocked npc spec =
    leb spec 7
    || spec == 9
    || spec == 16
    || (spec == 17 && npc)
    || spec == 18
    || (leb 20 spec && leb spec 28)

unfoldable pub tile_walkable : Bool → Tile → Bool
unfolding is_blocked
tile_walkable npc t =
    not (not (t.warp.map == 0) && npc)
    && elim t.tilespec [ none ↦ true | some spec ↦ not (is_blocked npc spec) ]

unfoldable pub any_character : Bool → ℕ → ℕ → List Walker → Bool
any_character adminghost x y [] = false
any_character adminghost x y (c ∷ cs) =
    (c.x == x && c.y == y && not (adminghost && c.is_ghost)) || any_character adminghost x y cs

unfoldable pub any_npc : ℕ → ℕ → List NpcOnMap → Bool
any_npc x y [] = false
any_npc x y (n ∷ ns) = (n.alive && n.x == x && n.y == y) || any_npc x y ns

-- `Map::Occupied`: of characters, and of NPCs also.
unfoldable pub occupied : GameMap → ℕ → ℕ → Bool → Bool → Bool
unfolding any_character any_npc
occupied m x y npcs adminghost =
    in_bounds m x y && (any_character adminghost x y m.characters || (npcs && any_npc x y m.npcs))

-- `Map::Walkable`; `ghost_arena` is the setting, 32 is `Map_Tile::Arena`.
unfoldable pub walkable : Bool → GameMap → ℕ → ℕ → Bool → Bool
unfolding tile_walkable occupied
walkable ghost_arena m x y npc =
    let t = tile_at m x y in
    in_bounds m x y
    && tile_walkable npc t
    && not (
        ghost_arena
        && elim t.tilespec [ none ↦ false | some spec ↦ spec == 32 ]
        && occupied m x y true false)

-- The `switch` over the direction: the place walked to. A coordinate is an `unsigned char`, and the
-- test for a step down reads `target_x`.
unfoldable pub target_of : Direction → ℕ → ℕ → Option (ℕ × ℕ)
target_of up x y = let ty : ℕ = (y + 255) % 256 in if ltb y ty then none else some (x, ty)
target_of right x y = let tx : ℕ = (x + 1) % 256 in if ltb tx x then none else some (tx, y)
target_of down x y = let ty : ℕ = (y + 1) % 256 in if ltb x x then none else some (x, ty)
target_of left x y = let tx : ℕ = (x + 255) % 256 in if ltb x tx then none else some (tx, y)

-- Where a character that is warped goes to: through a warp, nowhere because the map is evacuated, or
-- where it respawns.
pub data Destination : Type 0 where
  through : ℕ → ℕ → ℕ → Destination
  locked respawn : Destination

-- `Map::WalkResult`, a warp with its destination.
pub data WalkResult : Type 0 where
  walk_fail : WalkResult
  walk_ok : WalkResult
  walk_warped : Destination → WalkResult

-- What `Walk` reads besides the map: `now` and `GhostTimer` in one unit, `GhostArena`, whether the map
-- with some number cannot be entered because it is evacuated, whether `SpikeDamage` is above 0, and
-- what it comes to as an `int` for some `maxhp`. `check_quests` is
-- `CheckQuestRules`, with what it leaves of the character and of the map.
pub record Setting : Type 0 where
  pub now : ℕ
  pub ghost_timer : ℕ
  pub ghost_arena : Bool
  pub is_locked : ℕ → Bool
  pub has_spikes : Bool
  pub spike_amount : ℕ → ℕ
  pub check_quests : Walker → GameMap → Walker × GameMap

unfoldable pub put_walker : Walker → List Walker → List Walker
put_walker c [] = []
put_walker c (d ∷ ds) = if d.id == c.id then c ∷ ds else d ∷ put_walker c ds

-- The character is at its new place.
abbrev pub moved : Setting → Direction → ℕ → ℕ → Walker → Walker
moved s d x y c = record c { x = x; y = y; direction = d; attacks = 0; last_walk = s.now }

abbrev pub put_on : GameMap → Walker → GameMap
put_on m c = record m { characters = put_walker c m.characters }

-- The tile at the place is `Spikes2` or `Spikes3`, and hurts the character.
abbrev pub is_spiked : Setting → GameMap → Walker → ℕ → ℕ → Bool
is_spiked s m c x y =
    s.has_spikes
    && elim (tile_at m x y).tilespec [ none ↦ false | some spec ↦ spec == 35 || spec == 36 ]
    && not c.is_invisible

-- `Character::SpikeDamage`.
abbrev pub spike_damage : ℕ → Walker → Walker
spike_damage amount c = record c { hp = c.hp - min amount c.hp }

-- The step, what quest rules do then, and what spikes at the place of the character do; what is left is
-- as it is before `DeathRespawn`.
abbrev pub step_to : Setting → GameMap → Walker → Direction → ℕ → ℕ → WalkResult × GameMap
step_to s m c d x y =
    let there = moved s d x y c in
    let (after, m') = s.check_quests there (put_on m there) in
    let hurt = spike_damage (s.spike_amount after.maxhp) after in
    if is_spiked s m' after after.x after.y
    then if hurt.hp == 0 then (walk_warped respawn, put_on m' hurt) else (walk_ok, put_on m' hurt)
    else (walk_ok, m')

-- A tile with a warp.
abbrev pub through_warp :
    Setting → GameMap → Walker → Direction → Bool → ℕ → ℕ → Warp → WalkResult × GameMap
through_warp s m c d admin x y w =
    if leb w.levelreq c.level && (w.spec == 0 || w.is_open)
    then (walk_warped (if s.is_locked w.map then locked else through w.map w.x w.y), m)
    else if not admin
    then (walk_fail, m)
    else step_to s m c d x y

-- `Walk` where the target is `x`, `y`.
unfoldable pub walk_to :
    Setting → GameMap → Walker → Direction → Bool → ℕ → ℕ → WalkResult × GameMap
unfolding walkable put_walker occupied
walk_to s m c d admin x y =
    let w = (tile_at m x y).warp in
    if not (in_bounds m x y)
    then (walk_fail, m)
    else if not admin
        && (not (walkable s.ghost_arena m x y false)
            || (occupied m x y false false && ltb s.now (c.last_walk + s.ghost_timer)))
    then (walk_fail, m)
    else if not (w.map == 0)
    then through_warp s m c d admin x y w
    else step_to s m c d x y

-- `Map::Walk` for a character.
unfoldable pub walk : Setting → GameMap → Walker → Direction → Bool → WalkResult × GameMap
unfolding target_of walk_to
walk s m c d admin = elim (target_of d c.x c.y) [
  | none ↦ (walk_fail, m)
  | some t ↦ walk_to s m c d admin t.0 t.1
]

unfoldable pub put_npc : NpcOnMap → List NpcOnMap → List NpcOnMap
put_npc n [] = []
put_npc n (k ∷ ks) = if k.index == n.index then n ∷ ks else k ∷ put_npc n ks

-- `Map::Walk` for an NPC.
unfoldable pub walk_npc : Bool → GameMap → NpcOnMap → Direction → WalkResult × GameMap
unfolding target_of walkable occupied put_npc
walk_npc ghost_arena m n d = elim (target_of d n.x n.y) [
  | none ↦ (walk_fail, m)
  | some t ↦
      if not (walkable ghost_arena m t.0 t.1 true) || occupied m t.0 t.1 true n.hunts
      then (walk_fail, m)
      else (
        walk_ok,
        record m { npcs = put_npc (record n { x = t.0; y = t.1; direction = d }) m.npcs },
      )
]
