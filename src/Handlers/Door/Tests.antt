-- ===== src/Handlers/Door/Tests.antt =====
-- A map of two tiles with a locked door.
use etheos.Base.{◌≡◌, refl, true, false, none, some, [], ◌∷◌}
use etheos.Character.Items.{has_item}
use etheos.Character.Samples.{hero}
use etheos.Handlers.Locker.{path_length}
use etheos.Maps.Walk.{Tile, no_tile, GameMap}
use etheos.Maps.Doors.{Opener, open_door}
use etheos.Maps.Doors.Closing.{IsUndone, open_door-IsUndone}

abbrev gate : Tile
gate = record {
  tilespec = some 8;
  warp = record { map = 7; x = 4; y = 9; levelreq = 3; spec = 2; is_open = false };
}

abbrev yard : GameMap
yard = record { width = 1; height = 2; tiles = no_tile ∷ gate ∷ []; characters = []; npcs = [] }

-- Item 2, which the hero has, is the key 2.
abbrev opener : Opener
opener = record {
  character = hero;
  see_distance = 11;
  can_interact = true;
  keys = none ∷ none ∷ some 2 ∷ [];
}

opens : (open_door yard (some opener) 0 1).0 ≡ true
unfolding open_door path_length has_item
opens = refl

no_key_for_it : (open_door yard (some (record opener { keys = [] })) 0 1).0 ≡ false
unfolding open_door path_length has_item
no_key_for_it = refl

open_door-IsUndone_example : IsUndone yard 0 1 (open_door yard (some opener) 0 1)
open_door-IsUndone_example = open_door-IsUndone yard (some opener) 0 1
