-- ===== src/Maps/Doors.antt =====
-- src/map.cpp, `OpenDoor` and `CloseDoor`, with `EIF::GetKey` of src/eodata.cpp. The packet that the
-- others in range get, and the timer that closes the door, are left out.
pub mod Closing
use etheos.Base.{
  ℕ, zero, suc, ◌+◌, ◌-◌, ◌*◌, ◌%◌, ◌^◌, Bool, true, false, not, Option, none, some, List, [], ◌∷◌,
  ◌&&◌, ◌||◌, ◌==◌, ltb, leb, if◌then◌else◌,
}
use etheos.Character.{Character}
use etheos.Character.Items.{has_item}
use etheos.Packet.Builder.{Builder, new_builder, add_char}
use etheos.Handlers.Ids.{packet_door, packet_close}
use etheos.Handlers.Locker.{path_length}
use etheos.Maps.Walk.{Warp, Tile, GameMap, in_bounds, tile_at}

-- `EIF::GetKey` from the item `i` on: of each item its `key`, if its type is `Key`.
unfoldable pub get_key : ℕ → ℕ → List (Option ℕ) → ℕ
get_key keynum i [] = 0
get_key keynum i (k ∷ ks) =
    let rest = get_key keynum (i + 1) ks in
    if elim k [ none ↦ false | some key ↦ key == keynum ] then i else rest

-- Who opens a door: what `InRange`, `CanInteractDoors` and `HasItem` say.
pub record Opener : Type 0 where
  pub character : Character
  pub see_distance : ℕ
  pub can_interact : Bool
  pub keys : List (Option ℕ)

unfoldable pub set_warp : ℕ → Warp → List Tile → List Tile
set_warp i w [] = []
set_warp zero w (t ∷ ts) = record t { warp = w } ∷ ts
set_warp (suc i) w (t ∷ ts) = t ∷ set_warp i w ts

abbrev pub put_warp : GameMap → ℕ → ℕ → Warp → GameMap
put_warp m x y w = record m { tiles = set_warp (y * m.width + x) w m.tiles }

-- `warp.spec - Map_Warp::Door + 1`, the number of the key of a locked door.
abbrev pub key_number : Warp → ℕ
key_number w = w.spec - 1 + 1

abbrev pub has_key : Opener → Warp → Bool
has_key o w =
    o.can_interact
    && not (has_item o.character (get_key (key_number w) 0 o.keys % 2 ^ 16) false == 0)

abbrev pub is_locked_to : Option Opener → Warp → Bool
is_locked_to none w = false
is_locked_to (some o) w = ltb 1 w.spec && not (has_key o w)

abbrev pub is_out_of_range : Option Opener → ℕ → ℕ → Bool
is_out_of_range none x y = false
is_out_of_range (some o) x y = ltb o.see_distance (path_length o.character.x o.character.y x y)

abbrev pub no_key : Warp → List Builder
no_key w = add_char (key_number w) (new_builder packet_door packet_close) ∷ []

-- `OpenDoor` where there is a door: without someone who opens it no key is asked for.
abbrev pub unlock : GameMap → Option Opener → ℕ → ℕ → Warp → Bool × GameMap × List Builder
unlock m from x y w =
    if is_locked_to from w
    then (false, m, no_key w)
    else (true, put_warp m x y (record w { is_open = true }), [])

-- `OpenDoor`: what it returns, the map, and what is sent to the one who opens.
unfoldable pub open_door : GameMap → Option Opener → ℕ → ℕ → Bool × GameMap × List Builder
unfolding set_warp get_key
open_door m from x y =
    let w = (tile_at m x y).warp in
    if not (in_bounds m x y) || is_out_of_range from x y
    then (false, m, [])
    else if w.map == 0 || w.spec == 0 || w.is_open
    then (false, m, [])
    else unlock m from x y w

-- `CloseDoor` where the warp is known.
unfoldable pub shut : GameMap → ℕ → ℕ → Warp → GameMap
unfolding set_warp
shut m x y w =
    if not (in_bounds m x y) || (w.map == 0 || w.spec == 0 || not w.is_open)
    then m
    else put_warp m x y (record w { is_open = false })

-- `CloseDoor`.
unfoldable pub close_door : GameMap → ℕ → ℕ → GameMap
unfolding shut
close_door m x y = shut m x y (tile_at m x y).warp
