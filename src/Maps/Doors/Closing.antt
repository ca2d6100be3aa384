-- ===== src/Maps/Doors/Closing.antt =====
-- src/map.cpp: a door that `OpenDoor` has opened, and `CloseDoor` closes again.
use etheos.Base.{
  ℕ, zero, suc, ◌+◌, ◌*◌, ◌≡◌, refl, sym, ap, ◌∙◌, Bool, true, false, not, Option, List, [], ◌∷◌,
  ◌||◌, ◌==◌, get_or, arith, if◌then◌else◌,
}
use etheos.Packet.Builder.{Builder}
use etheos.Maps.Walk.{Warp, Tile, no_tile, GameMap, in_bounds, tile_at}
use etheos.Maps.Doors.{
  Opener, set_warp, put_warp, is_locked_to, is_out_of_range, no_key, unlock, open_door, shut,
  close_door,
}

abbrev warp_at : List Tile → ℕ → Warp
warp_at ts i = (get_or ts i no_tile).warp

get_or-set_warp :
    (i : ℕ) (w : Warp) (ts : List Tile)
    → (warp_at ts i).map == 0 ≡ false
    → warp_at (set_warp i w ts) i ≡ w
unfolding set_warp
get_or-set_warp i w [] h = cc
get_or-set_warp zero w (t ∷ ts) h = refl
get_or-set_warp (suc i) w (t ∷ ts) h = get_or-set_warp i w ts h

set_warp-twice :
    (i : ℕ) (v w : Warp) (ts : List Tile) → set_warp i v (set_warp i w ts) ≡ set_warp i v ts
unfolding set_warp
set_warp-twice i v w [] = refl
set_warp-twice zero v w (t ∷ ts) = refl
set_warp-twice (suc i) v w (t ∷ ts) = ap (λ us. t ∷ us) (set_warp-twice i v w ts)

set_warp-same : (i : ℕ) (ts : List Tile) → set_warp i (warp_at ts i) ts ≡ ts
unfolding set_warp
set_warp-same i [] = refl
set_warp-same zero (t ∷ ts) = refl
set_warp-same (suc i) (t ∷ ts) = ap (λ us. t ∷ us) (set_warp-same i ts)

closed_again : (w : Warp) → w.is_open ≡ false → record w { is_open = false } ≡ w
closed_again w h = ap (λ b. record w { is_open = b }) (sym h)

-- What `OpenDoor` asks of a door.
abbrev is_no_door : Warp → Bool
is_no_door w = w.map == 0 || w.spec == 0 || w.is_open

opened_shut :
    (m m' : GameMap) (x y : ℕ) (w : Warp)
    → in_bounds m' x y ≡ true
    → is_no_door w ≡ false
    → shut m' x y (record w { is_open = true }) ≡ put_warp m' x y w
unfolding shut
opened_shut m m' x y w inside door =
    let shuts : (not (in_bounds m' x y) || (w.map == 0 || w.spec == 0 || not true)) ≡ false =
      ground (arith, inside, door) in
    rw (shut, shuts) (ap (put_warp m' x y) (closed_again w (ground (arith, door))))

-- The map with the door open, and shut.
put_warp-shut :
    (m : GameMap) (x y : ℕ)
    → in_bounds m x y ≡ true
    → is_no_door (tile_at m x y).warp ≡ false
    → close_door (put_warp m x y (record (tile_at m x y).warp { is_open = true })) x y ≡ m
unfolding close_door
put_warp-shut m x y inside door =
    let w = (tile_at m x y).warp in
    let i : ℕ = y * m.width + x in
    let m' = put_warp m x y (record w { is_open = true }) in
    let there : (tile_at m' x y).warp ≡ record w { is_open = true } =
      get_or-set_warp i (record w { is_open = true }) m.tiles (ground (arith, door)) in
    ap (shut m' x y) there
    ∙ opened_shut m m' x y w inside door
    ∙ ap (λ ts. record m { tiles = ts }) (set_warp-twice i w (record w { is_open = true }) m.tiles)
    ∙ ap (λ ts. record m { tiles = ts }) (set_warp-same i m.tiles)

-- An opened door is shut again by `CloseDoor`, which gives back the map; else the map is as it was.
abbrev pub IsUndone : GameMap → ℕ → ℕ → Bool × GameMap × List Builder → Type 0
IsUndone m x y (true, m', sent) = close_door m' x y ≡ m
IsUndone m x y (false, m', sent) = m' ≡ m

either :
    (m : GameMap) (x y : ℕ) (b : Bool) (p q : Bool × GameMap × List Builder)
    → (b ≡ true → IsUndone m x y p)
    → (b ≡ false → IsUndone m x y q)
    → IsUndone m x y (if b then p else q)
either m x y true p q hp hq = hp refl
either m x y false p q hp hq = hq refl

-- Where `OpenDoor` opens a door, whoever opens it, `CloseDoor` at the place gives back the map as it
-- was; where it does not, the map is as it was.
pub open_door-IsUndone :
    (m : GameMap) (from : Option Opener) (x y : ℕ) → IsUndone m x y (open_door m from x y)
unfolding open_door
open_door-IsUndone m from x y =
    let w = (tile_at m x y).warp in
    either m x y (not (in_bounds m x y) || is_out_of_range from x y) (false, m, []) _ (λ far. refl)
      (λ near.
        either m x y (is_no_door w) (false, m, []) (unlock m from x y w) (λ bad. refl)
          (λ door.
            let open_map = put_warp m x y (record w { is_open = true }) in
            either m x y (is_locked_to from w) (false, m, no_key w) (true, open_map, [])
              (λ locked. refl) (λ free. put_warp-shut m x y (ground (arith, near)) door)))
