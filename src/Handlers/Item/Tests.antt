-- ===== src/Handlers/Item/Tests.antt =====
-- Dropping and getting items on a map of ten by eight tiles.
use etheos.Base.{ℕ, ◌+◌, ◌≡◌, refl, true, false, not, ◌||◌, ◌&&◌, some, [], ◌∷◌, arith, replicate}
use etheos.Base.Word.{le32}
use etheos.Handlers.Locker.{path_length}
use etheos.Character.Items.{has_item, del_item}
use etheos.Character.Weight.{calculate_stats}
use etheos.Character.Samples.{world, hero, hero-IsStock, hero_stones}
use etheos.Maps.Floor.{MapItem, is_full, get_map_item, generate_item_id}
use etheos.Maps.Floor.Ids.{IsLowestFree, generate_item_id-IsLowestFree}
use etheos.Maps.Floor.Amounts.{lying}
use etheos.Maps.Walk.{GameMap, no_tile, walkable}
use etheos.Handlers.Item.{Floor, Turn, is_far, drop_at, get_from, junk}
use etheos.Handlers.Item.Contents.{all_of, drop_at-all_of, get_from-all_of}
use etheos.Handlers.Item.Losses.{drop_at-lost}

abbrev field : GameMap
field = record { width = 10; height = 8; tiles = replicate 80 no_tile; characters = []; npcs = [] }

abbrev floor : Floor
floor = record {
  map = field;
  ghost_arena = false;
  limits = record { max_tile = 2; max_map = 400 };
  max_drop = 100;
  drop_distance = 2;
  protect_drop = 3;
  now = 50;
  player_id = 7;
  can_interact = true;
  is_jail = false;
}

abbrev stone : MapItem
stone = record { uid = 1; id = 2; amount = 6; x = 4; y = 5; owner = 7; unprotecttime = 0 }

abbrev herb : MapItem
herb = record { uid = 3; id = 3; amount = 2; x = 4; y = 5; owner = 0; unprotecttime = 90 }

-- Between the ids 1 and 3, 2 is free.
next_id : generate_item_id (stone ∷ herb ∷ []) ≡ some 2
unfolding generate_item_id
next_id = refl

-- Another's item is protected.
protected : (get_from world floor 3 (stone ∷ herb ∷ []) hero).items ≡ stone ∷ herb ∷ []
unfolding get_from path_length
protected = refl

junked : has_item (junk world 2 3 [] hero).character 2 true ≡ 2
unfolding junk has_item del_item calculate_stats
junked = refl

generate_item_id-IsLowestFree_example :
    IsLowestFree 1 (stone ∷ herb ∷ []) (generate_item_id (stone ∷ herb ∷ []))
generate_item_id-IsLowestFree_example = generate_item_id-IsLowestFree (stone ∷ herb ∷ [])

one_there : is_full floor.limits 4 5 (stone ∷ []) ≡ false
unfolding is_full
one_there = refl

two_there : is_full floor.limits 4 5 (stone ∷ herb ∷ []) ≡ true
unfolding is_full
two_there = refl

found_stone : get_map_item 1 (stone ∷ herb ∷ []) ≡ some stone
unfolding get_map_item
found_stone = refl

near_enough : (is_far floor hero 4 5 || not (walkable false field 4 5 false)) ≡ false
unfolding path_length walkable
near_enough = refl

carried_enough : (le32 3 (has_item hero 2 false) && true) ≡ true
unfolding has_item
carried_enough = refl

drop_at-all_of_example :
    (t : Turn) × (drop_at world floor 2 3 4 5 (stone ∷ []) hero ≡ some t)
    × ((j : ℕ) → all_of j t ≡ has_item hero j true + lying j (stone ∷ []))
drop_at-all_of_example =
    drop_at-all_of world floor 2 3 4 5 (stone ∷ []) hero hero-IsStock refl
      (omega arith, omega arith) one_there

get_from-all_of_example :
    all_of 2 (get_from world floor 1 (stone ∷ herb ∷ []) hero)
    ≡ has_item hero 2 true + lying 2 (stone ∷ herb ∷ [])
get_from-all_of_example =
    get_from-all_of world floor 1 stone (stone ∷ herb ∷ []) hero hero-IsStock
      (omega arith, omega arith) found_stone (omega arith, omega arith) refl
      (omega (arith, hero_stones)) 2

-- Two items lie on the tile already.
drop_at-lost_example :
    (t : Turn) × (drop_at world floor 2 3 4 5 (stone ∷ herb ∷ []) hero ≡ some t)
    × (t.items ≡ stone ∷ herb ∷ [])
    × (has_item t.character 2 true + 3 ≡ has_item hero 2 true)
drop_at-lost_example =
    drop_at-lost world floor 2 3 4 5 (stone ∷ herb ∷ []) hero hero-IsStock refl
      (omega arith, omega arith) two_there near_enough carried_enough
