-- ===== src/Maps/Tests.antt =====
-- A chest of src/map.cpp at concrete inputs.
use etheos.Base.{◌≡◌, refl, [], ◌∷◌}
use etheos.Maps.Chest.{chest_add_item, chest_del_some_item}
use etheos.Maps.Chest.Samples.{chest}

-- A player's items join the spawned ones of the same id.
add_joins : chest_add_item 3 5 0 chest ≡ (
  5,
  record chest {
    items = record { id = 3; amount = 25; slot = 1 } ∷ record { id = 2; amount = 4; slot = 0 } ∷ [];
  },
)
unfolding chest_add_item
add_joins = refl

add_over : chest_add_item 3 90 0 chest ≡ (0, chest)
unfolding chest_add_item
add_over = refl

-- Taking a part makes the rest a player's, and the spawn waits anew.
take_part : chest_del_some_item 77 3 5 chest ≡ (
  15,
  record chest {
    items = record { id = 3; amount = 15; slot = 0 } ∷ record { id = 2; amount = 4; slot = 0 } ∷ [];
    spawns = record { slot = 1; last_taken = 77 } ∷ [];
  },
)
unfolding chest_del_some_item
take_part = refl
