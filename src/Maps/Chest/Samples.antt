-- ===== src/Maps/Chest/Samples.antt =====
-- A chest for the tests.
use etheos.Base.{[], ◌∷◌, arith}
use etheos.Maps.Chest.{Chest}
use etheos.Maps.Chest.Limits.{IsChest}

abbrev pub chest : Chest
chest = record {
  x = 4;
  y = 6;
  items = record { id = 3; amount = 20; slot = 1 } ∷ record { id = 2; amount = 4; slot = 0 } ∷ [];
  spawns = record { slot = 1; last_taken = 0 } ∷ [];
  slots = 1;
  maxchest = 100;
  chestslots = 5;
  key = 0;
}

pub chest-IsChest : IsChest chest
chest-IsChest = record {
  limit = omega arith;
  places = omega arith;
  amounts = ((omega arith, omega arith), ((omega arith, omega arith), tt));
  within = (omega arith, (omega arith, tt));
  entries = omega arith;
}
