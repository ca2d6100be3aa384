-- ===== src/Character/Tests.antt =====
-- Items and weights of sample characters.
use etheos.Base.{replicate, ◌≢◌, ◌≡◌, refl, [], ◌∷◌, arith}
use etheos.Character.{Character}
use etheos.Character.Weight.{item_data, calculate_stats, calculate_stats_wraps}
use etheos.Character.Samples.{world, hero}

abbrev loaded : Character
loaded = record hero {
  inventory = record { id = 2; amount = 131072 } ∷ [];
  paperdoll = replicate 15 0;
}

calculate_stats_wraps_example : (calculate_stats world loaded).weight ≡ 0
calculate_stats_wraps_example = calculate_stats_wraps world loaded 2 2 refl refl

two_known : (item_data world 2).id ≢ 0
unfolding item_data
two_known = omega arith

two_heavy : (item_data world 2).weight ≢ 0
unfolding item_data
two_heavy = omega arith
