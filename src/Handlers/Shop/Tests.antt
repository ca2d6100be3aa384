-- ===== src/Handlers/Shop/Tests.antt =====
-- The shop on a sample character.
use mathlib.Core.List.{Mem}
use etheos.Base.{true, ◌*◌, ◌+◌, ◌≡◌, ◌⊎◌, refl, List, [], ◌∷◌, arith}
use etheos.Character.Items.{has_item, add_item, del_item}
use etheos.Character.Weight.{calculate_stats}
use etheos.Character.Samples.{world, hero, hero-IsStock}
use etheos.Handlers.Shop.{TradeItem, buy_from, sell_to, create_from}
use etheos.Handlers.Shop.Prices.{Exchanged, sell_to-Exchanged}

abbrev wares : List TradeItem
wares = record { id = 2; buy = 10; sell = 4 } ∷ []

-- Three stones for 30 gold.
bought : has_item (buy_from world wares 2 3 hero).0 1 true ≡ 270
unfolding buy_from has_item add_item del_item calculate_stats
bought = refl

-- A herb from two stones.
crafted :
    has_item
      (create_from world
        (record { id = 3; ingredients = record { id = 2; amount = 2 } ∷ [] } ∷ [])
        3
        hero).0
      3
      true
    ≡ 1
unfolding create_from has_item add_item del_item calculate_stats
crafted = refl

sell_to-Exchanged_example :
    ((sell_to world wares 2 3 hero).0 ≡ hero)
    ⊎ ((t : TradeItem) × Mem t wares
        × (t.id ≡ 2)
        × Exchanged 2 3 1 (has_item hero 1 true + 3 * t.sell) hero (sell_to world wares 2 3 hero).0)
sell_to-Exchanged_example =
    sell_to-Exchanged world 2 3 hero hero-IsStock refl (omega arith, omega arith)
      (omega arith, omega arith) (omega arith) wares refl
